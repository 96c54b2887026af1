-- ===== src/Auth/Tests.antt =====
-- Runs of the gate at concrete tokens.
use tenon.Prelude.{ℕ, zero, suc, true, false, ◌≡◌, ◌↔◌, refl, some, [], ◌∷◌, ◌++◌, arith}
use tenon.Auth
use tenon.Auth.{Bytes, Auth, Request, Carrier, constant_time_eq, fold_bytes, authorize}
use tenon.Auth.Compare.{constant_time_eq_iff}
use tenon.Auth.Gate.{Says, authorize-Says}

abbrev secret : Bytes
secret = 115 ∷ 51 ∷ 99 ∷ []

abbrev close_guess : Bytes
close_guess = 115 ∷ 51 ∷ 100 ∷ []

abbrev private_auth : Auth
private_auth = Auth.new (some secret) false

abbrev guess : Request
guess = record { token = some close_guess; public = false }

equal_example : (constant_time_eq close_guess secret ≡ true) ↔ (close_guess ≡ secret)
equal_example = constant_time_eq_iff close_guess secret (omega arith) (omega arith)

gate_example :
    Says false (some secret) (some close_guess) (authorize Carrier.http guess private_auth)
gate_example = authorize-Says Carrier.http guess private_auth (omega arith) (omega arith)

abbrev zeros : ℕ → Bytes
zeros zero = []
zeros (suc n) = 0 ∷ zeros n

-- A token followed by 256 zero bytes passes for the token.
padded_equal : constant_time_eq (secret ++ zeros 256) secret ≡ true
unfolding constant_time_eq fold_bytes
padded_equal = refl
