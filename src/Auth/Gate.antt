-- ===== src/Auth/Gate.antt =====
-- Whom the gate lets in (`authorize` of rs/base/src/auth.rs).
use tenon.Prelude.{
  ◌<◌, Bool, true, false, ◌||◌, ◌≡◌, ◌≢◌, ◌⊎◌, inl, inr, refl, sym, ap, subst, Option, none, some,
  length, Result, ok, err, arith, if_split,
}
use tenon.Auth.{
  Bytes, Auth, Request, Carrier, Scope, Reject, missing_token, bad_token, not_configured,
  constant_time_eq, check_expected, authorize,
}
use tenon.Auth.Compare.{constant_time_eq_iff}

abbrev pub Short : Option Bytes → Type 0
Short none = Unit
Short (some t) = length t < 256

-- What each answer of the gate says of the target, the configured token and the presented one.
abbrev pub Says : Bool → Option Bytes → Option Bytes → Result Reject Scope → Type 0
Says open_to_all expected presented (ok scope) =
    (open_to_all ≡ true) ⊎ (t : Bytes) × (expected ≡ some t) × (presented ≡ some t)
Says open_to_all expected presented (err not_configured) = (open_to_all ≡ false) × (expected ≡ none)
Says open_to_all expected presented (err missing_token) =
    (open_to_all ≡ false) × (presented ≡ none) × ((t : Bytes) × (expected ≡ some t))
Says open_to_all expected presented (err bad_token) =
    (open_to_all ≡ false)
    × (t : Bytes) × (u : Bytes) × (expected ≡ some t)
    × (presented ≡ some u)
    × (u ≢ t)

expected-Says :
    (carrier : Carrier) (expected presented : Option Bytes)
    → Short expected
    → Short presented
    → Says false expected presented (check_expected carrier expected presented)
expected-Says carrier none presented le lp = (refl, refl)
expected-Says carrier (some t) none le lp = (refl, refl, (t, refl))
expected-Says carrier (some t) (some u) le lp =
    if_split (Says false (some t) (some u)) (constant_time_eq u t) _ _
      (λ equal. let same = (constant_time_eq_iff u t lp le).0 equal in inr (t, refl, ap some same))
      (λ differ. (
        refl,
        t,
        u,
        refl,
        refl,
        λ same. absurd (ground (arith, differ, (constant_time_eq_iff u t lp le).1 same)),
      ))

-- With tokens of fewer than 256 bytes, each answer of the gate has its one meaning: it lets in for
-- a public target or for a presented token equal to the configured one; for a target that is not
-- public it answers that none is configured, that none is presented where one is configured, or
-- that the one presented is another than the one configured.
pub authorize-Says :
    (carrier : Carrier) (request : Request) (auth : Auth)
    → Short auth.token
    → Short request.token
    → Says (auth.public || request.public) auth.token request.token (authorize carrier request auth)
unfolding authorize
authorize-Says carrier request auth le lp =
    if_split (Says (auth.public || request.public) auth.token request.token)
      (auth.public || request.public) (ok (record { carrier = carrier; env = none }))
      (check_expected carrier auth.token request.token) (λ open_to_all. inl open_to_all)
      (λ closed.
        subst
          (λ b. Says b auth.token request.token (check_expected carrier auth.token request.token))
          (sym closed) (expected-Says carrier auth.token request.token le lp))
