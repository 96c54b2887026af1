-- ===== src/Auth.antt =====
-- The gate of the serve routes (rs/base/src/auth.rs). A token is its bytes, a list of numbers below
-- 256; what the environment variable holds is an argument.
pub mod Bits
pub mod Compare
pub mod Gate
pub mod Tests
use Prim.Native.Nat.{bit_xor, bit_or}
use tenon.Prelude.{
  ℕ, zero, suc, ◌+◌, ◌%◌, max, String, Bool, true, false, ◌||◌, Option, none, some, List, [], ◌∷◌,
  ◌==◌, ℕ_eq, is_empty, length, get_elem?, Result, ok, err, if◌then◌else◌,
}

pub data Carrier : Type 0 where
  uds gateway http ws sse : Carrier

abbrev pub Bytes : Type 0
Bytes = List ℕ

pub record Request : Type 0 where
  pub token : Option Bytes
  pub public : Bool

pub record Scope : Type 0 where
  pub carrier : Carrier
  pub env : Option String

pub data Reject : Type 0 where
  missing_token bad_token not_configured : Reject

-- `Reject::message`
abbrev pub message : Reject → String
message missing_token = "missing bearer token"
message bad_token = "invalid bearer token"
message not_configured = "serve requires --auth-token or --public"

pub record Auth : Type 0 where
  pub token : Option Bytes
  pub public : Bool

-- `token.filter(|t| !t.is_empty())`
abbrev not_empty : Option Bytes → Option Bytes
not_empty none = none
not_empty (some t) = if is_empty t then none else some t

-- `Auth::new`
abbrev pub new : Option Bytes → Bool → Auth
new token public = record { token = not_empty token; public = public }

abbrev or_else : Option Bytes → Option Bytes → Option Bytes
or_else none variable = variable
or_else (some t) variable = some t

-- `Auth::resolve`
abbrev pub resolve : Option Bytes → Option Bytes → Bool → Auth
resolve flag variable public = new (or_else flag variable) public

abbrev pub byte_at : Option ℕ → ℕ
byte_at none = 0
byte_at (some b) = b

-- The loop over `index`, `len` rounds from `index` on.
unfoldable pub fold_bytes : ℕ → ℕ → Bytes → Bytes → ℕ → ℕ
fold_bytes zero index a b diff = diff
fold_bytes (suc len) index a b diff =
    fold_bytes len (index + 1) a b
      (bit_or diff (bit_xor (byte_at (get_elem? a index)) (byte_at (get_elem? b index))))

-- The difference of the lengths goes into one byte (`as u8`).
unfoldable pub constant_time_eq : Bytes → Bytes → Bool
unfolding fold_bytes
constant_time_eq a b =
    fold_bytes (max (length a) (length b)) 0 a b (bit_xor (length a) (length b) % 256) == 0

abbrev pub check_presented : Carrier → Bytes → Option Bytes → Result Reject Scope
check_presented carrier expected none = err missing_token
check_presented carrier expected (some presented) =
    if constant_time_eq presented expected
    then ok (record { carrier = carrier; env = none })
    else err bad_token

abbrev pub check_expected : Carrier → Option Bytes → Option Bytes → Result Reject Scope
check_expected carrier none presented = err not_configured
check_expected carrier (some expected) presented = check_presented carrier expected presented

unfoldable pub authorize : Carrier → Request → Auth → Result Reject Scope
authorize carrier request auth =
    if auth.public || request.public
    then ok (record { carrier = carrier; env = none })
    else check_expected carrier auth.token request.token
