-- ===== src/Ulid.antt =====
-- The ids of envelopes (`ulid` and `encode_base32` of rs/bus/src/envelope.rs). The clock and the
-- process's id are arguments; the two statics are the state, and one call is one step.
pub mod Value
pub mod Digits
pub mod Order
pub mod Minted
pub mod Tests
use Prim.Native.Char.{Char, code, nul}
use tenon.Prelude.{
  ℕ, zero, suc, ◌+◌, ◌-◌, ◌*◌, ◌/◌, ◌%◌, ◌^◌, String, Bool, true, false, List, [], ◌∷◌, ◌++◌, ◌==◌,
  ℕ_eq, if◌then◌else◌,
}
use tenon.Prelude.Int.{ℤ, pos, negsuc, pos_part}

abbrev pub crockford : String
crockford = "0123456789ABCDEFGHJKMNPQRSTVWXYZ"

abbrev pub nth_char : String → ℕ → Char
nth_char String.[] i = nul
nth_char (String.◌∷◌ c s) zero = c
nth_char (String.◌∷◌ c s) (suc i) = nth_char s i

-- The low bytes of `to_be_bytes`.
abbrev pub be_bytes : ℕ → ℕ → List ℕ
be_bytes zero v = []
be_bytes (suc k) v = be_bytes k (v / 256) ++ v % 256 ∷ []

-- The 128 bits of the bytes.
abbrev pub fold_bytes : ℕ → List ℕ → ℕ
fold_bytes value [] = value
fold_bytes value (byte ∷ bytes) = fold_bytes (value * 256 % 2 ^ 128 + byte) bytes

-- The slots of the text, from the last to the first.
abbrev pub encode_slots : ℕ → ℕ → String → String
encode_slots zero value out = out
encode_slots (suc slots) value out =
    encode_slots slots (value / 32) (String.◌∷◌ (nth_char crockford (value % 32)) out)

unfoldable pub encode_base32 : List ℕ → String
encode_base32 bytes = encode_slots 26 (fold_bytes 0 bytes) ""

-- `BASE` and `COUNTER`
pub record Minter : Type 0 where
  pub base : ℕ
  pub counter : ℕ

abbrev as_u64 : ℤ → ℕ
as_u64 (pos n) = n % 2 ^ 64
as_u64 (negsuc n) = 2 ^ 64 - 1 - n % 2 ^ 64

-- `| 1`
abbrev or_one : ℕ → ℕ
or_one n = n + (1 - n % 2)

unfoldable pub base_of : ℕ → ℤ → ℕ → ℕ
base_of pid now base =
    if base == 0
    then or_one ((pid * 0x9E37_79B9_7F4A_7C15 % 2 ^ 64 + as_u64 now) % 2 ^ 64)
    else base

abbrev pub timestamp : ℤ → ℕ
timestamp now = pos_part now % 2 ^ 48

abbrev pub id_bytes : ℕ → ℕ → ℕ → List ℕ
id_bytes ts base counter = be_bytes 6 ts ++ be_bytes 2 (base / 8 % 2 ^ 16) ++ be_bytes 8 counter

abbrev pub id_of : ℕ → ℕ → ℕ → String
id_of ts base counter = encode_base32 (id_bytes ts base counter)

-- `now` is what the clock says first, `again` what it says when the base is made.
unfoldable pub ulid : ℕ → ℤ → ℤ → Minter → String × Minter
ulid pid now again m =
    let base = base_of pid again m.base in
    (
      id_of (timestamp now) base m.counter,
      record { base = base; counter = (m.counter + 1) % 2 ^ 64 },
    )

-- The ids that one process makes, at the times that its clock says.
abbrev pub mint : ℕ → List (ℤ × ℤ) → Minter → List String
mint pid [] m = []
mint pid ((now, again) ∷ times) m = let (id, m') = ulid pid now again m in id ∷ mint pid times m'
