-- ===== src/Ulid/Tests.antt =====
-- Three ids of one process (rs/bus/src/envelope.rs), the last at a time before the others.
use tenon.Prelude.{true, ◌≡◌, refl, List, [], ◌∷◌, arith}
use tenon.Prelude.Int.{ℤ, pos}
use tenon.Text.{str_ltb}
use tenon.Ulid.{Minter, encode_base32, mint, id_of}
use tenon.Ulid.Minted.{Ascends, Distinct, minted-Ascends, minted-Distinct}

abbrev unset : Minter
unset = record { base = 0; counter = 0 }

abbrev two_times : List (ℤ × ℤ)
two_times =
    (pos 1_700_000_000_000, pos 1_700_000_000_000)
    ∷ (pos 1_700_000_000_001, pos 1_700_000_000_001)
    ∷ []

rising_example : Ascends (mint 7 two_times unset)
rising_example =
    minted-Ascends 7 two_times unset (omega arith, omega arith, (omega arith, omega arith, tt))
      (omega arith)

abbrev back_times : List (ℤ × ℤ)
back_times = (pos 1_700_000_000_000, pos 1_700_000_000_000) ∷ (pos 5, pos 5) ∷ []

fresh_example : Distinct (mint 7 back_times unset)
fresh_example = minted-Distinct 7 back_times unset (omega arith)

-- A clock that goes back breaks the order.
back : str_ltb (id_of 5 0 1) (id_of 1_700_000_000_000 0 0) ≡ true
unfolding encode_base32
back = refl
