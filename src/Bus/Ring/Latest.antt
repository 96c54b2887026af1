-- ===== src/Bus/Ring/Latest.antt =====
-- A `latest_only` ring holds the newest message of each compaction key.
use tenon.Prelude.{
  ℕ, Bool, true, not, ◌||◌, ◌≡◌, refl, List, [], ◌∷◌, ◌++◌, subst, snoc_append, append-nil, ◌==◌,
  String_eq, retain, any, arith, if◌then◌else◌,
}
use text.Mathlib.TextEquality.{eq_iff}
use tenon.Bus.Ring.{Ring, Published, key_of, new, push, push_all}

abbrev superseded : Published → List Published → Bool
superseded m later = any (λ n. key_of n == key_of m) later

-- The messages of a history that no later message of the same key follows.
pub latest : List Published → List Published
latest [] = []
latest (m ∷ ms) = if superseded m ms then latest ms else m ∷ latest ms

superseded-snoc :
    (x m : Published) (xs : List Published)
    → superseded x (xs ++ m ∷ []) ≡ (superseded x xs || key_of m == key_of x)
superseded-snoc x m [] = ground arith
superseded-snoc x m (y ∷ xs) = ground (arith, superseded-snoc x m xs)

latest-snoc :
    (xs : List Published) (m : Published)
    → latest (xs ++ m ∷ []) ≡ retain (λ n. not (key_of n == key_of m)) (latest xs) ++ m ∷ []
unfolding latest
latest-snoc [] m = refl
latest-snoc (x ∷ xs) m = ground (
  arith,
  superseded-snoc x m xs,
  latest-snoc xs m,
  eq_iff (key_of x) (key_of m),
  eq_iff (key_of m) (key_of x),
)

push_all-latest_from :
    (history : List Published) (r : Ring) (ms : List Published)
    → r.latest_only ≡ true
    → r.queue ≡ latest history
    → (push_all r ms).queue ≡ latest (history ++ ms)
unfolding push_all push
push_all-latest_from history r [] on e = rw append-nil e
push_all-latest_from history r (m ∷ ms) on e =
    subst (λ h. (push_all (push r m) ms).queue ≡ latest h) (snoc_append history m ms)
      (push_all-latest_from (history ++ m ∷ []) (push r m) ms (ground arith)
        (ground (arith, latest-snoc history m)))

-- Whatever is pushed into a new `latest_only` ring, it holds exactly the messages that no later
-- message of the same compaction key follows, in the order of their arrival.
pub push_all-latest :
    (cap : ℕ) (ms : List Published) → (push_all (new cap true) ms).queue ≡ latest ms
unfolding new
push_all-latest cap ms = push_all-latest_from [] (new cap true) ms refl (unfold latest in refl)
