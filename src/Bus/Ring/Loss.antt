-- ===== src/Bus/Ring/Loss.antt =====
-- What a ring that is not `latest_only` loses: only its oldest messages, one for each that it counts.
use tenon.Prelude.{
  ℕ, zero, suc, ◌+◌, ◌-◌, ◌≤◌, ◌<◌, false, ◌≡◌, refl, sym, List, [], ◌∷◌, ◌++◌, append-nil, subst,
  snoc_append, length, length-append, drop, arith,
}
use native.Mathlib.Numerals.{add-one}
use tenon.Bus.Ring.{Ring, Published, push, push_all, pop_front}

drop-append : (n : ℕ) (xs ys : List Published) → n ≤ length xs → drop n (xs ++ ys) ≡ drop n xs ++ ys
drop-append zero xs ys h = refl
drop-append (suc n) [] ys h = absurd (omega arith)
drop-append (suc n) (x ∷ xs) ys h = drop-append n xs ys (omega arith)

drop-suc : (n : ℕ) (xs : List Published) → drop (suc n) xs ≡ pop_front (drop n xs)
drop-suc zero [] = refl
drop-suc zero (x ∷ xs) = refl
drop-suc (suc n) [] = refl
drop-suc (suc n) (x ∷ xs) = drop-suc n xs

-- The queue is what was pushed since the last drain, less the `dropped` oldest.
pub record Keeps (history : List Published) (r : Ring) : Type 0 where
  pub plain : r.latest_only ≡ false
  pub roomy : 0 < r.cap
  pub counted : r.dropped ≤ length history
  pub window : r.queue ≡ drop r.dropped history

length-drop : (n : ℕ) (xs : List Published) → length (drop n xs) ≡ length xs - n
length-drop zero xs = omega arith
length-drop (suc n) [] = omega arith
length-drop (suc n) (x ∷ xs) = omega (arith, length-drop n xs)

evicted :
    (history : List Published) (n : ℕ) (m : Published)
    → 0 < length (drop n history)
    → (pop_front (drop n history) ++ m ∷ [] ≡ drop (suc n) (history ++ m ∷ []))
      × (suc n ≤ length (history ++ m ∷ []))
evicted history n m some_left =
    let room : suc n ≤ length history = omega (arith, length-drop n history) in
    (
      rw (← drop-suc n history) (sym (drop-append (suc n) history (m ∷ []) room)),
      omega (arith, length-append history (m ∷ [])),
    )

push-Keeps :
    (history : List Published) (r : Ring) (m : Published)
    → Keeps history r
    → Keeps (history ++ m ∷ []) (push r m)
unfolding push
push-Keeps history r m k =
    let k' : 0 < length r.queue
        → (pop_front r.queue ++ m ∷ [] ≡ drop (r.dropped + 1) (history ++ m ∷ []))
          × (r.dropped + 1 ≤ length (history ++ m ∷ [])) =
      λ h. rw (k.window, add-one) (evicted history r.dropped m (rw k.window at h)) in
    ground
      (arith, k', length-append history (m ∷ []), drop-append r.dropped history (m ∷ []) k.counted)

-- For a ring that is not `latest_only` and whose queue is a history less its `dropped` oldest
-- messages: after any pushes its queue is the longer history less its `dropped` oldest messages, in
-- order, so nothing is reordered and nothing is lost but from the old end.
pub push_all-Keeps :
    (history : List Published) (r : Ring) (ms : List Published)
    → Keeps history r
    → Keeps (history ++ ms) (push_all r ms)
unfolding push_all
push_all-Keeps history r [] k = rw append-nil k
push_all-Keeps history r (m ∷ ms) k =
    subst (λ h. Keeps h (push_all (push r m) ms)) (snoc_append history m ms)
      (push_all-Keeps (history ++ m ∷ []) (push r m) ms (push-Keeps history r m k))
