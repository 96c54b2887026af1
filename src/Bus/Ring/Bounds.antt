-- ===== src/Bus/Ring/Bounds.antt =====
-- How long a ring that is not `latest_only` gets, and which messages its limit spares.
use tenon.Prelude.{
  ℕ, ◌+◌, ◌-◌, ◌≤◌, ◌<◌, max, true, false, ◌≡◌, refl, ap, ◌∙◌, List, [], ◌∷◌, ◌++◌, length,
  length-append, drop, All, arith,
}
use tenon.Bus.Ring.{Ring, Published, new, push, push_all, pop_front}
use tenon.Bus.Ring.Loss.{Keeps, push_all-Keeps}

abbrev pub Durable : Published → Type 0
Durable m = m.envelope.durable ≡ true

abbrev pub Transient : Published → Type 0
Transient m = m.envelope.durable ≡ false

length-pop_front : (q : List Published) → length (pop_front q) ≡ length q - 1
length-pop_front [] = omega arith
length-pop_front (m ∷ q) = omega arith

push-length :
    (r : Ring) (m : Published)
    → r.latest_only ≡ false
    → 0 < r.cap
    → Transient m
    → length r.queue ≤ r.cap
    → length (push r m).queue ≤ r.cap
unfolding push
push-length r m plain roomy t fits = ground (
  arith,
  length-append r.queue (m ∷ []),
  length-append (pop_front r.queue) (m ∷ []),
  length-pop_front r.queue,
)

-- The settings of a ring are fixed.
push-settings :
    (r : Ring) (m : Published) → ((push r m).latest_only ≡ r.latest_only) × ((push r m).cap ≡ r.cap)
unfolding push
push-settings r m = ground arith

-- A ring that is not `latest_only` and is within its capacity stays within it, as long as no
-- durable message is pushed.
pub push_all-length :
    (r : Ring) (ms : List Published)
    → r.latest_only ≡ false
    → 0 < r.cap
    → All Transient ms
    → length r.queue ≤ r.cap
    → length (push_all r ms).queue ≤ r.cap
unfolding push_all
push_all-length r [] plain roomy t fits = fits
push_all-length r (m ∷ ms) plain roomy t fits =
    let (kind, cap) = push-settings r m in
    ground (
      arith,
      push-length r m plain roomy t.0 fits,
      push_all-length (push r m) ms (ground arith) (ground arith) t.1,
    )

-- Durable messages alone are never dropped, however many there are.
push_all-durable :
    (r : Ring) (ms : List Published)
    → r.latest_only ≡ false
    → All Durable ms
    → ((push_all r ms).dropped ≡ r.dropped)
      × ((push_all r ms).latest_only ≡ false)
      × ((push_all r ms).cap ≡ r.cap)
      × (length (push_all r ms).queue ≡ length r.queue + length ms)
unfolding push_all push
push_all-durable r [] plain d = (refl, plain, refl, omega arith)
push_all-durable r (m ∷ ms) plain d =
    ground
      (arith, push_all-durable (push r m) ms (ground arith) d.1, length-append r.queue (m ∷ []))

push_all-sheds :
    (r : Ring) (ms : List Published)
    → r.latest_only ≡ false
    → 0 < r.cap
    → r.cap ≤ length r.queue
    → All Transient ms
    → (push_all r ms).dropped ≡ r.dropped + length ms
unfolding push_all push
push_all-sheds r [] plain roomy full t = omega arith
push_all-sheds r (m ∷ ms) plain roomy full t = ground (
  arith,
  push_all-sheds (push r m) ms (ground arith) (ground arith),
  length-append (pop_front r.queue) (m ∷ []),
  length-pop_front r.queue,
)

new-Keeps : (cap : ℕ) → Keeps [] (new cap false)
unfolding new
new-Keeps cap = record { plain = refl; roomy = omega arith; counted = omega arith; window = refl }

-- A ring filled to its capacity with durable messages keeps them all; then each message that is
-- not durable pushes out the oldest one that is left, durable or not.
pub durable_evicted :
    (cap : ℕ) (ds ns : List Published)
    → All Durable ds
    → max cap 1 ≤ length ds
    → All Transient ns
    → ((push_all (new cap false) ds).queue ≡ ds)
      × ((push_all (push_all (new cap false) ds) ns).queue ≡ drop (length ns) (ds ++ ns))
unfolding new
durable_evicted cap ds ns d full t =
    let filled = push_all (new cap false) ds in
    let kept = push_all-Keeps [] (new cap false) ds (new-Keeps cap) in
    let (none_dropped, plain, same_cap, filled_length) =
      push_all-durable (new cap false) ds refl d in
    let shed = push_all-sheds filled ns plain kept.roomy (omega arith) t in
    let after = push_all-Keeps ds filled ns kept in
    let zero_dropped : filled.dropped ≡ 0 = none_dropped in
    let all_dropped : (push_all filled ns).dropped ≡ length ns = omega arith in
    (
      kept.window ∙ ap (λ n. drop n ds) zero_dropped,
      after.window ∙ ap (λ n. drop n (ds ++ ns)) all_dropped,
    )
