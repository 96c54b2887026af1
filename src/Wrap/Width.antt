-- ===== src/Wrap/Width.antt =====
-- No line that rs/ui/src/wrap.rs makes is wider than it may be.
use tenon.Prelude.{
  ℕ, zero, suc, ◌+◌, ◌≤◌, max, String, true, ◌≡◌, refl, List, [], ◌∷◌, All, All-append, ltb,
  if_split, if_both, arith,
}
use tenon.Text.{◌<>◌, count}
use tenon.Box.{take_chars, no_tabs}
use tenon.Box.Size.{count-join, count-take_chars}
use tenon.Wrap.{
  split_at, skip_chars, is_blank, chunks, flush, candidate_len, joined, cut_word, place, wrap_words,
  wrap_raw, wrap_raws, or_one, wrap_line, wrap_lines,
}

-- Every line is at most this wide.
abbrev pub Within : ℕ → List String → Type 0
Within width lines = All (λ (line : String). count line ≤ width) lines

abbrev Placed : ℕ → List String × String → Type 0
Placed width placed = Within width placed.0 × (count placed.1 ≤ width)

count-skip_chars : (n : ℕ) (s : String) → count (skip_chars n s) + n ≤ max (count s) n
count-skip_chars zero s = ground arith
count-skip_chars (suc n) String.[] = ground arith
count-skip_chars (suc n) (String.◌∷◌ c s) = ground (arith, count-skip_chars n s)

count_taken : (n : ℕ) (s : String) → ltb n (count s) ≡ true → count (take_chars n s) ≡ n
count_taken zero s h = refl
count_taken (suc n) String.[] h = absurd (ground (arith, h))
count_taken (suc n) (String.◌∷◌ c s) h = ground (arith, count_taken n s, h)

-- With as much fuel as the word has characters, what is left fits.
chunks-Placed :
    (fuel width : ℕ) (rest : String)
    → 1 ≤ width
    → count rest ≤ fuel
    → Placed width (chunks fuel width rest)
chunks-Placed zero width rest some_width enough = (tt, ground (arith, enough, some_width))
chunks-Placed (suc fuel) width rest some_width enough =
    if_split (Placed width) (ltb width (count rest)) _ ([], rest)
      (λ wide.
        let taken = count_taken width rest wide in
        let skipped = count-skip_chars (count (take_chars width rest)) rest in
        let next = skip_chars (count (take_chars width rest)) rest in
        let shorter : count next ≤ fuel =
          ground (arith, taken, skipped, some_width, enough, wide) in
        let more = chunks-Placed fuel width next some_width shorter in
        ((count-take_chars width rest, more.0), more.1))
      (λ fits. (tt, ground (arith, fits)))

flush-Within : (width : ℕ) (current : String) → count current ≤ width → Within width (flush current)
flush-Within width String.[] fits = tt
flush-Within width (String.◌∷◌ c s) fits = (fits, tt)

count-joined : (current word : String) → count (joined current word) ≡ candidate_len current word
count-joined String.[] word = refl
count-joined (String.◌∷◌ c s) word = ground (arith, count-join s (" " <> word))

place-Placed :
    (width : ℕ) (current word : String)
    → 1 ≤ width
    → count current ≤ width
    → Placed width (place width current word)
unfolding place
place-Placed width current word some_width fits =
    if_split (Placed width) (ltb width (count word))
      (cut_word current (chunks (count word) width word)) _
      (λ long.
        let cut = chunks-Placed (count word) width word some_width (omega arith) in
        (
          All-append (λ (line : String). count line ≤ width) (flush current)
              (chunks (count word) width word).0 (flush-Within width current fits) cut.0,
          cut.1,
        ))
      (λ short.
        if_split (Placed width) (ltb width (candidate_len current word)) (current ∷ [], word)
          ([], joined current word) (λ full. ((fits, tt), ground (arith, short)))
          (λ room. (tt, ground (arith, room, count-joined current word))))

wrap_words-Within :
    (width : ℕ) (words : List String) (current : String)
    → 1 ≤ width
    → count current ≤ width
    → Within width (wrap_words width words current)
wrap_words-Within width [] current some_width fits = (fits, tt)
wrap_words-Within width (word ∷ words) current some_width fits =
    let placed = place-Placed width current word some_width fits in
    All-append (λ (line : String). count line ≤ width) (place width current word).0
      (wrap_words width words (place width current word).1) placed.0
      (wrap_words-Within width words (place width current word).1 some_width placed.1)

wrap_raws-Within :
    (width : ℕ) (raws : List String) → 1 ≤ width → Within width (wrap_raws width raws)
wrap_raws-Within width [] some_width = tt
wrap_raws-Within width (raw ∷ raws) some_width =
    All-append (λ (line : String). count line ≤ width) (wrap_raw width raw) (wrap_raws width raws)
      (if_both (Within width) (is_blank raw) ("" ∷ []) (wrap_words width (split_at b' ' raw) "")
        (ground arith, tt)
        (wrap_words-Within width (split_at b' ' raw) "" some_width (ground arith)))
      (wrap_raws-Within width raws some_width)

or_one-Within : (width : ℕ) (lines : List String) → Within width lines → Within width (or_one lines)
or_one-Within width [] h = (ground arith, tt)
or_one-Within width (line ∷ lines) h = h

wrap_line-Within : (text : String) (width : ℕ) → Within (max width 1) (wrap_line text width)
unfolding wrap_line
wrap_line-Within text width =
    if_both (Within (max width 1)) (is_blank (no_tabs text)) ("" ∷ []) _ (ground arith, tt)
      (or_one-Within (max width 1) (wrap_raws (max width 1) (split_at 10 (no_tabs text)))
        (wrap_raws-Within (max width 1) (split_at 10 (no_tabs text)) (ground arith)))

-- Every line of a wrapped text has at most as many characters as the width, or one for the width 0.
pub wrap_lines-Within :
    (lines : List String) (width : ℕ) → Within (max width 1) (wrap_lines lines width)
wrap_lines-Within [] width = tt
wrap_lines-Within (line ∷ lines) width =
    All-append (λ (l : String). count l ≤ max width 1) (wrap_line line width)
      (wrap_lines lines width) (wrap_line-Within line width) (wrap_lines-Within lines width)
