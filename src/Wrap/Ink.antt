-- ===== src/Wrap/Ink.antt =====
-- What rs/ui/src/wrap.rs keeps of a text: every character that is neither a space nor a line's end, in
-- its order.
use Prim.Native.Char.{Char, code}
use tenon.Prelude.{
  ℕ, zero, suc, max, String, Bool, true, false, ◌≡◌, refl, sym, ap, ◌∙◌, List, [], ◌∷◌, ◌++◌, ◌==◌,
  ℕ_eq, ◌||◌, ltb, if_split, if_both, arith,
}
use tenon.Text.{◌<>◌, count}
use tenon.Box.{take_chars, no_tabs}
use tenon.Wrap.{
  push_head, split_at, skip_chars, is_blank, chunks, flush, joined, cut_word, place, wrap_words,
  wrap_raw, wrap_raws, or_one, wrap_line, candidate_len,
}

-- A space or a line's end.
abbrev pub blank_code : ℕ → Bool
blank_code n = n == b' ' || n == 10

abbrev keep_unless : Bool → Char → String → String
keep_unless true c s = s
keep_unless false c s = String.◌∷◌ c s

-- The characters that are neither spaces nor line ends.
abbrev pub ink : String → String
ink String.[] = ""
ink (String.◌∷◌ c s) = keep_unless (blank_code (code c)) c (ink s)

abbrev pub ink_all : List String → String
ink_all [] = ""
ink_all (line ∷ lines) = ink line <> ink_all lines

join_assoc : (a b c : String) → (a <> b) <> c ≡ a <> (b <> c)
join_assoc String.[] b c = refl
join_assoc (String.◌∷◌ x a) b c = ap (String.◌∷◌ x) (join_assoc a b c)

join_nil : (a : String) → a <> "" ≡ a
join_nil String.[] = refl
join_nil (String.◌∷◌ x a) = ap (String.◌∷◌ x) (join_nil a)

kept-join :
    (blank : Bool) (c : Char) (a b : String)
    → keep_unless blank c (a <> b) ≡ keep_unless blank c a <> b
kept-join true c a b = refl
kept-join false c a b = refl

ink-join : (s t : String) → ink (s <> t) ≡ ink s <> ink t
ink-join String.[] t = refl
ink-join (String.◌∷◌ c s) t =
    ap (keep_unless (blank_code (code c)) c) (ink-join s t)
    ∙ kept-join (blank_code (code c)) c (ink s) (ink t)

ink_all-append : (xs ys : List String) → ink_all (xs ++ ys) ≡ ink_all xs <> ink_all ys
ink_all-append [] ys = refl
ink_all-append (x ∷ xs) ys =
    ap (λ (t : String). ink x <> t) (ink_all-append xs ys)
    ∙ sym (join_assoc (ink x) (ink_all xs) (ink_all ys))

ink_all-push_head :
    (c : Char) (ps : List String)
    → ink_all (push_head c ps) ≡ keep_unless (blank_code (code c)) c (ink_all ps)
ink_all-push_head c [] = join_nil (keep_unless (blank_code (code c)) c "")
ink_all-push_head c (p ∷ ps) = sym (kept-join (blank_code (code c)) c (ink p) (ink_all ps))

kept_blank : (blank : Bool) (c : Char) (s : String) → blank ≡ true → keep_unless blank c s ≡ s
kept_blank true c s h = refl
kept_blank false c s h = absurd (ground (arith, h))

ink_all-split_at :
    (mark : ℕ) (s : String) → blank_code mark ≡ true → ink_all (split_at mark s) ≡ ink s
ink_all-split_at mark String.[] blank = refl
ink_all-split_at mark (String.◌∷◌ c s) blank =
    if_split (λ (ps : List String). ink_all ps ≡ ink (String.◌∷◌ c s)) (code c == mark)
      ("" ∷ split_at mark s) (push_head c (split_at mark s))
      (λ hit.
        let same = (ℕ_eq.beq_iff (code c) mark).0 hit in
        ink_all-split_at mark s blank
        ∙ sym (kept_blank (blank_code (code c)) c (ink s) (ap blank_code same ∙ blank)))
      (λ miss.
        ink_all-push_head c (split_at mark s)
        ∙ ap (keep_unless (blank_code (code c)) c) (ink_all-split_at mark s blank))

ink-take_chars : (n : ℕ) (s : String) → ink (take_chars n s) <> ink (skip_chars n s) ≡ ink s
ink-take_chars zero s = refl
ink-take_chars (suc n) String.[] = refl
ink-take_chars (suc n) (String.◌∷◌ c s) =
    sym (kept-join (blank_code (code c)) c (ink (take_chars n s)) (ink (skip_chars n s)))
    ∙ ap (keep_unless (blank_code (code c)) c) (ink-take_chars n s)

-- What pieces and a rest hold.
abbrev inside : List String × String → String
inside (lines, rest) = ink_all lines <> ink rest

skip_taken : (n : ℕ) (s : String) → skip_chars (count (take_chars n s)) s ≡ skip_chars n s
skip_taken zero s = refl
skip_taken (suc n) String.[] = refl
skip_taken (suc n) (String.◌∷◌ c s) = skip_taken n s

inside-chunks : (fuel width : ℕ) (rest : String) → inside (chunks fuel width rest) ≡ ink rest
inside-chunks zero width rest = refl
inside-chunks (suc fuel) width rest =
    let next = skip_chars (count (take_chars width rest)) rest in
    let more = chunks fuel width next in
    if_both (λ (p : List String × String). inside p ≡ ink rest) (ltb width (count rest))
      (take_chars width rest ∷ more.0, more.1) ([], rest)
      (join_assoc (ink (take_chars width rest)) (ink_all more.0) (ink more.1)
        ∙ ap (λ (t : String). ink (take_chars width rest) <> t)
            (inside-chunks fuel width next ∙ ap ink (skip_taken width rest))
        ∙ ink-take_chars width rest)
      refl

ink_all-flush : (current : String) → ink_all (flush current) ≡ ink current
ink_all-flush String.[] = refl
ink_all-flush (String.◌∷◌ c s) = join_nil (ink (String.◌∷◌ c s))

ink-joined : (current word : String) → ink (joined current word) ≡ ink current <> ink word
ink-joined String.[] word = refl
ink-joined (String.◌∷◌ c s) word = ink-join (String.◌∷◌ c s) (" " <> word)

inside-cut_word :
    (current : String) (cut : List String × String)
    → inside (cut_word current cut) ≡ ink current <> inside cut
inside-cut_word current (heads, rest) =
    ap (λ (t : String). t <> ink rest)
      (ink_all-append (flush current) heads
        ∙ ap (λ (t : String). t <> ink_all heads) (ink_all-flush current))
    ∙ join_assoc (ink current) (ink_all heads) (ink rest)

inside-place :
    (width : ℕ) (current word : String)
    → inside (place width current word) ≡ ink current <> ink word
unfolding place
inside-place width current word =
    let Kept = λ (p : List String × String). inside p ≡ ink current <> ink word in
    if_both Kept (ltb width (count word)) (cut_word current (chunks (count word) width word)) _
      (inside-cut_word current (chunks (count word) width word)
        ∙ ap (λ (t : String). ink current <> t) (inside-chunks (count word) width word))
      (if_both Kept (ltb width (candidate_len current word)) (current ∷ [], word)
        ([], joined current word) (ap (λ (t : String). t <> ink word) (join_nil (ink current)))
        (ink-joined current word))

ink_all-wrap_words :
    (width : ℕ) (words : List String) (current : String)
    → ink_all (wrap_words width words current) ≡ ink current <> ink_all words
ink_all-wrap_words width [] current = refl
ink_all-wrap_words width (word ∷ words) current =
    let placed = place width current word in
    ink_all-append placed.0 (wrap_words width words placed.1)
    ∙ ap (λ (t : String). ink_all placed.0 <> t) (ink_all-wrap_words width words placed.1)
    ∙ sym (join_assoc (ink_all placed.0) (ink placed.1) (ink_all words))
    ∙ ap (λ (t : String). t <> ink_all words) (inside-place width current word)
    ∙ join_assoc (ink current) (ink word) (ink_all words)

ink_blank : (s : String) → is_blank s ≡ true → ink s ≡ ""
ink_blank String.[] h = refl
ink_blank (String.◌∷◌ c s) h = absurd (ground (arith, h))

ink_all-wrap_raws : (width : ℕ) (raws : List String) → ink_all (wrap_raws width raws) ≡ ink_all raws
ink_all-wrap_raws width [] = refl
ink_all-wrap_raws width (raw ∷ raws) =
    ink_all-append (wrap_raw width raw) (wrap_raws width raws)
    ∙ ap (λ (t : String). ink_all (wrap_raw width raw) <> t) (ink_all-wrap_raws width raws)
    ∙ ap (λ (t : String). t <> ink_all raws)
        (if_split (λ (lines : List String). ink_all lines ≡ ink raw) (is_blank raw) ("" ∷ [])
          (wrap_words width (split_at b' ' raw) "") (λ e. sym (ink_blank raw e))
          (λ e. ink_all-wrap_words width (split_at b' ' raw) "" ∙ ink_all-split_at b' ' raw refl))

ink_all-or_one : (lines : List String) → ink_all (or_one lines) ≡ ink_all lines
ink_all-or_one [] = refl
ink_all-or_one (line ∷ lines) = refl

-- Wrapping loses and moves no character but spaces and line ends: what is left of the lines without
-- these is what is left of the text, its tabs written as spaces, without them.
pub ink_all-wrap_line :
    (text : String) (width : ℕ) → ink_all (wrap_line text width) ≡ ink (no_tabs text)
unfolding wrap_line
ink_all-wrap_line text width =
    if_split (λ (lines : List String). ink_all lines ≡ ink (no_tabs text)) (is_blank (no_tabs text))
      ("" ∷ []) (or_one (wrap_raws (max width 1) (split_at 10 (no_tabs text))))
      (λ e. sym (ink_blank (no_tabs text) e))
      (λ e.
        ink_all-or_one (wrap_raws (max width 1) (split_at 10 (no_tabs text)))
        ∙ ink_all-wrap_raws (max width 1) (split_at 10 (no_tabs text))
        ∙ ink_all-split_at 10 (no_tabs text) refl)
