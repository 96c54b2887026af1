-- ===== src/Box/Size.antt =====
-- How many lines a box of rs/ui/src/boxes.rs has, and how wide they are.
use tenon.Prelude.{
  ℕ, zero, suc, ◌+◌, ◌-◌, ◌≤◌, max, String, ◌≡◌, refl, List, [], ◌∷◌, ◌++◌, length, take, All,
  All-append, length-append, arith, if_split, ltb,
}
use tenon.Text.{◌<>◌, count}
use tenon.Box.{
  repeat, take_chars, no_tabs, fixed_width, border_line, content_line, body_lines, content, blanks,
  fill, box_of, draw_box,
}

pub count-join : (s t : String) → count (s <> t) ≡ count s + count t
count-join String.[] t = omega arith
count-join (String.◌∷◌ c s) t = omega (arith, count-join s t)

count-repeat : (s : String) (n : ℕ) → count s ≡ 1 → count (repeat s n) ≡ n
count-repeat s zero one = refl
count-repeat s (suc n) one = omega (arith, count-join s (repeat s n), count-repeat s n one, one)

pub count-take_chars : (n : ℕ) (s : String) → count (take_chars n s) ≤ n
count-take_chars zero s = omega arith
count-take_chars (suc n) String.[] = omega arith
count-take_chars (suc n) (String.◌∷◌ c s) = omega (arith, count-take_chars n s)

-- A text is brought to exactly the width asked for, whatever it is.
pub count-fixed_width : (text : String) (width : ℕ) → count (fixed_width text width) ≡ width
unfolding fixed_width
count-fixed_width text width =
    let out = take_chars width (no_tabs text) in
    let fits = count-take_chars width (no_tabs text) in
    let joined = count-join out (repeat " " (width - count out)) in
    let filled = count-repeat " " (width - count out) refl in ground (arith, fits, joined, filled)

count-border_line : (width : ℕ) → count (border_line width) ≡ width
unfolding border_line
count-border_line width =
    if_split (λ s. count s ≡ width) (ltb width 2) (repeat "+" width)
      ("+" <> repeat "-" (width - 2) <> "+") (λ narrow. count-repeat "+" width refl)
      (λ wide.
        let joined = count-join (repeat "-" (width - 2)) "+" in
        let filled = count-repeat "-" (width - 2) refl in ground (arith, joined, filled, wide))

count-content_line : (text : String) (width : ℕ) → count (content_line text width) ≡ width
unfolding content_line
count-content_line text width =
    if_split (λ s. count s ≡ width) (ltb width 2) (fixed_width text width)
      ("|" <> fixed_width (" " <> text) (width - 2) <> "|") (λ narrow. count-fixed_width text width)
      (λ wide.
        let joined = count-join (fixed_width (" " <> text) (width - 2)) "|" in
        let filled = count-fixed_width (" " <> text) (width - 2) in
        ground (arith, joined, filled, wide))

-- Every line has the width.
abbrev pub Wide : ℕ → List String → Type 0
Wide width = All (λ line. count line ≡ width)

body_lines-Wide :
    (width rows : ℕ) (body : List String)
    → (length (body_lines width rows body) ≡ rows) × Wide width (body_lines width rows body)
body_lines-Wide width zero body = (refl, tt)
body_lines-Wide width (suc rows) [] =
    let (n, each) = body_lines-Wide width rows [] in
    (omega (arith, n), (count-content_line "" width, each))
body_lines-Wide width (suc rows) (text ∷ body) =
    let (n, each) = body_lines-Wide width rows body in
    (omega (arith, n), (count-content_line text width, each))

content-Wide :
    (title : String) (body : List String) (width rows : ℕ)
    → (length (content title body width rows) ≡ rows) × Wide width (content title body width rows)
content-Wide title body width zero = (refl, tt)
content-Wide title body width (suc rows) =
    let (n, each) = body_lines-Wide width rows body in
    (omega (arith, n), (count-content_line _ width, each))

blanks-length : (width n : ℕ) → length (blanks width n) ≡ n
blanks-length width zero = refl
blanks-length width (suc n) = omega (arith, blanks-length width n)

blanks-Wide : (width n : ℕ) → Wide width (blanks width n)
blanks-Wide width zero = tt
blanks-Wide width (suc n) = (count-repeat " " width refl, blanks-Wide width n)

length-take_le : (n : ℕ) (xs : List String) → length (take n xs) ≤ n
length-take_le zero xs = omega arith
length-take_le (suc n) [] = omega arith
length-take_le (suc n) (x ∷ xs) = omega (arith, length-take_le n xs)

take-Wide : (width n : ℕ) (xs : List String) → Wide width xs → Wide width (take n xs)
take-Wide width zero xs h = tt
take-Wide width (suc n) [] h = tt
take-Wide width (suc n) (x ∷ xs) h = (h.0, take-Wide width n xs h.1)

fill-Wide :
    (width height : ℕ) (out : List String)
    → Wide width out
    → (length (fill width height out) ≡ height) × Wide width (fill width height out)
fill-Wide width height out h =
    let kept = take height out in
    let rest = blanks width (height - length kept) in
    (
      omega (
        arith,
        length-append kept rest,
        blanks-length width (height - length kept),
        length-take_le height out,
      ),
      All-append _ kept rest (take-Wide width height out h)
          (blanks-Wide width (height - length kept)),
    )

box_of-Wide :
    (title : String) (body : List String) (width height : ℕ)
    → (length (box_of title body width height) ≡ height)
      × Wide width (box_of title body width height)
box_of-Wide title body width zero = (refl, tt)
box_of-Wide title body width (suc zero) = (refl, (count-border_line width, tt))
box_of-Wide title body width (suc (suc rows)) =
    let edge = count-border_line width in
    let inner = content title body width rows in
    let drawn : List String = border_line width ∷ inner ++ border_line width ∷ [] in
    let each : Wide width drawn = (
      edge,
      All-append (λ line. count line ≡ width) inner (border_line width ∷ [])
          (content-Wide title body width rows).1 (edge, tt),
    ) in
    fill-Wide width (suc (suc rows)) drawn each

-- A box has exactly as many lines as its height says and every line has exactly the characters that
-- its width says, at least one, whatever the title and the body hold.
pub draw_box-Wide :
    (title : String) (body : List String) (width height : ℕ)
    → (length (draw_box title body width height) ≡ height)
      × Wide (max width 1) (draw_box title body width height)
unfolding draw_box
draw_box-Wide title body width height = box_of-Wide title body (max width 1) height
