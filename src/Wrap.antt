-- ===== src/Wrap.antt =====
-- The wrapping of texts in the terminal ui (rs/ui/src/wrap.rs). A line's width is the number of its
-- characters.
pub mod Width
pub mod Ink
pub mod Tests
use Prim.Native.Char.{Char, code}
use tenon.Prelude.{
  ℕ, zero, suc, ◌+◌, max, String, Bool, true, false, List, [], ◌∷◌, ◌++◌, ◌==◌, ℕ_eq, ltb, is_empty,
  if◌then◌else◌,
}
use tenon.Text.{◌<>◌, count}
use tenon.Box.{take_chars, no_tabs}

unfoldable pub truncate : String → ℕ → String
truncate text width = take_chars width (no_tabs text)

abbrev pub push_head : Char → List String → List String
push_head c [] = String.◌∷◌ c String.[] ∷ []
push_head c (p ∷ ps) = String.◌∷◌ c p ∷ ps

-- `split(c)` for the character of a code: never empty.
abbrev pub split_at : ℕ → String → List String
split_at mark String.[] = "" ∷ []
split_at mark (String.◌∷◌ c s) =
    let rest = split_at mark s in if code c == mark then "" ∷ rest else push_head c rest

-- `skip_chars`
abbrev pub skip_chars : ℕ → String → String
skip_chars zero s = s
skip_chars (suc n) String.[] = ""
skip_chars (suc n) (String.◌∷◌ c s) = skip_chars n s

abbrev pub is_blank : String → Bool
is_blank String.[] = true
is_blank (String.◌∷◌ c s) = false

-- The loop that cuts a long word: the pieces, and what is left.
abbrev pub chunks : ℕ → ℕ → String → List String × String
chunks zero width rest = ([], rest)
chunks (suc fuel) width rest =
    let (more, last) = chunks fuel width (skip_chars (count (take_chars width rest)) rest) in
    if ltb width (count rest) then (take_chars width rest ∷ more, last) else ([], rest)

abbrev pub flush : String → List String
flush current = if is_blank current then [] else current ∷ []

abbrev pub candidate_len : String → String → ℕ
candidate_len current word = if is_blank current then count word else count current + 1 + count word

abbrev pub joined : String → String → String
joined current word = if is_blank current then word else current <> " " <> word

-- What one word adds: the lines that are full, and the line that goes on.
abbrev pub cut_word : String → List String × String → List String × String
cut_word current (heads, rest) = (flush current ++ heads, rest)

unfoldable pub place : ℕ → String → String → List String × String
place width current word =
    if ltb width (count word)
    then cut_word current (chunks (count word) width word)
    else if ltb width (candidate_len current word)
    then (current ∷ [], word)
    else ([], joined current word)

abbrev pub wrap_words : ℕ → List String → String → List String
wrap_words width [] current = current ∷ []
wrap_words width (word ∷ words) current =
    let (lines, next) = place width current word in lines ++ wrap_words width words next

abbrev pub wrap_raw : ℕ → String → List String
wrap_raw width raw = if is_blank raw then "" ∷ [] else wrap_words width (split_at b' ' raw) ""

abbrev pub wrap_raws : ℕ → List String → List String
wrap_raws width [] = []
wrap_raws width (raw ∷ raws) = wrap_raw width raw ++ wrap_raws width raws

abbrev or_one : List String → List String
or_one [] = "" ∷ []
or_one (line ∷ lines) = line ∷ lines

unfoldable pub wrap_line : String → ℕ → List String
wrap_line text width =
    if is_blank (no_tabs text)
    then "" ∷ []
    else or_one (wrap_raws (max width 1) (split_at 10 (no_tabs text)))

abbrev pub wrap_lines : List String → ℕ → List String
wrap_lines [] width = []
wrap_lines (line ∷ lines) width = wrap_line line width ++ wrap_lines lines width
