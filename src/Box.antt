-- ===== src/Box.antt =====
-- The boxes of the terminal ui (rs/ui/src/boxes.rs) and the lines of a fixed width that they are made
-- of (rs/ui/src/wrap.rs). A line's width is the number of its characters.
pub mod Size
pub mod Split
pub mod Tests
use tenon.Prelude.{
  ℕ, zero, suc, ◌+◌, ◌-◌, max, String, List, [], ◌∷◌, ◌++◌, length, take, ltb, if◌then◌else◌,
}
use tenon.Text.{◌<>◌, replace, count}

-- `" ".repeat(n)`, `"-".repeat(n)`, `"+".repeat(n)`
abbrev pub repeat : String → ℕ → String
repeat s zero = ""
repeat s (suc n) = s <> repeat s n

-- `chars().take(n)`
abbrev pub take_chars : ℕ → String → String
take_chars zero s = ""
take_chars (suc n) String.[] = ""
take_chars (suc n) (String.◌∷◌ c s) = String.◌∷◌ c (take_chars n s)

unfoldable pub no_tabs : String → String
no_tabs text = replace "\t" "    " text

abbrev pub pad : ℕ → String → String
pad width out = if ltb (count out) width then out <> repeat " " (width - count out) else out

unfoldable pub fixed_width : String → ℕ → String
fixed_width text width = pad width (take_chars width (no_tabs text))

unfoldable pub border_line : ℕ → String
border_line width = if ltb width 2 then repeat "+" width else "+" <> repeat "-" (width - 2) <> "+"

unfoldable pub content_line : String → ℕ → String
content_line text width =
    if ltb width 2
    then fixed_width text width
    else "|" <> fixed_width (" " <> text) (width - 2) <> "|"

-- The lines of `body`, as many as there are rows, and empty ones where it has no more.
abbrev pub body_lines : ℕ → ℕ → List String → List String
body_lines width zero body = []
body_lines width (suc rows) [] = content_line "" width ∷ body_lines width rows []
body_lines width (suc rows) (text ∷ body) = content_line text width ∷ body_lines width rows body

abbrev pub content : String → List String → ℕ → ℕ → List String
content title body width zero = []
content title body width (suc rows) =
    content_line ("[" <> title <> "]") width ∷ body_lines width rows body

abbrev pub blanks : ℕ → ℕ → List String
blanks width zero = []
blanks width (suc n) = repeat " " width ∷ blanks width n

-- `truncate(height)` and the filling up to it
abbrev pub fill : ℕ → ℕ → List String → List String
fill width height out = take height out ++ blanks width (height - length (take height out))

abbrev pub box_of : String → List String → ℕ → ℕ → List String
box_of title body width zero = []
box_of title body width (suc zero) = border_line width ∷ []
box_of title body width (suc (suc rows)) =
    fill width (suc (suc rows))
      (border_line width ∷ content title body width rows ++ border_line width ∷ [])

unfoldable pub draw_box : String → List String → ℕ → ℕ → List String
draw_box title body width height = box_of title body (max width 1) height
