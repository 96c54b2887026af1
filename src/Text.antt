-- ===== src/Text.antt =====
-- The parts of Rust's `str` that the code walks a text with: splitting at a slash, substring
-- search and replacement.
pub mod Replace
use Prim.Native.Char.{Char, code}
use tenon.Prelude.{
  ℕ, zero, suc, String, Bool, true, false, ◌||◌, List, [], ◌∷◌, ◌==◌, ℕ_eq, if◌then◌else◌, ltb,
}

abbrev push_head : Char → List String → List String
push_head c [] = String.◌∷◌ c String.[] ∷ []
push_head c (p ∷ ps) = String.◌∷◌ c p ∷ ps

-- `text.split('/')`: never empty, and one piece more than there are slashes.
unfoldable pub split_slash : String → List String
split_slash String.[] = "" ∷ []
split_slash (String.◌∷◌ c s) =
    let rest = split_slash s in if code c == b'/' then "" ∷ rest else push_head c rest

-- `format!("{s}{t}")`
infixr 65 ◌<>◌
abbrev pub ◌<>◌ : String → String → String
String.[] <> t = t
String.◌∷◌ c s <> t = String.◌∷◌ c (s <> t)

-- `text.starts_with(needle)`
unfoldable pub begins : String → String → Bool
begins String.[] s = true
begins (String.◌∷◌ c n) String.[] = false
begins (String.◌∷◌ c n) (String.◌∷◌ d s) =
    let rest = begins n s in if code c == code d then rest else false

-- `text.contains(needle)`
unfoldable pub contains_str : String → String → Bool
contains_str n String.[] = begins n String.[]
contains_str n (String.◌∷◌ d s) = begins n (String.◌∷◌ d s) || contains_str n s

abbrev pub count : String → ℕ
count String.[] = 0
count (String.◌∷◌ c s) = suc (count s)

-- The characters of a match after its first.
abbrev pub rest_count : String → ℕ
rest_count String.[] = 0
rest_count (String.◌∷◌ c n) = count n

-- The walk of `text.replace(needle, marker)`, left to right, for a needle that is not empty: at a
-- match it writes the marker and skips the rest of the match.
unfoldable pub replace_from : ℕ → String → String → String → String
replace_from skip n m String.[] = ""
replace_from (suc skip) n m (String.◌∷◌ d s) = replace_from skip n m s
replace_from zero n m (String.◌∷◌ d s) =
    let hit = m <> replace_from (rest_count n) n m s in
    let miss = String.◌∷◌ d (replace_from zero n m s) in
    if begins n (String.◌∷◌ d s) then hit else miss

unfoldable pub replace : String → String → String → String
unfolding replace_from begins
replace n m s = replace_from zero n m s

-- The two texts have a character in common.
abbrev pub has_char : Char → String → Bool
has_char c String.[] = false
has_char c (String.◌∷◌ d s) = code c == code d || has_char c s

abbrev pub shares : String → String → Bool
shares String.[] m = false
shares (String.◌∷◌ c n) m = has_char c m || shares n m

-- `str::cmp`, as the test for less
abbrev pub str_ltb : String → String → Bool
str_ltb s String.[] = false
str_ltb String.[] (String.◌∷◌ d t) = true
str_ltb (String.◌∷◌ c s) (String.◌∷◌ d t) =
    let rest = str_ltb s t in
    if ltb (code c) (code d) then true else if code c == code d then rest else false
