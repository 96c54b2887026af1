-- ===== src/Wrap/Tests.antt =====
-- A text wrapped to a width of five (rs/ui/src/wrap.rs).
use tenon.Prelude.{◌≡◌, refl, max, String, [], ◌∷◌}
use tenon.Text.{replace, replace_from, begins}
use tenon.Box.{no_tabs}
use tenon.Wrap.{place, wrap_line, wrap_lines}
use tenon.Wrap.Width.{Within, wrap_lines-Within}
use tenon.Wrap.Ink.{ink, ink_all, ink_all-wrap_line}

abbrev sample : String
sample = "a bc defghijkl m"

wrapped : wrap_line sample 5 ≡ "a bc" ∷ "defgh" ∷ "ijkl" ∷ "m" ∷ []
unfolding wrap_line place no_tabs replace replace_from begins
wrapped = refl

wide_example : Within (max 5 1) (wrap_lines (sample ∷ []) 5)
wide_example = wrap_lines-Within (sample ∷ []) 5

ink_example : ink_all (wrap_line sample 5) ≡ ink (no_tabs sample)
ink_example = ink_all-wrap_line sample 5
