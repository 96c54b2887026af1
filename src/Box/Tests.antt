-- ===== src/Box/Tests.antt =====
-- A box of four lines.
use tenon.Prelude.{◌≡◌, max, [], ◌∷◌, length}
use tenon.Box.{draw_box}
use tenon.Box.Size.{Wide, draw_box-Wide}

box_example :
    (length (draw_box "T" ("one" ∷ "two" ∷ []) 12 4) ≡ 4)
    × Wide (max 12 1) (draw_box "T" ("one" ∷ "two" ∷ []) 12 4)
box_example = draw_box-Wide "T" ("one" ∷ "two" ∷ []) 12 4
