-- ===== src/Canvas/Tests.antt =====
-- Drawings on a small canvas of cart/src/canvas.c, and the laws at them.
use vita_linux_next.Prelude.{◌≡◌, refl, true, arith, if◌then◌else◌}
use vita_linux_next.Prelude.Int.{pos, negsuc}
use vita_linux_next.Canvas.Defs.{Canvas, valid, rect, circle}
use vita_linux_next.Canvas.Shapes.{in_rect, rect_lem}
use vita_linux_next.Canvas.Circle.{in_disc, circle_lem}

-- Four columns and three rows, with one word of padding at the end of a row.
abbrev small : Canvas
small = record { mapped = true; pixels = λ _. 7; width = 4; height = 3; stride = 5 }

small-valid : valid small ≡ true
unfolding valid
small-valid = refl

-- A rectangle that hangs over the left and upper edges.
rect_lem_example :
    (rect small (negsuc 0) (negsuc 1) (pos 3) (pos 4) 9).pixels 6
    ≡ (if in_rect small (negsuc 0) (negsuc 1) (pos 3) (pos 4) 6 then 9 else 7)
rect_lem_example =
    rect_lem small (negsuc 0) (negsuc 1) (pos 3) (pos 4) 9 6 (omega arith) small-valid

circle_lem_example :
    (circle small (pos 1) (pos 1) (pos 1) 9).pixels 7
    ≡ (if in_disc small (pos 1) (pos 1) (pos 1) 7 then 9 else 7)
circle_lem_example = circle_lem small (pos 1) (pos 1) 1 9 7 (omega arith) small-valid
