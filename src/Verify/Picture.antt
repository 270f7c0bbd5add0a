-- ===== src/Verify/Picture.antt =====
-- gVerify.js: the drawing of `refresh`, as the list of what it asks of the canvas. Every random number
-- is an argument, as its numerator over 2^53; lengths in fifths and halves are fractions, and `rotate`
-- turns by degrees. A canvas size is a natural number: `canvas_width` and `canvas_height` of the
-- container's, and a text such as "100" counts as its number in every place where it is used.
use Prim.Native.Nat.{◌^◌}
use polarcloud.Prelude.{
  ℕ, zero, suc, ◌+◌, ◌-◌, ◌*◌, ◌/◌, ◌≡◌, refl, ap, sym, ◌∙◌, List, [], ◌∷◌, ◌++◌, append-nil,
  append_assoc, ℤ, pos, negsuc, Text, js, length, ltb, if◌then◌else◌,
}
use polarcloud.Strings.{to_string}
use polarcloud.Verify.{Options, random_num, text_at, alphabet, drawn, refresh}

pub record Fraction : Type 0 where
  pub numerator : ℤ
  pub denominator : ℕ

abbrev over : ℤ → ℕ → Fraction
over n d = record { numerator = n; denominator = d }

-- What is asked of the context of the canvas.
pub data Draw : Type 0 where
  text_baseline fill_style stroke_style shadow_color font : Text → Draw
  shadow_offset_x shadow_offset_y shadow_blur rotate : ℤ → Draw
  fill_rect : ℕ → ℕ → Draw
  translate : Fraction → Fraction → Draw
  fill_text : Text → Draw
  move_to line_to dot_at : ℕ → ℕ → Draw
  begin_path stroke fill : Draw

-- The random numbers of a colour, of a character, of a line and of a dot.
pub record Rgb : Type 0 where
  pub red : ℕ
  pub green : ℕ
  pub blue : ℕ

pub record Glyph : Type 0 where
  pub index : ℕ
  pub size : ℕ
  pub color : Rgb
  pub offset_x : ℕ
  pub offset_y : ℕ
  pub blur : ℕ
  pub angle : ℕ

pub record Line : Type 0 where
  pub color : Rgb
  pub from_x : ℕ
  pub from_y : ℕ
  pub to_x : ℕ
  pub to_y : ℕ

pub record Dot : Type 0 where
  pub color : Rgb
  pub x : ℕ
  pub y : ℕ

-- `con.offsetWidth > 0 ? con.offsetWidth : "100"`, and the height with "30".
unfoldable pub canvas_width : ℕ → ℕ
canvas_width offset = if ltb 0 offset then offset else 100

unfoldable pub canvas_height : ℕ → ℕ
canvas_height offset = if ltb 0 offset then offset else 30

-- `randomColor`
unfoldable pub random_color : Rgb → ℕ → ℕ → Text
random_color c min max =
    js "rgb("
    ++ to_string (random_num c.red min max)
    ++ js ","
    ++ to_string (random_num c.green min max)
    ++ js ","
    ++ to_string (random_num c.blue min max)
    ++ js ")"

-- `n - b`, and the other sign of a number.
minus : ℕ → ℕ → ℤ
minus n b = if ltb n b then negsuc (b - n - 1) else pos (n - b)

unfoldable pub opposite : ℤ → ℤ
opposite (pos zero) = pos 0
opposite (pos (suc n)) = negsuc n
opposite (negsuc n) = pos (suc n)

-- `randomNum(-b, b)`, and `randomNum(h/2, h)`.
unfoldable pub random_around : ℕ → ℕ → ℤ
unfolding minus
random_around random b = minus (random * (b + b) / 2 ^ 53) b

unfoldable pub random_half : ℕ → ℕ → ℕ
random_half random h = (random * h + h * 2 ^ 53) / 2 ^ 54

-- The body of the loop over the four characters, for its `i`.
pub draw_glyph : Options → ℕ → ℕ → ℕ → Glyph → List Draw
draw_glyph o width height i g =
    let turn = random_around g.angle 30 in
    font (to_string (random_half g.size height) ++ js "px SimHei")
    ∷ fill_style (random_color g.color 50 160)
    ∷ shadow_offset_x (random_around g.offset_x 3)
    ∷ shadow_offset_y (random_around g.offset_y 3)
    ∷ shadow_blur (random_around g.blur 3)
    ∷ shadow_color (js "rgba(0, 0, 0, 0.3)")
    ∷ translate (over (pos (width * i)) 5) (over (pos height) 2)
    ∷ rotate turn
    ∷ fill_text (text_at (alphabet o) (random_num g.index 0 (length (alphabet o))))
    ∷ rotate (opposite turn)
    ∷ translate (over (opposite (pos (width * i))) 5) (over (opposite (pos height)) 2)
    ∷ []

-- `count` rounds of it from `i` on.
pub draw_glyphs : Options → ℕ → ℕ → (ℕ → Glyph) → ℕ → ℕ → List Draw
draw_glyphs o width height glyph zero i = []
draw_glyphs o width height glyph (suc count) i =
    draw_glyph o width height i (glyph i) ++ draw_glyphs o width height glyph count (suc i)

pub draw_line : ℕ → ℕ → Line → List Draw
draw_line width height l =
    stroke_style (random_color l.color 40 180)
    ∷ begin_path
    ∷ move_to (random_num l.from_x 0 width) (random_num l.from_y 0 height)
    ∷ line_to (random_num l.to_x 0 width) (random_num l.to_y 0 height)
    ∷ stroke
    ∷ []

pub draw_lines : ℕ → ℕ → (ℕ → Line) → ℕ → ℕ → List Draw
draw_lines width height line zero i = []
draw_lines width height line (suc count) i =
    draw_line width height (line i) ++ draw_lines width height line count (suc i)

pub draw_dot : ℕ → ℕ → Dot → List Draw
draw_dot width height d =
    fill_style (random_color d.color 0 255)
    ∷ begin_path
    ∷ dot_at (random_num d.x 0 width) (random_num d.y 0 height)
    ∷ fill
    ∷ []

pub draw_dots : ℕ → ℕ → (ℕ → Dot) → ℕ → ℕ → List Draw
draw_dots width height dot zero i = []
draw_dots width height dot (suc count) i =
    draw_dot width height (dot i) ++ draw_dots width height dot count (suc i)

-- All of it: the background, four characters, four lines, and a dot for each `i` below a quarter of
-- the width.
pub picture : Options → ℕ → ℕ → Rgb → (ℕ → Glyph) → (ℕ → Line) → (ℕ → Dot) → List Draw
picture o width height ground_color glyph line dot =
    text_baseline (js "middle")
    ∷ fill_style (random_color ground_color 180 240)
    ∷ fill_rect width height
    ∷ (draw_glyphs o width height glyph 4 1
        ++ draw_lines width height line 4 0
        ++ draw_dots width height dot ((width + 3) / 4) 0)

-- The text that a drawing writes.
pub written : List Draw → Text
written [] = []
written (fill_text t ∷ ds) = t ++ written ds
written (d ∷ ds) = written ds

-- The random numbers of the characters, from `i` on.
pub indices : (ℕ → Glyph) → ℕ → ℕ → List ℕ
indices glyph zero i = []
indices glyph (suc count) i = (glyph i).index ∷ indices glyph count (suc i)

written-glyphs :
    (o : Options) (width height : ℕ) (glyph : ℕ → Glyph) (count i : ℕ) (ds : List Draw)
    → written (draw_glyphs o width height glyph count i ++ ds)
      ≡ drawn o (indices glyph count i) ++ written ds
unfolding written draw_glyphs draw_glyph indices drawn
written-glyphs o width height glyph zero i ds = refl
written-glyphs o width height glyph (suc count) i ds =
    ap
      (λ (t : Text). text_at (alphabet o) (random_num (glyph i).index 0 (length (alphabet o))) ++ t)
      (written-glyphs o width height glyph count (suc i) ds)
    ∙ sym (
        append_assoc (text_at (alphabet o) (random_num (glyph i).index 0 (length (alphabet o)))) _
          _)

written-lines :
    (width height : ℕ) (line : ℕ → Line) (count i : ℕ) (ds : List Draw)
    → written (draw_lines width height line count i ++ ds) ≡ written ds
unfolding written draw_lines draw_line
written-lines width height line zero i ds = refl
written-lines width height line (suc count) i ds = written-lines width height line count (suc i) ds

written-dots :
    (width height : ℕ) (dot : ℕ → Dot) (count i : ℕ)
    → written (draw_dots width height dot count i) ≡ []
unfolding written draw_dots draw_dot
written-dots width height dot zero i = refl
written-dots width height dot (suc count) i = written-dots width height dot count (suc i)

-- On fresh options the picture writes exactly the code that is asked for afterwards, whatever the size
-- of the canvas, the colours, the lines and the dots.
pub written-picture :
    (o : Options) (width height : ℕ) (c : Rgb) (glyph : ℕ → Glyph) (line : ℕ → Line) (dot : ℕ → Dot)
    → o.code ≡ []
    → written (picture o width height c glyph line dot) ≡ (refresh (indices glyph 4 1) o).code
unfolding written picture refresh draw_glyphs draw_glyph
written-picture o width height c glyph line dot e =
    let dots : List Draw = draw_dots width height dot ((width + 3) / 4) 0 in
    let lines : List Draw = draw_lines width height line 4 0 ++ dots in
    written-glyphs o width height glyph 4 1 lines
    ∙ ap (λ (t : Text). drawn o (indices glyph 4 1) ++ t)
        (written-lines width height line 4 0 dots
          ∙ written-dots width height dot ((width + 3) / 4) 0)
    ∙ append-nil (drawn o (indices glyph 4 1))
    ∙ rw e
