-- ===== src/Graphics/Text.antt =====
-- `draw_char` of kernel/graphics/draw_util.cpp.
pub mod Drawn
use mio_os.Common.{
  ℕ, zero, suc, ◌+◌, ◌-◌, ◌*◌, ◌/◌, ◌%◌, ◌^◌, u32, sub64, add64, mul64, bit_and, ltb, leb, ◌==◌,
  ◌||◌, if◌then◌else◌, List, [], ◌∷◌,
}
use mio_os.Runtime.Memory.{Memory, memcpy, memset}
use mio_os.Graphics.Framebuffer.{Framebuffer, put_pixel}
use mio_os.Graphics.Font.{font8x8_basic}

abbrev pub get_or : {A : Type 0} → A → List A → ℕ → A
get_or none_left [] i = none_left
get_or none_left (a ∷ rest) zero = a
get_or none_left (a ∷ rest) (suc i) = get_or none_left rest i

-- `font8x8_basic[c - 32][row]`, for a character that the font has.
unfoldable pub glyph : (c row : ℕ) → ℕ
glyph c row = get_or 0 (get_or [] font8x8_basic (c - 32)) row

-- `bits & (1 << (font_width - 1 - col))` chooses the colour or black.
unfoldable pub shade : (bits col color : ℕ) → ℕ
shade bits col color = if bit_and bits (2 ^ (7 - col)) == 0 then 0 else color

-- The loop over the columns, `left` of them from `col` on, and the loop over the rows.
unfoldable pub draw_cols : Framebuffer → Memory → (x y bits color left col : ℕ) → Memory
draw_cols fb m x y bits color zero col = m
draw_cols fb m x y bits color (suc left) col =
    draw_cols fb (put_pixel fb m (u32 (x + col)) y (shade bits col color)) x y bits color left
      (col + 1)

unfoldable pub draw_rows : Framebuffer → Memory → (x y c color left row : ℕ) → Memory
draw_rows fb m x y c color zero row = m
draw_rows fb m x y c color (suc left) row =
    draw_rows fb (draw_cols fb m x (u32 (y + row)) (glyph c row) color 8 0) x y c color left
      (row + 1)

-- `c` is the byte of the character; a negative `char` is a byte above 126.
unfoldable pub draw_char : Framebuffer → Memory → (x y c color : ℕ) → Memory
unfolding draw_rows
draw_char fb m x y c color = if ltb c 32 || ltb 126 c then m else draw_rows fb m x y c color 8 0
