-- ===== src/Graphics/Text/Drawn.antt =====
-- What the screen shows after a character is drawn.
use native.Mathlib.Nat.{one-le-pow}
use mio_os.Common.Bits.{bit, bit_and_pow, bit-lt, bit-zero}
use mio_os.Util.LinkedList.Holds.{get_elem?}
use mio_os.Common.{
  List, [], ◌∷◌, Option, none, some, refl, ℕ, zero, suc, ◌+◌, ◌-◌, ◌%◌, ◌^◌, ◌≤◌, ◌≡◌, arith, ◌∙◌,
  ap, subst, Bool, u32, ltb, leb, ◌==◌, ◌||◌, ◌&&◌, if◌then◌else◌, false,
}
use mio_os.Runtime.Memory.{Memory}
use mio_os.Graphics.Framebuffer.{Framebuffer, put_pixel, get_pixel}
use mio_os.Graphics.Framebuffer.Places.{IsFramebuffer}
use mio_os.Graphics.Framebuffer.Pixels.{on_screen, get_pixel-put_pixel}
use mio_os.Graphics.Font.{font8x8_basic}
use mio_os.Graphics.Text.{get_or, glyph, shade, draw_cols, draw_rows, draw_char}

-- The row of a character in the font, whose bits are its pixels from the left, the highest first.
unfoldable pub font_row : (c row : ℕ) → Option ℕ
font_row c row = elim (get_elem? font8x8_basic (c - 32)) [
  | none ↦ none
  | some rows ↦ get_elem? rows row
]

abbrev pub is_lit : Option ℕ → (col : ℕ) → Bool
is_lit none col = false
is_lit (some bits) col = bit bits (7 - col) == 1

-- The colour of a pixel, without the byte above it.
abbrev pub shown : Framebuffer → Memory → ℕ → ℕ → ℕ
shown fb m x y = get_pixel fb m x y % 2 ^ 24

module _ (fb : Framebuffer) (wf : IsFramebuffer fb) (x c color x' y' : ℕ) where
  -- One more pixel at the left.
  one_more :
      (left col y bits v' v : ℕ)
      → v' ≡ (
          if on_screen fb (x + col) y && ((x + col == x') && (y == y'))
          then shade bits col color % 2 ^ 24
          else v)
      → (if on_screen fb x' y'
            && ((y == y') && (leb (x + (col + 1)) x' && ltb x' (x + (col + 1) + left)))
          then shade bits (x' - x) color % 2 ^ 24
          else v')
        ≡ (if on_screen fb x' y' && ((y == y') && (leb (x + col) x' && ltb x' (x + col + suc left)))
            then shade bits (x' - x) color % 2 ^ 24
            else v)
  one_more left col y bits v' v step = ground (arith, step, at_col)
    where
      at_col : x + col ≡ x' → shade bits (x' - x) color ≡ shade bits col color
      at_col e = let d : x' - x ≡ col = omega arith in ap (λ (k : ℕ). shade bits k color) d

  draw_cols-shown :
      (left col y bits : ℕ) (m : Memory)
      → x + col + left ≤ 2 ^ 32
      → shown fb (draw_cols fb m x y bits color left col) x' y' ≡ (
          if on_screen fb x' y' && ((y == y') && (leb (x + col) x' && ltb x' (x + col + left)))
          then shade bits (x' - x) color % 2 ^ 24
          else shown fb m x' y')
  unfolding draw_cols
  draw_cols-shown zero col y bits m fits = ground arith
  draw_cols-shown (suc left) col y bits m fits =
      let k : u32 (x + col) ≡ x + col = omega arith in
      let m' = put_pixel fb m (x + col) y (shade bits col color) in
      let step = get_pixel-put_pixel fb m (x + col) y (shade bits col color) x' y' wf in
      let rest = draw_cols-shown left (col + 1) y bits m' (omega arith) in
      rw k (rest ∙ one_more left col y bits (shown fb m' x' y') (shown fb m x' y') step)

  -- Whether the pixel asked for is in these rows of the character.
  abbrev in_rows : (y row left : ℕ) → Bool
  in_rows y row left = (leb x x' && ltb x' (x + 8)) && (leb (y + row) y' && ltb y' (y + row + left))

  one_more_row :
      (left row y v' v : ℕ)
      → v' ≡ (
          if on_screen fb x' y' && ((y + row == y') && (leb (x + 0) x' && ltb x' (x + 0 + 8)))
          then shade (glyph c row) (x' - x) color % 2 ^ 24
          else v)
      → (if on_screen fb x' y' && in_rows y (row + 1) left
          then shade (glyph c (y' - y)) (x' - x) color % 2 ^ 24
          else v')
        ≡ (if on_screen fb x' y' && in_rows y row (suc left)
            then shade (glyph c (y' - y)) (x' - x) color % 2 ^ 24
            else v)
  one_more_row left row y v' v step = ground (arith, step, at_row)
    where
      at_row :
          y + row ≡ y'
          → shade (glyph c (y' - y)) (x' - x) color ≡ shade (glyph c row) (x' - x) color
      at_row e =
          let d : y' - y ≡ row = omega arith in ap (λ (k : ℕ). shade (glyph c k) (x' - x) color) d

  draw_rows-shown :
      (left row y : ℕ) (m : Memory)
      → x + 8 ≤ 2 ^ 32
      → y + row + left ≤ 2 ^ 32
      → shown fb (draw_rows fb m x y c color left row) x' y' ≡ (
          if on_screen fb x' y' && in_rows y row left
          then shade (glyph c (y' - y)) (x' - x) color % 2 ^ 24
          else shown fb m x' y')
  unfolding draw_rows
  draw_rows-shown zero row y m fits fits' = ground arith
  draw_rows-shown (suc left) row y m fits fits' =
      let k : u32 (y + row) ≡ y + row = omega arith in
      let m' = draw_cols fb m x (y + row) (glyph c row) color 8 0 in
      let step = draw_cols-shown 8 0 (y + row) (glyph c row) m (omega arith) in
      let rest = draw_rows-shown left (row + 1) y m' fits (omega arith) in
      rw k (rest ∙ one_more_row left row y (shown fb m' x' y') (shown fb m x' y') step)

get_or-get_elem? :
    {A : Type 0} (none_left : A) (xs : List A) (i : ℕ)
    → get_or none_left xs i ≡ (elim (get_elem? xs i) [ none ↦ none_left | some x ↦ x ])
get_or-get_elem? none_left [] i = refl
get_or-get_elem? none_left (x ∷ xs) zero = refl
get_or-get_elem? none_left (x ∷ xs) (suc i) = get_or-get_elem? none_left xs i

draw_char-shown :
    (fb : Framebuffer) (m : Memory) (x y c color x' y' : ℕ)
    → IsFramebuffer fb
    → 32 ≤ c
    → c ≤ 126
    → x + 8 ≤ 2 ^ 32
    → y + 8 ≤ 2 ^ 32
    → shown fb (draw_char fb m x y c color) x' y' ≡ (
        if on_screen fb x' y' && ((leb x x' && ltb x' (x + 8)) && (leb y y' && ltb y' (y + 8)))
        then shade (glyph c (y' - y)) (x' - x) color % 2 ^ 24
        else shown fb m x' y')
unfolding draw_char
draw_char-shown fb m x y c color x' y' wf lo hi fits fits' =
    let printable : (ltb c 32 || ltb 126 c) ≡ false = ground arith in
    let from_top : y + 0 ≡ y = omega arith in
    rw printable (
      subst
        (λ (t : ℕ). shown fb (draw_rows fb m x y c color 8 0) x' y' ≡ (
          if on_screen fb x' y' && ((leb x x' && ltb x' (x + 8)) && (leb t y' && ltb y' (t + 8)))
          then shade (glyph c (y' - y)) (x' - x) color % 2 ^ 24
          else shown fb m x' y'))
        from_top (draw_rows-shown fb wf x c color x' y' 8 0 y m fits (omega arith)))

-- The bit that the code tests, and the byte that it reads, are those of the font.
shade-lit :
    (bits col color : ℕ) → shade bits col color ≡ (if bit bits (7 - col) == 1 then color else 0)
unfolding shade
shade-lit bits col color =
    ground (arith, bit_and_pow bits (7 - col), bit-lt bits (7 - col), one-le-pow (7 - col) 2)

shade-none : (col color : ℕ) → shade 0 col color ≡ 0
shade-none col color = shade-lit 0 col color ∙ rw (bit-zero (7 - col)) refl

rows-lit :
    (font : List (List ℕ)) (i row col color : ℕ)
    → shade (get_or 0 (get_or [] font i) row) col color ≡ (
        if is_lit (elim (get_elem? font i) [ none ↦ none | some rows ↦ get_elem? rows row ]) col
        then color
        else 0)
rows-lit [] i row col color = shade-none col color
rows-lit (bytes ∷ font) zero row col color =
    rw (get_or-get_elem? 0 bytes row) (go (get_elem? bytes row))
  where
    go :
        (o : Option ℕ)
        → shade (elim o [ none ↦ 0 | some x ↦ x ]) col color ≡ (if is_lit o col then color else 0)
    go none = shade-none col color
    go (some b) = shade-lit b col color
rows-lit (bytes ∷ font) (suc i) row col color = rows-lit font i row col color

glyph-lit :
    (c row col color : ℕ)
    → shade (glyph c row) col color ≡ (if is_lit (font_row c row) col then color else 0)
unfolding glyph font_row
glyph-lit c row col color = rows-lit font8x8_basic (c - 32) row col color

-- For such a frame buffer, a character from 32 to 126 and coordinates whose sum with 8 is at most
-- 2 ^ 32, after `draw_char` each pixel of the screen in the square of 8 by 8 shows the colour if
-- the bit of the font for its row and column is set and black if not, where the rows of the font
-- for a character follow those of the one before and the highest of the eight bits of a row is
-- the leftmost column; and every other pixel shows what it did.
pub draw_char-Drawn :
    (fb : Framebuffer) (m : Memory) (x y c color x' y' : ℕ)
    → IsFramebuffer fb
    → 32 ≤ c
    → c ≤ 126
    → x + 8 ≤ 2 ^ 32
    → y + 8 ≤ 2 ^ 32
    → shown fb (draw_char fb m x y c color) x' y' ≡ (
        if on_screen fb x' y' && ((leb x x' && ltb x' (x + 8)) && (leb y y' && ltb y' (y + 8)))
        then (if is_lit (font_row c (y' - y)) (x' - x) then color else 0) % 2 ^ 24
        else shown fb m x' y')
draw_char-Drawn fb m x y c color x' y' wf lo hi fits fits' =
    draw_char-shown fb m x y c color x' y' wf lo hi fits fits'
    ∙ ap
        (λ (shade : ℕ).
          if on_screen fb x' y' && ((leb x x' && ltb x' (x + 8)) && (leb y y' && ltb y' (y + 8)))
          then shade % 2 ^ 24
          else shown fb m x' y')
        (glyph-lit c (y' - y) (x' - x) color)
