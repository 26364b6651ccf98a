-- ===== src/Graphics/Console/Kept.antt =====
-- The bytes that copies, fills and drawn characters leave alone.
use mio_os.Common.{
  ℕ, zero, suc, ◌+◌, ◌-◌, ◌*◌, ◌/◌, ◌^◌, ◌<◌, ◌≤◌, ◌≡◌, ◌≢◌, ◌⊎◌, inl, inr, refl, arith, ◌∙◌, u32,
  ltb, ◌==◌, ◌||◌, if◌then◌else◌, Bool-cases,
}
use mio_os.Runtime.Memory.{Memory, memset, copy_up, memcpy}
use mio_os.Runtime.Move.{memset-eq}
use mio_os.Graphics.Framebuffer.{Framebuffer, put_pixel}
use mio_os.Graphics.Framebuffer.Places.{IsFramebuffer, place}
use mio_os.Graphics.Framebuffer.Pixels.{put_pixel-kept}
use mio_os.Graphics.Text.{glyph, shade, draw_cols, draw_rows, draw_char}

-- The byte belongs to no pixel of the rectangle.
abbrev pub Outside : Framebuffer → (start_x start_y end_x end_y a : ℕ) → Type 0
Outside fb start_x start_y end_x end_y a =
    (x y : ℕ)
    → start_x ≤ x
    → x < end_x
    → start_y ≤ y
    → y < end_y
    → (a < place fb x y) ⊎ (place fb x y + fb.screen_bpp / 8 ≤ a)

copy_up-kept :
    (m : Memory) (d s count a : ℕ) → (a < d) ⊎ (d + count ≤ a) → copy_up m d s count a ≡ m a
unfolding copy_up
copy_up-kept m d s zero a out = refl
copy_up-kept m d s (suc count) a out =
    let h : (a < d + 1) ⊎ (d + 1 + count ≤ a) = ground arith in
    ground (arith, copy_up-kept (λ b. if b == d then m s else m b) (d + 1) (s + 1) count a h)

pub memcpy-kept :
    (m : Memory) (dest src count a : ℕ)
    → (a < dest) ⊎ (dest + count ≤ a)
    → (memcpy m dest src count).0 a ≡ m a
unfolding memcpy
memcpy-kept m dest src count a out = ground (arith, copy_up-kept m dest src count a out)

pub memset-kept :
    (m : Memory) (dest val count a : ℕ)
    → dest ≢ 0
    → (a < dest) ⊎ (dest + count ≤ a)
    → (memset m dest val count).0 a ≡ m a
memset-kept m dest val count a ne out =
    let e = (memset-eq m dest val count ne).1 a in ground (arith, e)

-- A byte outside of each of `n` pixels is outside of all of them.
run-Outside :
    (a p b n : ℕ)
    → ((i : ℕ) → i < n → (a < p + i * b) ⊎ (p + i * b + b ≤ a))
    → (a < p) ⊎ (p + n * b ≤ a)
run-Outside a p b zero each = ground arith
run-Outside a p b (suc n) each = elim (run-Outside a p b n (λ i small. each i (omega arith))) [
  | inl before ↦ inl before
  | inr behind ↦
      let last = each n (omega arith) in
      let e : suc n * b ≡ n * b + b = omega arith in ground (arith, e, last)
]

module _ (fb : Framebuffer) (wf : IsFramebuffer fb) (a : ℕ) where
  -- A row of pixels of the rectangle does not hold the byte either.
  pub row-Outside :
      (start_x start_y end_x end_y y : ℕ)
      → Outside fb start_x start_y end_x end_y a
      → start_x ≤ end_x
      → start_y ≤ y
      → y < end_y
      → (a < place fb start_x y)
        ⊎ (place fb start_x y + (end_x - start_x) * (fb.screen_bpp / 8) ≤ a)
  row-Outside start_x start_y end_x end_y y out le above below =
      run-Outside a (place fb start_x y) (fb.screen_bpp / 8) (end_x - start_x) (λ i small.
        let here = out (start_x + i) y (omega arith) (omega arith) above below in
        let e : (start_x + i) * (fb.screen_bpp / 8)
            ≡ start_x * (fb.screen_bpp / 8) + i * (fb.screen_bpp / 8) =
          omega arith in
        ground (arith, e, here))

  -- The rectangle of a character.
  draw_cols-kept :
      (x y bits color left col : ℕ) (m : Memory)
      → ((i : ℕ) → x ≤ i → i < x + 8 → (a < place fb i y) ⊎ (place fb i y + fb.screen_bpp / 8 ≤ a))
      → x + 8 ≤ 2 ^ 32
      → col + left ≤ 8
      → draw_cols fb m x y bits color left col a ≡ m a
  unfolding draw_cols
  draw_cols-kept x y bits color zero col m out fits in_char = refl
  draw_cols-kept x y bits color (suc left) col m out fits in_char =
      let k : u32 (x + col) ≡ x + col = omega arith in
      let m' = put_pixel fb m (x + col) y (shade bits col color) in
      rw k (
        draw_cols-kept x y bits color left (col + 1) m' out fits (omega arith)
        ∙ put_pixel-kept fb m (x + col) y (shade bits col color) a wf
            (λ on. out (x + col) (omega arith) (omega arith)))

  draw_rows-kept :
      (x y c color left row : ℕ) (m : Memory)
      → Outside fb x y (x + 8) (y + 8) a
      → x + 8 ≤ 2 ^ 32
      → y + 8 ≤ 2 ^ 32
      → row + left ≤ 8
      → draw_rows fb m x y c color left row a ≡ m a
  unfolding draw_rows
  draw_rows-kept x y c color zero row m out fits fits' in_char = refl
  draw_rows-kept x y c color (suc left) row m out fits fits' in_char =
      let k : u32 (y + row) ≡ y + row = omega arith in
      let m' = draw_cols fb m x (y + row) (glyph c row) color 8 0 in
      rw k (
        draw_rows-kept x y c color left (row + 1) m' out fits fits' (omega arith)
        ∙ draw_cols-kept x (y + row) (glyph c row) color 8 0 m
            (λ i h h'. out i (y + row) h h' (omega arith) (omega arith)) fits (omega arith))

  pub draw_char-kept :
      (x y c color : ℕ) (m : Memory)
      → Outside fb x y (x + 8) (y + 8) a
      → x + 8 ≤ 2 ^ 32
      → y + 8 ≤ 2 ^ 32
      → draw_char fb m x y c color a ≡ m a
  unfolding draw_char
  draw_char-kept x y c color m out fits fits' = elim (Bool-cases (ltb c 32 || ltb 126 c)) [
    | inl none_drawn ↦ rw none_drawn refl
    | inr printable ↦ rw printable (draw_rows-kept x y c color 8 0 m out fits fits' (omega arith))
  ]
