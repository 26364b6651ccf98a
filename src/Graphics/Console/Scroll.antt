-- ===== src/Graphics/Console/Scroll.antt =====
-- The bytes that a scroll leaves alone.
use native.Mathlib.Nat.{mul-le-mul_right}
use mio_os.Common.{ℕ, zero, suc, ◌+◌, ◌-◌, ◌*◌, ◌/◌, ◌<◌, ◌≤◌, ◌≡◌, ◌≢◌, ◌⊎◌, refl, arith, ◌∙◌, u32}
use mio_os.Runtime.Memory.{Memory, memset, memcpy}
use mio_os.Graphics.Framebuffer.{Framebuffer, pixel_address}
use mio_os.Graphics.Framebuffer.Places.{IsFramebuffer, place, pixel_address-place, sizes}
use mio_os.Graphics.Console.{TxtSection, sub32, line, row_bytes, move_lines, clear_lines, scroll}
use mio_os.Graphics.Console.Kept.{Outside, memcpy-kept, memset-kept, row-Outside}

-- A box of the screen with room for a character.
pub record IsBox (fb : Framebuffer) (s : TxtSection) : Type 0 where
  pub ordered_x : s.start_x < s.end_x
  pub ordered_y : s.start_y + 8 ≤ s.end_y
  pub inside_x : s.end_x ≤ fb.screen_width
  pub inside_y : s.end_y ≤ fb.screen_height

module _ (fb : Framebuffer) (wf : IsFramebuffer fb) (s : TxtSection) (box : IsBox fb s) (a : ℕ)
    (out : Outside fb s.start_x s.start_y s.end_x s.end_y a) where
  abbrev first_x : s.start_x < fb.screen_width
  first_x = let h = box.ordered_x in let h' = box.inside_x in omega (arith, h, h')

  line-place : (y : ℕ) → y < fb.screen_height → line fb s y ≡ place fb s.start_x y
  unfolding line pixel_address
  line-place y hy = pixel_address-place fb wf s.start_x y first_x hy

  row_bytes-eq : row_bytes fb s ≡ (s.end_x - s.start_x) * (fb.screen_bpp / 8)
  unfolding row_bytes
  row_bytes-eq =
      let hx = box.ordered_x in
      let hy = box.ordered_y in
      let ix = box.inside_x in
      let iy = box.inside_y in
      let sz = sizes fb wf s.start_x s.start_y first_x (omega (arith, hy, iy)) in
      let n : sub32 s.end_x s.start_x ≡ s.end_x - s.start_x = omega (arith, hx, ix, sz.1) in
      let le : (s.end_x - s.start_x) * (fb.screen_bpp / 8) ≤ fb.screen_width * (fb.screen_bpp / 8) =
        mul-le-mul_right (fb.screen_bpp / 8) (omega (arith, ix)) in
      let row = wf.row_fits in rw n (omega (arith, le, row, sz.0))

  -- A line of the section does not hold the byte.
  line-Outside :
      (y : ℕ) → s.start_y ≤ y → y < s.end_y → (a < line fb s y) ⊎ (line fb s y + row_bytes fb s ≤ a)
  line-Outside y above below =
      let hx = box.ordered_x in
      let iy = box.inside_y in
      let r =
        row-Outside fb wf a s.start_x s.start_y s.end_x s.end_y y out (omega (arith, hx)) above
          below in
      let l = line-place y (omega (arith, iy, below)) in
      let b = row_bytes-eq in ground (arith, r, l, b)

  line-real : (y : ℕ) → line fb s y ≢ 0
  unfolding line
  line-real y = let real = wf.real in λ e. real (omega (arith, e))

  move_lines-kept :
      (left y : ℕ) (m : Memory)
      → s.start_y ≤ y
      → y + left ≤ s.end_y
      → move_lines fb s m left y a ≡ m a
  unfolding move_lines line row_bytes
  move_lines-kept zero y m above below = refl
  move_lines-kept (suc left) y m above below =
      move_lines-kept left (y + 1)
        (memcpy m (line fb s y) (line fb s (u32 (y + 8))) (row_bytes fb s)).0 (omega arith)
        (omega arith)
      ∙ memcpy-kept m (line fb s y) (line fb s (u32 (y + 8))) (row_bytes fb s) a
          (line-Outside y above (omega arith))

  clear_lines-kept :
      (left y : ℕ) (m : Memory)
      → s.start_y ≤ y
      → y + left ≤ s.end_y
      → clear_lines fb s m left y a ≡ m a
  unfolding clear_lines line row_bytes
  clear_lines-kept zero y m above below = refl
  clear_lines-kept (suc left) y m above below =
      clear_lines-kept left (y + 1) (memset m (line fb s y) 0 (row_bytes fb s)).0 (omega arith)
        (omega arith)
      ∙ memset-kept m (line fb s y) 0 (row_bytes fb s) a (line-real y)
          (line-Outside y above (omega arith))

  pub scroll-kept : (m : Memory) → scroll fb s m a ≡ m a
  unfolding scroll
  scroll-kept m =
      let hy = box.ordered_y in
      let iy = box.inside_y in
      let sz = sizes fb wf s.start_x s.start_y first_x (omega (arith, hy, iy)) in
      let last : sub32 s.end_y 8 ≡ s.end_y - 8 = omega (arith, hy, iy, sz.2) in
      rw last (
        clear_lines-kept (s.end_y - (s.end_y - 8)) (s.end_y - 8)
          (move_lines fb s m (s.end_y - 8 - s.start_y) s.start_y) (omega (arith, hy))
          (omega (arith, hy))
        ∙ move_lines-kept (s.end_y - 8 - s.start_y) s.start_y m (omega arith) (omega (arith, hy)))
