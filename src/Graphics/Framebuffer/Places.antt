-- ===== src/Graphics/Framebuffer/Places.antt =====
-- Where the bytes of the pixels stand.
use native.Mathlib.Nat.{mul-le-mul_left, mul-le-mul_right}
use mio_os.Common.{ℕ, ◌+◌, ◌*◌, ◌/◌, ◌^◌, ◌<◌, ◌≤◌, ◌≡◌, ◌≢◌, ◌⊎◌, inl, inr, arith, ap}
use mio_os.Graphics.Framebuffer.{Framebuffer, pixel_address}

-- A frame buffer whose rows do not overlap and whose size fits in 32 bits.
pub record IsFramebuffer (fb : Framebuffer) : Type 0 where
  pub real : fb.framebuffer ≢ 0
  pub row_fits : fb.screen_width * (fb.screen_bpp / 8) ≤ fb.screen_pitch
  pub size_fits : fb.screen_height * fb.screen_pitch < 2 ^ 32
  pub depth : (fb.screen_bpp ≡ 32) ⊎ (fb.screen_bpp ≡ 24)

-- The place of a pixel without wrapping.
abbrev pub place : Framebuffer → ℕ → ℕ → ℕ
place fb x y = fb.framebuffer + y * fb.screen_pitch + x * (fb.screen_bpp / 8)

-- Rows of `p` bytes: the end of a row is no farther than the start of a later one.
rows : (y y' p : ℕ) → y < y' → y * p + p ≤ y' * p
rows y y' p lt = let a : (y + 1) * p ≤ y' * p = mul-le-mul_right p (omega arith) in omega (arith, a)

order-cases :
    (x y x' y' : ℕ)
    → (x ≢ x') ⊎ (y ≢ y')
    → (y < y') ⊎ ((y' < y) ⊎ ((y ≡ y') × ((x < x') ⊎ (x' < x))))
order-cases x y x' y' ne = ground arith

module _ (fb : Framebuffer) (wf : IsFramebuffer fb) where
  in_row :
      (x : ℕ) → x < fb.screen_width → x * (fb.screen_bpp / 8) + fb.screen_bpp / 8 ≤ fb.screen_pitch
  in_row x hx =
      let a = rows x fb.screen_width (fb.screen_bpp / 8) hx in
      let b = wf.row_fits in omega (arith, a, b)

  pub pixel_address-place :
      (x y : ℕ) → x < fb.screen_width → y < fb.screen_height → pixel_address fb x y ≡ place fb x y
  unfolding pixel_address
  pixel_address-place x y hx hy =
      let a = in_row x hx in
      let b = rows y fb.screen_height fb.screen_pitch hy in
      let c = wf.size_fits in omega (arith, a, b, c)

  -- A row, the width and the height are numbers of 32 bits.
  pub sizes :
      (x y : ℕ)
      → x < fb.screen_width
      → y < fb.screen_height
      → (fb.screen_pitch < 2 ^ 32) × (fb.screen_width < 2 ^ 32) × (fb.screen_height < 2 ^ 32)
  sizes x y hx hy =
      let wide : fb.screen_width ≤ fb.screen_pitch = elim wf.depth [
        | inl e ↦
            let b : fb.screen_width * (fb.screen_bpp / 8) ≡ fb.screen_width * 4 =
              ap (λ (t : ℕ). fb.screen_width * t) (omega arith) in
            let f = wf.row_fits in omega (arith, b, f)
        | inr e ↦
            let b : fb.screen_width * (fb.screen_bpp / 8) ≡ fb.screen_width * 3 =
              ap (λ (t : ℕ). fb.screen_width * t) (omega arith) in
            let f = wf.row_fits in omega (arith, b, f)
      ] in
      let r = rows 0 fb.screen_height fb.screen_pitch (omega arith) in
      let c = wf.size_fits in
      let tall : fb.screen_height * 1 ≤ fb.screen_height * fb.screen_pitch =
        mul-le-mul_left fb.screen_height (omega (arith, wide)) in
      (omega (arith, r, c), omega (arith, r, c, wide), omega (arith, tall, c))

  -- Two pixels share no byte.
  pub apart :
      (x y x' y' : ℕ)
      → x < fb.screen_width
      → x' < fb.screen_width
      → (x ≢ x') ⊎ (y ≢ y')
      → (place fb x y + fb.screen_bpp / 8 ≤ place fb x' y')
        ⊎ (place fb x' y' + fb.screen_bpp / 8 ≤ place fb x y)
  apart x y x' y' hx hx' ne =
      let a = in_row x hx in
      let a' = in_row x' hx' in
      elim (order-cases x y x' y' ne) [
        | inl h ↦ let r = rows y y' fb.screen_pitch h in inl (omega (arith, r, a))
        | inr (inl h) ↦ let r = rows y' y fb.screen_pitch h in inr (omega (arith, r, a'))
        | inr (inr (same, inl h)) ↦
            let r = rows x x' (fb.screen_bpp / 8) h in
            let e = ap (λ (t : ℕ). t * fb.screen_pitch) same in inl (omega (arith, r, e))
        | inr (inr (same, inr h)) ↦
            let r = rows x' x (fb.screen_bpp / 8) h in
            let e = ap (λ (t : ℕ). t * fb.screen_pitch) same in inr (omega (arith, r, e))
      ]
