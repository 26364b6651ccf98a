-- ===== src/Graphics/Line/Drawn.antt =====
-- The line ends at its end, and stays between its ends.
use mio_os.Common.{
  ℕ, ◌%◌, ◌^◌, ◌≡◌, ◌≢◌, ◌⊎◌, inl, inr, refl, arith, ◌∙◌, ap, ◌==◌, ◌&&◌, Bool, Bool-cases,
  if◌then◌else◌, Option, some,
}
use mio_os.Runtime.Memory.{Memory}
use mio_os.Graphics.Framebuffer.{Framebuffer, put_pixel}
use mio_os.Graphics.Framebuffer.Places.{IsFramebuffer}
use mio_os.Graphics.Framebuffer.Pixels.{on_screen, get_pixel-put_pixel}
use mio_os.Graphics.Text.Drawn.{shown}
use mio_os.Graphics.Line.Step.{Between}

-- The loop ends, the last pixel is set, and each pixel shows what it did or is one between the ends
-- with the colour.
abbrev pub Drawn : Framebuffer → Memory → (x0 y0 x1 y1 color : ℕ) → Option Memory → Type 0
Drawn fb m x0 y0 x1 y1 color r =
    (m' : Memory) × (r ≡ some m')
    × (shown fb m' x1 y1 ≡ (if on_screen fb x1 y1 then color % 2 ^ 24 else shown fb m x1 y1))
    × ((x' y' : ℕ)
        → (shown fb m' x' y' ≡ shown fb m x' y')
          ⊎ ((shown fb m' x' y' ≡ color % 2 ^ 24) × Between x0 x1 x' × Between y0 y1 y'))

module _ (fb : Framebuffer) (wf : IsFramebuffer fb) (x0 y0 x1 y1 color : ℕ) where
  -- One pixel: what it shows, at the place itself and elsewhere.
  one_pixel :
      (m : Memory) (x y : ℕ)
      → Between x0 x1 x
      → Between y0 y1 y
      → (x' y' : ℕ)
      → (shown fb (put_pixel fb m x y color) x' y' ≡ shown fb m x' y')
        ⊎ ((shown fb (put_pixel fb m x y color) x' y' ≡ color % 2 ^ 24)
            × Between x0 x1 x'
            × Between y0 y1 y')
  one_pixel m x y bx by x' y' =
      let e = get_pixel-put_pixel fb m x y color x' y' wf in
      elim (Bool-cases (on_screen fb x y && ((x == x') && (y == y')))) [
        | inl set ↦ inr (
          e ∙ ap (λ (b : Bool). if b then color % 2 ^ 24 else shown fb m x' y') set,
          ground arith,
          ground arith,
        )
        | inr kept ↦
            inl (e ∙ ap (λ (b : Bool). if b then color % 2 ^ 24 else shown fb m x' y') kept)
      ]

  pub last_pixel :
      (m : Memory)
      → Between x0 x1 x1
      → Between y0 y1 y1
      → Drawn fb m x0 y0 x1 y1 color (some (put_pixel fb m x1 y1 color))
  last_pixel m bx by =
      let e = get_pixel-put_pixel fb m x1 y1 color x1 y1 wf in
      (put_pixel fb m x1 y1 color, refl, ground (arith, e), one_pixel m x1 y1 bx by)

  pub one_more :
      (m : Memory) (x y : ℕ) (r : Option Memory)
      → Between x0 x1 x
      → Between y0 y1 y
      → (x ≢ x1) ⊎ (y ≢ y1)
      → Drawn fb (put_pixel fb m x y color) x0 y0 x1 y1 color r
      → Drawn fb m x0 y0 x1 y1 color r
  one_more m x y r bx by ne (m', e, end, each) =
      let kept = get_pixel-put_pixel fb m x y color x1 y1 wf in
      (
        m',
        e,
        ground (arith, kept, end),
        λ x' y'. elim (each x' y') [
          | inr coloured ↦ inr coloured
          | inl same ↦ elim (one_pixel m x y bx by x' y') [
            | inl same' ↦ inl (same ∙ same')
            | inr (is, bx', by') ↦ inr (same ∙ is, bx', by')
          ]
        ],
      )
