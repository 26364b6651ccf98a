-- ===== src/Graphics/Framebuffer/Pixels.antt =====
-- What a pixel holds after another is set.
use mio_os.Common.{
  ℕ, ◌+◌, ◌*◌, ◌/◌, ◌%◌, ◌^◌, ◌<◌, ◌≤◌, ◌≡◌, ◌≢◌, ◌⊎◌, inl, inr, refl, sym, arith, ◌∙◌, ap, ltb,
  leb, ◌==◌, ◌||◌, ◌&&◌, if◌then◌else◌, true, false, Bool, Bool-cases,
}
use mio_os.Common.Bits.{bit_and_mask}
use mio_os.Runtime.Memory.{Memory}
use mio_os.Boot.Multiboot.{load32}
use mio_os.Graphics.Framebuffer.{Framebuffer, pixel_address, store_rgb, put_pixel, get_pixel}
use mio_os.Graphics.Framebuffer.Places.{IsFramebuffer, place, pixel_address-place, apart}

if-same : {A : Type 0} (b : Bool) (m : A) → (if b then m else m) ≡ m
if-same true m = refl
if-same false m = refl

-- The three bytes of a colour.
abbrev rgb : Memory → ℕ → ℕ
rgb m p = m p + m (p + 1) * 256 + m (p + 2) * 65536

rgb-load32 : (m : Memory) (p : ℕ) → load32 m p % 2 ^ 24 ≡ rgb m p % 2 ^ 24
unfolding load32
rgb-load32 m p = omega arith

-- The bytes that a set pixel leaves at `p`.
abbrev set_bytes : Memory → (bpp p color a : ℕ) → ℕ
set_bytes m bpp p color a =
    if a == p
    then color % 256
    else if a == p + 1
    then color / 256 % 256
    else if a == p + 2
    then color / 65536 % 256
    else if (bpp == 32) && (a == p + 3)
    then color / 16777216 % 256
    else m a

store_rgb-byte : (m : Memory) (p color a : ℕ) → store_rgb m p color a ≡ set_bytes m 24 p color a
unfolding store_rgb
store_rgb-byte m p color a =
    ground
      (arith, bit_and_mask 8 color, bit_and_mask 8 (color / 256), bit_and_mask 8 (color / 65536))

put_pixel-byte :
    (fb : Framebuffer) (m : Memory) (x y color a : ℕ)
    → IsFramebuffer fb
    → x < fb.screen_width
    → y < fb.screen_height
    → put_pixel fb m x y color a ≡ set_bytes m fb.screen_bpp (place fb x y) color a
unfolding put_pixel pixel_address
put_pixel-byte fb m x y color a wf hx hy =
    let at = pixel_address-place fb wf x y hx hy in
    let real : (fb.framebuffer == 0) ≡ false = ground (arith, wf.real) in
    let seen : (leb fb.screen_width x || leb fb.screen_height y) ≡ false = ground arith in
    elim wf.depth [
      | inl e ↦
          let deep : (fb.screen_bpp == 32) ≡ true = ground arith in
          rw (real, seen, deep, at)
            (ground
              (arith, store_rgb-byte m (place fb x y) color a, bit_and_mask 8 (color / 16777216)))
      | inr e ↦
          let flat : (fb.screen_bpp == 32) ≡ false = ground arith in
          let rgb_only : (fb.screen_bpp == 24) ≡ true = ground arith in
          rw (real, seen, flat, rgb_only, at) (store_rgb-byte m (place fb x y) color a)
    ]

put_pixel-outside :
    (fb : Framebuffer) (m : Memory) (x y color : ℕ)
    → (fb.screen_width ≤ x) ⊎ (fb.screen_height ≤ y)
    → put_pixel fb m x y color ≡ m
unfolding put_pixel
put_pixel-outside fb m x y color out =
    let unseen : (leb fb.screen_width x || leb fb.screen_height y) ≡ true = ground arith in
    rw unseen (if-same (fb.framebuffer == 0) m)

-- Bytes outside of the pixel stay.
pub put_pixel-elsewhere :
    (fb : Framebuffer) (m : Memory) (x y color a : ℕ)
    → IsFramebuffer fb
    → x < fb.screen_width
    → y < fb.screen_height
    → (a < place fb x y) ⊎ (place fb x y + fb.screen_bpp / 8 ≤ a)
    → put_pixel fb m x y color a ≡ m a
put_pixel-elsewhere fb m x y color a wf hx hy out =
    put_pixel-byte fb m x y color a wf hx hy
    ∙ elim wf.depth [ inl e ↦ ground (arith) | inr e ↦ ground (arith) ]

get_pixel-rgb :
    (fb : Framebuffer) (m : Memory) (x y : ℕ)
    → IsFramebuffer fb
    → x < fb.screen_width
    → y < fb.screen_height
    → get_pixel fb m x y % 2 ^ 24 ≡ rgb m (place fb x y) % 2 ^ 24
unfolding get_pixel pixel_address
get_pixel-rgb fb m x y wf hx hy =
    let at = pixel_address-place fb wf x y hx hy in
    let real : (fb.framebuffer == 0) ≡ false = ground (arith, wf.real) in
    let seen : (leb fb.screen_width x || leb fb.screen_height y) ≡ false = ground arith in
    rw (real, seen, at)
      (ground (arith, rgb-load32 m (place fb x y), bit_and_mask 24 (load32 m (place fb x y))))

get_pixel-outside :
    (fb : Framebuffer) (m : Memory) (x y : ℕ)
    → (fb.screen_width ≤ x) ⊎ (fb.screen_height ≤ y)
    → get_pixel fb m x y ≡ 0
unfolding get_pixel
get_pixel-outside fb m x y out =
    let unseen : (leb fb.screen_width x || leb fb.screen_height y) ≡ true = ground arith in
    rw unseen (if-same {A = ℕ} (fb.framebuffer == 0) 0)

set-rgb : (m : Memory) (bpp p color : ℕ) → rgb (set_bytes m bpp p color) p % 2 ^ 24 ≡ color % 2 ^ 24
set-rgb m bpp p color = ground arith

-- Whether a pixel is on the screen.
abbrev pub on_screen : Framebuffer → ℕ → ℕ → Bool
on_screen fb x y = ltb x fb.screen_width && ltb y fb.screen_height

module _ (fb : Framebuffer) (m : Memory) (x y color x' y' : ℕ) (wf : IsFramebuffer fb) where
  abbrev after : Memory
  after = put_pixel fb m x y color

  rgb-elsewhere :
      x < fb.screen_width
      → y < fb.screen_height
      → x' < fb.screen_width
      → (x ≢ x') ⊎ (y ≢ y')
      → rgb after (place fb x' y') ≡ rgb m (place fb x' y')
  rgb-elsewhere hx hy hx' ne =
      let same = λ (i : ℕ) (small : i < 3).
        let far = apart fb wf x y x' y' hx hx' ne in
        put_pixel-elsewhere fb m x y color (place fb x' y' + i) wf hx hy
          (beyond (place fb x y) (place fb x' y') (fb.screen_bpp / 8) i three small far) in
      let z : place fb x' y' + 0 ≡ place fb x' y' = omega arith in
      let b0 = ap after (sym z) ∙ same 0 (omega arith) ∙ ap m z in
      let b1 = same 1 (omega arith) in let b2 = same 2 (omega arith) in omega (arith, b0, b1, b2)
    where
      three : 3 ≤ fb.screen_bpp / 8
      three = elim wf.depth [ inl e ↦ omega arith | inr e ↦ omega arith ]

      beyond :
          (p q b i : ℕ) → 3 ≤ b → i < 3 → (p + b ≤ q) ⊎ (q + b ≤ p) → (q + i < p) ⊎ (p + b ≤ q + i)
      beyond p q b i h small (inl far) = inr (omega arith)
      beyond p q b i h small (inr far) = inl (omega arith)

  own :
      x < fb.screen_width → y < fb.screen_height → get_pixel fb after x y % 2 ^ 24 ≡ color % 2 ^ 24
  own hx hy =
      let p = place fb x y in
      let byte = λ (a : ℕ). put_pixel-byte fb m x y color a wf hx hy in
      let b0 = byte p in
      let b1 = byte (p + 1) in
      let b2 = byte (p + 2) in
      let same : rgb after p ≡ rgb (set_bytes m fb.screen_bpp p color) p =
        omega (arith, b0, b1, b2) in
      get_pixel-rgb fb after x y wf hx hy
      ∙ ap (λ (t : ℕ). t % 2 ^ 24) same
      ∙ set-rgb m fb.screen_bpp p color

  other :
      x < fb.screen_width
      → y < fb.screen_height
      → (x ≢ x') ⊎ (y ≢ y')
      → get_pixel fb after x' y' % 2 ^ 24 ≡ get_pixel fb m x' y' % 2 ^ 24
  other hx hy ne = elim (Bool-cases (on_screen fb x' y')) [
    | inl on ↦
        let hx' : x' < fb.screen_width = ground arith in
        let hy' : y' < fb.screen_height = ground arith in
        get_pixel-rgb fb after x' y' wf hx' hy'
        ∙ ap (λ (t : ℕ). t % 2 ^ 24) (rgb-elsewhere hx hy hx' ne)
        ∙ sym (get_pixel-rgb fb m x' y' wf hx' hy')
    | inr off ↦
        let out : (fb.screen_width ≤ x') ⊎ (fb.screen_height ≤ y') = ground arith in
        ap (λ (t : ℕ). t % 2 ^ 24)
          (get_pixel-outside fb after x' y' out ∙ sym (get_pixel-outside fb m x' y' out))
  ]

  -- For a frame buffer of 32 or 24 bits a pixel, with a pointer that is not null, rows that hold
  -- the pixels of the width, and a size below 2 ^ 32: after `put_pixel`, the lower 24 bits of what
  -- `get_pixel` gives are those of the colour at the pixel that was set, if it is on the screen,
  -- and what they were at every other pair of coordinates.
  pub get_pixel-put_pixel : get_pixel fb after x' y' % 2 ^ 24 ≡ (
      if on_screen fb x y && ((x == x') && (y == y'))
      then color % 2 ^ 24
      else get_pixel fb m x' y' % 2 ^ 24)
  get_pixel-put_pixel = elim (Bool-cases (on_screen fb x y)) [
    | inr off ↦
        let out : (fb.screen_width ≤ x) ⊎ (fb.screen_height ≤ y) = ground arith in
        rw (off, put_pixel-outside fb m x y color out) refl
    | inl on ↦
        let hx : x < fb.screen_width = ground arith in
        let hy : y < fb.screen_height = ground arith in rw on (shown hx hy)
  ]
    where
      shown :
          x < fb.screen_width
          → y < fb.screen_height
          → get_pixel fb after x' y' % 2 ^ 24
            ≡ (if (x == x') && (y == y') then color % 2 ^ 24 else get_pixel fb m x' y' % 2 ^ 24)
      shown hx hy = elim (Bool-cases ((x == x') && (y == y'))) [
        | inl same ↦
            let ex : x ≡ x' = ground arith in
            let ey : y ≡ y' = ground arith in
            let e = λ (k : ℕ) (l : ℕ). get_pixel fb after k l % 2 ^ 24 in
            rw same (ap (λ (k : ℕ). e k y') (sym ex) ∙ ap (e x) (sym ey) ∙ own hx hy)
        | inr apart_from ↦
            let ne : (x ≢ x') ⊎ (y ≢ y') = ground arith in rw apart_from (other hx hy ne)
      ]

-- Setting a pixel leaves every byte that is not one of a pixel on the screen at the same place.
pub put_pixel-kept :
    (fb : Framebuffer) (m : Memory) (x y color a : ℕ)
    → IsFramebuffer fb
    → (x < fb.screen_width → (a < place fb x y) ⊎ (place fb x y + fb.screen_bpp / 8 ≤ a))
    → put_pixel fb m x y color a ≡ m a
put_pixel-kept fb m x y color a wf out = elim (Bool-cases (on_screen fb x y)) [
  | inl on ↦
      let hx : x < fb.screen_width = ground arith in
      let hy : y < fb.screen_height = ground arith in
      put_pixel-elsewhere fb m x y color a wf hx hy (out hx)
  | inr off ↦
      let gone : (fb.screen_width ≤ x) ⊎ (fb.screen_height ≤ y) = ground arith in
      ap (λ (n : Memory). n a) (put_pixel-outside fb m x y color gone)
]
