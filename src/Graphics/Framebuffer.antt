-- ===== src/Graphics/Framebuffer.antt =====
-- kernel/drivers/framebuffer.cpp, over a memory of bytes.
pub mod Places
pub mod Pixels
use mio_os.Common.{ℕ, ◌+◌, ◌*◌, ◌/◌, u32, ◌>>>◌, bit_and, leb, ◌==◌, ◌||◌, if◌then◌else◌}
use mio_os.Runtime.Memory.{Memory, store_byte}
use mio_os.Boot.Multiboot.{load32}

-- A started driver; `framebuffer` is an address.
pub record Framebuffer : Type 0 where
  pub framebuffer : ℕ
  pub screen_width : ℕ
  pub screen_height : ℕ
  pub screen_pitch : ℕ
  pub screen_bpp : ℕ

-- `(uint8_t*)framebuffer + y * screen_pitch + x * (screen_bpp / 8)`, the products on 32 bits.
unfoldable pub pixel_address : Framebuffer → ℕ → ℕ → ℕ
pixel_address fb x y = fb.framebuffer + u32 (y * fb.screen_pitch) + u32 (x * (fb.screen_bpp / 8))

unfoldable pub store_rgb : Memory → ℕ → ℕ → Memory
store_rgb m pixel color =
    store_byte
      (store_byte (store_byte m pixel (bit_and color 0xFF)) (pixel + 1)
        (bit_and (color >>> 8) 0xFF))
      (pixel + 2) (bit_and (color >>> 16) 0xFF)

unfoldable pub put_pixel : Framebuffer → Memory → (x y color : ℕ) → Memory
unfolding pixel_address store_rgb
put_pixel fb m x y color =
    let pixel = pixel_address fb x y in
    if fb.framebuffer == 0
    then m
    else if leb fb.screen_width x || leb fb.screen_height y
    then m
    else if fb.screen_bpp == 32
    then store_byte (store_rgb m pixel color) (pixel + 3) (bit_and (color >>> 24) 0xFF)
    else if fb.screen_bpp == 24
    then store_rgb m pixel color
    else m

unfoldable pub get_pixel : Framebuffer → Memory → (x y : ℕ) → ℕ
unfolding pixel_address load32
get_pixel fb m x y =
    let pixel_addr = pixel_address fb x y in
    if fb.framebuffer == 0
    then 0
    else if leb fb.screen_width x || leb fb.screen_height y
    then 0
    else if fb.screen_bpp == 32
    then bit_and (load32 m pixel_addr) 0xFFFFFF
    else load32 m pixel_addr
