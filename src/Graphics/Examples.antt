-- ===== src/Graphics/Examples.antt =====
-- A screen of sixteen by eight pixels.
use mio_os.Common.{
  ◌+◌, ◌-◌, ◌%◌, ◌^◌, ◌≡◌, inl, refl, arith, ltb, leb, ◌==◌, ◌&&◌, if◌then◌else◌, [], ◌∷◌,
}
use mio_os.Runtime.Memory.{Memory}
use mio_os.Graphics.Framebuffer.{Framebuffer, get_pixel, put_pixel}
use mio_os.Graphics.Framebuffer.Places.{IsFramebuffer}
use mio_os.Graphics.Framebuffer.Pixels.{on_screen, get_pixel-put_pixel}
use mio_os.Graphics.Text.{draw_char}
use mio_os.Graphics.Text.Drawn.{font_row, is_lit, shown, draw_char-Drawn}
use mio_os.Graphics.Line.{draw_line}
use mio_os.Graphics.Line.Drawn.{Drawn}
use mio_os.Graphics.Line.Whole.{draw_line-Drawn}
use mio_os.Graphics.Console.{TxtSection, txt_section, kputs}
use mio_os.Graphics.Console.Section.{IsSection, bounds, OutsideBox, txt_section-IsSection}
use mio_os.Graphics.Console.Inside.{kputs-Inside}

abbrev screen : Framebuffer
screen = record {
  framebuffer = 4096;
  screen_width = 16;
  screen_height = 8;
  screen_pitch = 64;
  screen_bpp = 32;
}

screen-IsFramebuffer : IsFramebuffer screen
screen-IsFramebuffer = record {
  real = omega arith;
  row_fits = omega arith;
  size_fits = omega arith;
  depth = inl refl;
}

abbrev black : Memory
black a = 0

get_pixel-put_pixel_example :
    get_pixel screen (put_pixel screen black 3 2 0xAABBCC) 3 2 % 2 ^ 24 ≡ (
      if on_screen screen 3 2 && ((3 == 3) && (2 == 2))
      then 0xAABBCC % 2 ^ 24
      else get_pixel screen black 3 2 % 2 ^ 24)
get_pixel-put_pixel_example = get_pixel-put_pixel screen black 3 2 0xAABBCC 3 2 screen-IsFramebuffer

draw_char-Drawn_example : shown screen (draw_char screen black 8 0 65 0xFFFFFF) 11 1 ≡ (
    if on_screen screen 11 1 && ((leb 8 11 && ltb 11 (8 + 8)) && (leb 0 1 && ltb 1 (0 + 8)))
    then (if is_lit (font_row 65 (1 - 0)) (11 - 8) then 0xFFFFFF else 0) % 2 ^ 24
    else shown screen black 11 1)
draw_char-Drawn_example =
    draw_char-Drawn screen black 8 0 65 0xFFFFFF 11 1 screen-IsFramebuffer (omega arith)
      (omega arith) (omega arith) (omega arith)

draw_line-Drawn_example :
    Drawn screen black 1 6 4 4 0xFFFFFF (draw_line 6 screen black 1 6 4 4 0xFFFFFF)
draw_line-Drawn_example =
    draw_line-Drawn 6 screen black 1 6 4 4 0xFFFFFF screen-IsFramebuffer (omega arith) (omega arith)
      (omega arith) (omega arith) (omega arith)

-- One character to a row, so each scrolls.
abbrev section : TxtSection
section = txt_section 0 0 8 8 8 8

-- The byte of the first pixel to the right of the section.
outside : OutsideBox screen (bounds section) 4128
unfolding txt_section
outside x y h h' k k' = ground arith

kputs-Inside_example :
    IsSection screen (kputs screen black 0xFFFFFF (65 ∷ 66 ∷ []) section).1
    × (bounds (kputs screen black 0xFFFFFF (65 ∷ 66 ∷ []) section).1 ≡ bounds section)
    × ((kputs screen black 0xFFFFFF (65 ∷ 66 ∷ []) section).0 4128 ≡ black 4128)
kputs-Inside_example =
    kputs-Inside screen black 0xFFFFFF (65 ∷ 66 ∷ []) section 4128 screen-IsFramebuffer
      (txt_section-IsSection screen 0 0 8 8 screen-IsFramebuffer (omega arith) (omega arith)
        (omega arith) (omega arith))
      outside
