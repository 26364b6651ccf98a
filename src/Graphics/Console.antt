-- ===== src/Graphics/Console.antt =====
-- The text sections of kernel/kernel_ui.cpp. The frame buffer is the one of the registry, and the
-- characters of a string are a sequence, since they do not lie in the frame buffer.
pub mod Kept
pub mod Scroll
pub mod Section
pub mod Inside
use mio_os.Common.{
  ℕ, zero, suc, ◌+◌, ◌-◌, ◌*◌, ◌/◌, ◌%◌, ◌^◌, u32, add64, sub64, leb, ◌==◌, if◌then◌else◌, List, [],
  ◌∷◌,
}
use mio_os.Runtime.Memory.{Memory, memcpy, memset}
use mio_os.Graphics.Framebuffer.{Framebuffer}
use mio_os.Graphics.Text.{draw_char}

-- `txt_section`, with the fields of `curr_cords` in it.
pub record TxtSection : Type 0 where
  pub start_x : ℕ
  pub start_y : ℕ
  pub end_x : ℕ
  pub end_y : ℕ
  pub max_cols : ℕ
  pub max_rows : ℕ
  pub col : ℕ
  pub row : ℕ
  pub fg_color : ℕ

-- A subtraction on 32 bits.
abbrev pub sub32 : ℕ → ℕ → ℕ
sub32 a b = u32 (a + 2 ^ 32 - b)

-- The font has a width and a height.
unfoldable pub txt_section : (start_x start_y end_x end_y font_width font_height : ℕ) → TxtSection
txt_section start_x start_y end_x end_y font_width font_height = record {
  start_x = start_x;
  start_y = start_y;
  end_x = end_x;
  end_y = end_y;
  max_cols = sub32 end_x start_x / font_width;
  max_rows = sub32 end_y start_y / font_height;
  col = 0;
  row = 0;
  fg_color = 0xFFFFFF;
}

-- The section that `KernelGUI::initialize` makes the active one, for the two sizes of the screen.
unfoldable pub default_gui_section : Framebuffer → TxtSection
unfolding txt_section
default_gui_section fb =
    txt_section 16 16 (sub32 fb.screen_width 16) (sub32 fb.screen_height 16) 8 8

-- The address of the start of a line of pixels of the section.
unfoldable pub line : Framebuffer → TxtSection → ℕ → ℕ
line fb sect y =
    fb.framebuffer + u32 (y * fb.screen_pitch) + u32 (sect.start_x * (fb.screen_bpp / 8))

unfoldable pub row_bytes : Framebuffer → TxtSection → ℕ
row_bytes fb sect = u32 (sub32 sect.end_x sect.start_x * (fb.screen_bpp / 8))

-- The two loops of `kputchar`, with the number of lines that are left from `y` on.
unfoldable pub move_lines : Framebuffer → TxtSection → Memory → (left y : ℕ) → Memory
unfolding line row_bytes
move_lines fb sect m zero y = m
move_lines fb sect m (suc left) y =
    let dest = line fb sect y in
    let src = line fb sect (u32 (y + 8)) in
    move_lines fb sect (memcpy m dest src (row_bytes fb sect)).0 left (y + 1)

unfoldable pub clear_lines : Framebuffer → TxtSection → Memory → (left y : ℕ) → Memory
unfolding line row_bytes
clear_lines fb sect m zero y = m
clear_lines fb sect m (suc left) y =
    clear_lines fb sect (memset m (line fb sect y) 0 (row_bytes fb sect)).0 left (y + 1)

unfoldable pub scroll : Framebuffer → TxtSection → Memory → Memory
unfolding move_lines clear_lines
scroll fb sect m =
    let last = sub32 sect.end_y 8 in
    clear_lines fb sect (move_lines fb sect m (last - sect.start_y) sect.start_y)
      (sect.end_y - last) last

-- The cursor after a character, before the scroll.
unfoldable pub next_coords : TxtSection → (c : ℕ) → TxtSection
next_coords sect c =
    if c == 10
    then record sect { col = 0; row = add64 sect.row 1 }
    else if leb sect.max_cols (add64 sect.col 1)
    then record sect { col = 0; row = add64 sect.row 1 }
    else record sect { col = add64 sect.col 1 }

unfoldable pub place_char : Framebuffer → Memory → (color c : ℕ) → TxtSection → Memory
place_char fb m color c sect =
    if c == 10
    then m
    else draw_char fb m (u32 (sect.start_x + sect.col * 8)) (u32 (sect.start_y + sect.row * 8)) c
        color

unfoldable pub kputchar : Framebuffer → Memory → (color c : ℕ) → TxtSection → Memory × TxtSection
kputchar fb m color c sect =
    let drawn = place_char fb m color c sect in
    let next = next_coords sect c in
    if leb next.max_rows next.row
    then (scroll fb next drawn, record next { row = sub64 next.max_rows 1 })
    else (drawn, next)

unfoldable pub kputs :
    Framebuffer → Memory → (color : ℕ) → List ℕ → TxtSection → Memory × TxtSection
kputs fb m color [] sect = (m, sect)
kputs fb m color (c ∷ str) sect =
    let (m', sect') = kputchar fb m color c sect in kputs fb m' color str sect'
