-- ===== src/Graphics/Line.antt =====
-- `draw_line` of kernel/graphics/draw_util.cpp. An `int` is the 32 bits that stand for it.
pub mod Step
pub mod Drawn
pub mod Ends
pub mod Whole
use mio_os.Common.{
  ℕ, zero, suc, ◌+◌, ◌-◌, ◌*◌, ◌%◌, ◌^◌, u32, ltb, leb, ◌==◌, ◌&&◌, if◌then◌else◌, Bool, Option,
  none, some,
}
use mio_os.Runtime.Memory.{Memory}
use mio_os.Graphics.Framebuffer.{Framebuffer, put_pixel}

abbrev pub add32 : ℕ → ℕ → ℕ
add32 a b = u32 (a + b)

abbrev pub neg32 : ℕ → ℕ
neg32 a = u32 (2 ^ 32 - a)

-- `a <= b` on `int`.
abbrev pub int_le : ℕ → ℕ → Bool
int_le a b = leb (u32 (a + 2 ^ 31)) (u32 (b + 2 ^ 31))

-- `abs` of lib/math.cpp.
abbrev pub int_abs : ℕ → ℕ
int_abs x = if ltb x (2 ^ 31) then x else neg32 x

-- What the loop does not change.
pub record Line : Type 0 where
  pub x1 : ℕ
  pub y1 : ℕ
  pub dx : ℕ
  pub sx : ℕ
  pub dy : ℕ
  pub sy : ℕ
  pub color : ℕ

-- The loop; `none` when it still runs.
unfoldable pub draw_points :
    (fuel : ℕ) → Framebuffer → Line → Memory → (x y err : ℕ) → Option Memory
draw_points zero fb l m x y err = none
draw_points (suc fuel) fb l m x y err =
    let m' = put_pixel fb m x y l.color in
    let e2 = u32 (2 * err) in
    let x_moves = int_le l.dy e2 in
    let y_moves = int_le e2 l.dx in
    let err' = if x_moves then add32 err l.dy else err in
    let x' = if x_moves then add32 x l.sx else x in
    let err'' = if y_moves then add32 err' l.dx else err' in
    let y' = if y_moves then add32 y l.sy else y in
    let rest = draw_points fuel fb l m' x' y' err'' in
    if (x == l.x1) && (y == l.y1) then some m' else rest

unfoldable pub start_line : (x0 y0 x1 y1 color : ℕ) → Line
start_line x0 y0 x1 y1 color = record {
  x1 = x1;
  y1 = y1;
  dx = int_abs (u32 (x1 + 2 ^ 32 - x0));
  sx = if ltb x0 x1 then 1 else 2 ^ 32 - 1;
  dy = neg32 (int_abs (u32 (y1 + 2 ^ 32 - y0)));
  sy = if ltb y0 y1 then 1 else 2 ^ 32 - 1;
  color = color;
}

unfoldable pub draw_line :
    (fuel : ℕ) → Framebuffer → Memory → (x0 y0 x1 y1 color : ℕ) → Option Memory
draw_line fuel fb m x0 y0 x1 y1 color =
    let l = start_line x0 y0 x1 y1 color in draw_points fuel fb l m x0 y0 (add32 l.dx l.dy)
