-- ===== src/Graphics/Line/Whole.antt =====
-- What `draw_line` leaves.
use mio_os.Common.{ℕ, ◌+◌, ◌-◌, ◌*◌, ◌^◌, ◌<◌, ◌≡◌, arith, u32}
use mio_os.Runtime.Memory.{Memory}
use mio_os.Graphics.Framebuffer.{Framebuffer}
use mio_os.Graphics.Framebuffer.Places.{IsFramebuffer}
use mio_os.Graphics.Line.{add32, neg32, int_abs, start_line, draw_line}
use mio_os.Graphics.Line.Step.{IsError, IsAt}
use mio_os.Graphics.Line.Drawn.{Drawn}
use mio_os.Graphics.Line.Ends.{IsHere, ends}

abbrev pub distance : ℕ → ℕ → ℕ
distance a b = (b - a) + (a - b)

int_abs-distance :
    (a b : ℕ) → a < 2 ^ 29 → b < 2 ^ 29 → int_abs (u32 (b + 2 ^ 32 - a)) ≡ distance a b
int_abs-distance a b small small' = ground arith

start-IsAt : (a b : ℕ) → IsAt a b (distance a b) a
start-IsAt a b = ground arith

start-IsError :
    (D Y : ℕ) → D < 2 ^ 29 → Y < 2 ^ 29 → IsError D Y (add32 D (neg32 Y)) (D + D * Y) (Y * D + Y)
start-IsError D Y small small' =
    let e : Y * D ≡ D * Y = omega arith in
    record {
      stands = ground (arith, e);
      word = omega arith;
      above = omega (arith, e);
      below = omega (arith, e);
    }

-- For such a frame buffer and coordinates below 2 ^ 29, fuel above the distance of the two
-- columns plus that of the two rows is enough for the loop of `draw_line`: it ends, the pixel of
-- the second end shows the colour if it is on the screen, and every pixel shows what it did, or
-- shows the colour and lies in the rectangle between the two ends.
pub draw_line-Drawn :
    (fuel : ℕ) (fb : Framebuffer) (m : Memory) (x0 y0 x1 y1 color : ℕ)
    → IsFramebuffer fb
    → x0 < 2 ^ 29
    → y0 < 2 ^ 29
    → x1 < 2 ^ 29
    → y1 < 2 ^ 29
    → distance x0 x1 + distance y0 y1 < fuel
    → Drawn fb m x0 y0 x1 y1 color (draw_line fuel fb m x0 y0 x1 y1 color)
unfolding draw_line start_line
draw_line-Drawn fuel fb m x0 y0 x1 y1 color wf hx0 hy0 hx1 hy1 enough =
    let D = distance x0 x1 in
    let Y = distance y0 y1 in
    let hD : D < 2 ^ 29 = omega arith in
    let hY : Y < 2 ^ 29 = omega arith in
    let here : IsHere fb wf x0 y0 x1 y1 color D Y hx0 hy0 hx1 hy1 hD hY D Y x0 y0
        (add32 D (neg32 Y)) =
      record {
        col = start-IsAt x0 x1;
        row = start-IsAt y0 y1;
        err = start-IsError D Y hD hY;
        cols = omega arith;
        rows = omega arith;
      } in
    rw (int_abs-distance x0 x1 hx0 hx1, int_abs-distance y0 y1 hy0 hy1)
      (ends fb wf x0 y0 x1 y1 color D Y hx0 hy0 hx1 hy1 hD hY fuel D Y x0 y0 (add32 D (neg32 Y)) m
        here enough)
