-- ===== src/Graphics/Line/Ends.antt =====
-- The loop of `draw_line` reaches the end.
use mio_os.Common.{
  ℕ, zero, suc, ◌+◌, ◌-◌, ◌*◌, ◌^◌, ◌<◌, ◌≤◌, ◌≡◌, ◌≢◌, ◌⊎◌, inl, inr, refl, sym, arith, ◌∙◌, subst,
  u32, ltb, leb, ◌==◌, ◌&&◌, true, false, Bool, Bool-cases, if◌then◌else◌, Option, some,
}
use mio_os.Runtime.Memory.{Memory}
use mio_os.Graphics.Framebuffer.{Framebuffer, put_pixel}
use mio_os.Graphics.Framebuffer.Places.{IsFramebuffer}
use mio_os.Graphics.Line.{Line, add32, neg32, int_le, draw_points}
use mio_os.Graphics.Line.Step.{
  IsError, x_moves_iff, y_moves_iff, to_column, to_row, to_both, IsAt, IsAt-next, Between,
  IsAt-Between,
}
use mio_os.Graphics.Line.Drawn.{Drawn, last_pixel, one_more}

abbrev pub direction : ℕ → ℕ → ℕ
direction a b = if ltb a b then 1 else 2 ^ 32 - 1

module _ (fb : Framebuffer) (wf : IsFramebuffer fb) (x0 y0 x1 y1 color D Y : ℕ) (hx0 : x0 < 2 ^ 29)
    (hy0 : y0 < 2 ^ 29) (hx1 : x1 < 2 ^ 29) (hy1 : y1 < 2 ^ 29) (hD : D < 2 ^ 29)
    (hY : Y < 2 ^ 29) where
  abbrev pub l : Line
  l = record {
    x1 = x1;
    y1 = y1;
    dx = D;
    sx = direction x0 x1;
    dy = neg32 Y;
    sy = direction y0 y1;
    color = color;
  }

  -- A round that is not the last.
  round :
      (fuel : ℕ) (m : Memory) (x y e : ℕ) (xm ym : Bool)
      → (x ≢ x1) ⊎ (y ≢ y1)
      → int_le (neg32 Y) (u32 (2 * e)) ≡ xm
      → int_le (u32 (2 * e)) D ≡ ym
      → draw_points (suc fuel) fb l m x y e
        ≡ draw_points fuel fb l
            (put_pixel fb m x y color)
            (if xm then add32 x (direction x0 x1) else x)
            (if ym then add32 y (direction y0 y1) else y)
            (if ym
              then add32 (if xm then add32 e (neg32 Y) else e) D
              else if xm
              then add32 e (neg32 Y)
              else e)
  unfolding draw_points
  round fuel m x y e xm ym ne hx hy =
      let more : ((x == x1) && (y == y1)) ≡ false = ground arith in rw (more, hx, hy) refl

  -- Where the loop stands.
  pub record IsHere (p q x y e : ℕ) : Type 0 where
    pub col : IsAt x0 x1 p x
    pub row : IsAt y0 y1 q y
    pub err : IsError D Y e (D + p * Y) (q * D + Y)
    pub cols : p ≤ D
    pub rows : q ≤ Y

  abbrev next_x : ℕ → ℕ
  next_x x = add32 x (direction x0 x1)

  abbrev next_y : ℕ → ℕ
  next_y y = add32 y (direction y0 y1)

  -- `a - b` is the error: whether a column and whether a row is to come next.
  abbrev ColumnNext : (p q : ℕ) → Type 0
  ColumnNext p q = 2 * (q * D + Y) ≤ 2 * (D + p * Y) + Y

  abbrev RowNext : (p q : ℕ) → Type 0
  RowNext p q = 2 * (D + p * Y) ≤ 2 * (q * D + Y) + D

  to_next_column :
      (p q x y e : ℕ)
      → IsHere (suc p) q x y e
      → ColumnNext (suc p) q
      → IsHere p q (next_x x) y (add32 e (neg32 Y))
  to_next_column p q x y e h moves =
      let c = h.cols in
      record {
        col = IsAt-next x0 x1 p x hx0 hx1 h.col;
        row = h.row;
        err =
            to_column D Y e (D + suc p * Y) (q * D + Y) hD hY h.err (D + p * Y) (omega arith) moves;
        cols = omega (arith, c);
        rows = h.rows;
      }

  to_next_row :
      (p q x y e : ℕ)
      → IsHere p (suc q) x y e
      → RowNext p (suc q)
      → IsHere p q x (next_y y) (add32 e D)
  to_next_row p q x y e h moves =
      let r = h.rows in
      record {
        col = h.col;
        row = IsAt-next y0 y1 q y hy0 hy1 h.row;
        err = to_row D Y e (D + p * Y) (suc q * D + Y) hD hY h.err (q * D + Y) (omega arith) moves;
        cols = h.cols;
        rows = omega (arith, r);
      }

  to_next_both :
      (p q x y e : ℕ)
      → IsHere (suc p) (suc q) x y e
      → ColumnNext (suc p) (suc q)
      → RowNext (suc p) (suc q)
      → IsHere p q (next_x x) (next_y y) (add32 (add32 e (neg32 Y)) D)
  to_next_both p q x y e h moves moves' =
      let c = h.cols in
      let r = h.rows in
      record {
        col = IsAt-next x0 x1 p x hx0 hx1 h.col;
        row = IsAt-next y0 y1 q y hy0 hy1 h.row;
        err =
            to_both D Y e (D + suc p * Y) (suc q * D + Y) hD hY h.err (D + p * Y) (q * D + Y)
              (omega arith) (omega arith) moves moves';
        cols = omega (arith, c);
        rows = omega (arith, r);
      }

  -- A round with the moves that the error asks for, and the rest of the line.
  go_on :
      (fuel p q x y e : ℕ) (m : Memory) (xm ym : Bool)
      → IsHere p q x y e
      → (p ≢ 0) ⊎ (q ≢ 0)
      → leb (2 * (q * D + Y)) (2 * (D + p * Y) + Y) ≡ xm
      → leb (2 * (D + p * Y)) (2 * (q * D + Y) + D) ≡ ym
      → Drawn fb (put_pixel fb m x y color) x0 y0 x1 y1 color (
          draw_points fuel fb l
            (put_pixel fb m x y color)
            (if xm then next_x x else x)
            (if ym then next_y y else y)
            (if ym
              then add32 (if xm then add32 e (neg32 Y) else e) D
              else if xm
              then add32 e (neg32 Y)
              else e))
      → Drawn fb m x0 y0 x1 y1 color (draw_points (suc fuel) fb l m x y e)
  go_on fuel p q x y e m xm ym h left hx hy rest =
      let c = h.col in
      let r = h.row in
      let ne : (x ≢ x1) ⊎ (y ≢ y1) = ground (arith, c, r, left) in
      let ex = x_moves_iff D Y e (D + p * Y) (q * D + Y) hD hY h.err ∙ hx in
      let ey = y_moves_iff D Y e (D + p * Y) (q * D + Y) hD hY h.err ∙ hy in
      subst (λ (o : Option Memory). Drawn fb m x0 y0 x1 y1 color o)
        (sym (round fuel m x y e xm ym ne ex ey))
        (one_more fb wf x0 y0 x1 y1 color m x y
          (draw_points fuel fb l (put_pixel fb m x y color) (if xm then next_x x else x)
            (if ym then next_y y else y)
            (if ym
              then add32 (if xm then add32 e (neg32 Y) else e) D
              else if xm
              then add32 e (neg32 Y)
              else e))
          (IsAt-Between x0 x1 p x c) (IsAt-Between y0 y1 q y r) ne rest)

  at_end :
      (fuel x y e : ℕ) (m : Memory)
      → IsHere 0 0 x y e
      → Drawn fb m x0 y0 x1 y1 color (draw_points (suc fuel) fb l m x y e)
  unfolding draw_points
  at_end fuel x y e m h =
      let c = h.col in
      let r = h.row in
      let ex : x ≡ x1 = ground (arith, c) in
      let ey : y ≡ y1 = ground (arith, r) in
      let over : ((x == x1) && (y == y1)) ≡ true = ground (arith, ex, ey) in
      let here : Between x0 x1 x1 =
        subst (λ (t : ℕ). Between x0 x1 t) ex (IsAt-Between x0 x1 0 x c) in
      let here' : Between y0 y1 y1 =
        subst (λ (t : ℕ). Between y0 y1 t) ey (IsAt-Between y0 y1 0 y r) in
      rw over (
        subst (λ (t : ℕ). Drawn fb m x0 y0 x1 y1 color (some (put_pixel fb m t y color))) (sym ex)
          (subst (λ (t : ℕ). Drawn fb m x0 y0 x1 y1 color (some (put_pixel fb m x1 t color)))
            (sym ey) (last_pixel fb wf x0 y0 x1 y1 color m here here')))

  -- With one way left, the error asks for that way alone.
  only_row :
      (q : ℕ)
      → suc q ≤ Y
      → (leb (2 * (suc q * D + Y)) (2 * (D + 0 * Y) + Y) ≡ false)
        × (leb (2 * (D + 0 * Y)) (2 * (suc q * D + Y) + D) ≡ true)
  only_row q h =
      let e : suc q * D ≡ D + q * D = omega arith in (ground (arith, e), ground (arith, e))

  only_column :
      (p : ℕ)
      → suc p ≤ D
      → (leb (2 * (0 * D + Y)) (2 * (D + suc p * Y) + Y) ≡ true)
        × (leb (2 * (D + suc p * Y)) (2 * (0 * D + Y) + D) ≡ false)
  only_column p h =
      let e : suc p * Y ≡ Y + p * Y = omega arith in (ground (arith, e), ground (arith, e))

  -- The loop ends, with fuel for the columns and rows that are left.
  pub ends :
      (fuel p q x y e : ℕ) (m : Memory)
      → IsHere p q x y e
      → p + q < fuel
      → Drawn fb m x0 y0 x1 y1 color (draw_points fuel fb l m x y e)
  ends zero p q x y e m h f = absurd (omega arith)
  ends (suc fuel) zero zero x y e m h f = at_end fuel x y e m h
  ends (suc fuel) zero (suc q) x y e m h f =
      let way = only_row q h.rows in
      let m' = put_pixel fb m x y color in
      go_on fuel 0 (suc q) x y e m false true h (inr (omega arith)) way.0 way.1 (
        ends fuel 0 q x (next_y y) (add32 e D) m' (to_next_row 0 q x y e h (ground (arith, way)))
          (omega arith))
  ends (suc fuel) (suc p) zero x y e m h f =
      let way = only_column p h.cols in
      let m' = put_pixel fb m x y color in
      go_on fuel (suc p) 0 x y e m true false h (inl (omega arith)) way.0 way.1 (
        ends fuel p 0 (next_x x) y (add32 e (neg32 Y)) m'
          (to_next_column p 0 x y e h (ground (arith, way))) (omega arith))
  ends (suc fuel) (suc p) (suc q) x y e m h f =
      let m' = put_pixel fb m x y color in
      elim (Bool-cases (leb (2 * (suc q * D + Y)) (2 * (D + suc p * Y) + Y))) [
        | inl xm ↦
            let c : ColumnNext (suc p) (suc q) = ground (arith, xm) in
            elim (Bool-cases (leb (2 * (D + suc p * Y)) (2 * (suc q * D + Y) + D))) [
              | inl ym ↦ go_on fuel (suc p) (suc q) x y e m true true h (inl (omega arith)) xm ym (
                  ends fuel p q (next_x x) (next_y y) (add32 (add32 e (neg32 Y)) D) m'
                    (to_next_both p q x y e h c (ground (arith, ym))) (omega arith))
              | inr ym ↦ go_on fuel (suc p) (suc q) x y e m true false h (inl (omega arith)) xm ym (
                  ends fuel p (suc q) (next_x x) y (add32 e (neg32 Y)) m'
                    (to_next_column p (suc q) x y e h c) (omega arith))
            ]
        | inr xm ↦
            let r : RowNext (suc p) (suc q) = ground (arith, xm) in
            let ym : leb (2 * (D + suc p * Y)) (2 * (suc q * D + Y) + D) ≡ true =
              ground (arith, xm) in
            go_on fuel (suc p) (suc q) x y e m false true h (inl (omega arith)) xm ym (
              ends fuel (suc p) q x (next_y y) (add32 e D) m' (to_next_row (suc p) q x y e h r)
                (omega arith))
      ]
