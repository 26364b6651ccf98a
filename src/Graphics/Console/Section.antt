-- ===== src/Graphics/Console/Section.antt =====
-- A section with its cursor, and what a character makes of it.
use mio_os.Common.{
  ℕ, ◌+◌, ◌-◌, ◌*◌, ◌^◌, ◌<◌, ◌≤◌, ◌≡◌, inl, inr, refl, arith, ap, leb, ◌==◌, Bool-cases, add64,
}
use mio_os.Graphics.Framebuffer.{Framebuffer}
use mio_os.Graphics.Framebuffer.Places.{IsFramebuffer, sizes}
use mio_os.Graphics.Console.{TxtSection, sub32, txt_section, next_coords}
use mio_os.Graphics.Console.Scroll.{IsBox}
use mio_os.Graphics.Console.Kept.{Outside}

-- A section on the screen with room for a character, and the cursor in it.
pub record IsSection (fb : Framebuffer) (s : TxtSection) : Type 0 where
  pub on_screen_x : s.end_x ≤ fb.screen_width
  pub on_screen_y : s.end_y ≤ fb.screen_height
  pub cols_fit : s.start_x + s.max_cols * 8 ≤ s.end_x
  pub rows_fit : s.start_y + s.max_rows * 8 ≤ s.end_y
  pub col_in : s.col < s.max_cols
  pub row_in : s.row < s.max_rows

abbrev pub bounds : TxtSection → ℕ × ℕ × ℕ × ℕ
bounds s = (s.start_x, s.start_y, s.end_x, s.end_y)

abbrev pub OutsideBox : Framebuffer → ℕ × ℕ × ℕ × ℕ → ℕ → Type 0
OutsideBox fb (start_x, start_y, end_x, end_y) a = Outside fb start_x start_y end_x end_y a

-- The cursor after a character may stand one row below the section.
pub record IsNext (s t : TxtSection) : Type 0 where
  pub same : bounds t ≡ bounds s
  pub same_cols : t.max_cols ≡ s.max_cols
  pub same_rows : t.max_rows ≡ s.max_rows
  pub col_in : t.col < s.max_cols
  pub row_in : t.row ≤ s.max_rows

module _ (fb : Framebuffer) (wf : IsFramebuffer fb) (s : TxtSection) (fit : IsSection fb s) where
  pub section_sizes :
      (s.max_cols < 2 ^ 32) × (s.max_rows < 2 ^ 32) × (s.end_x < 2 ^ 32) × (s.end_y < 2 ^ 32)
  section_sizes =
      let cx = fit.cols_fit in
      let ry = fit.rows_fit in
      let ix = fit.on_screen_x in
      let iy = fit.on_screen_y in
      let ci = fit.col_in in
      let ri = fit.row_in in
      let sz =
        sizes fb wf s.start_x s.start_y (omega (arith, cx, ix, ci)) (omega (arith, ry, iy, ri)) in
      (
        omega (arith, cx, ix, sz.1),
        omega (arith, ry, iy, sz.2),
        omega (arith, ix, sz.1),
        omega (arith, iy, sz.2),
      )

  pub next_coords-IsNext : (c : ℕ) → IsNext s (next_coords s c)
  unfolding next_coords
  next_coords-IsNext c =
      let sz = section_sizes in
      let ci = fit.col_in in
      let ri = fit.row_in in
      let down : add64 s.row 1 ≤ s.max_rows = omega (arith, ri, sz.1) in
      let first : 0 < s.max_cols = omega (arith, ci) in
      elim (Bool-cases (c == 10)) [
        | inl newline ↦ rw newline record {
          same = refl;
          same_cols = refl;
          same_rows = refl;
          col_in = first;
          row_in = down;
        }
        | inr other ↦ elim (Bool-cases (leb s.max_cols (add64 s.col 1))) [
          | inl wraps ↦
              rw (other, wraps)
                record {
                  same = refl;
                  same_cols = refl;
                  same_rows = refl;
                  col_in = first;
                  row_in = down;
                }
          | inr stays ↦
              rw (other, stays)
                record {
                  same = refl;
                  same_cols = refl;
                  same_rows = refl;
                  col_in = ground (arith, stays);
                  row_in = omega (arith, ri);
                }
        ]
      ]

  pub next-IsBox : (t : TxtSection) → IsNext s t → IsBox fb t
  next-IsBox t n =
      let cx = fit.cols_fit in
      let ry = fit.rows_fit in
      let ci = fit.col_in in
      let ri = fit.row_in in
      let ix = fit.on_screen_x in
      let iy = fit.on_screen_y in
      let x0 : t.start_x ≡ s.start_x = ap (λ (b : ℕ × ℕ × ℕ × ℕ). b.0) n.same in
      let y0 : t.start_y ≡ s.start_y = ap (λ (b : ℕ × ℕ × ℕ × ℕ). b.1) n.same in
      let x1 : t.end_x ≡ s.end_x = ap (λ (b : ℕ × ℕ × ℕ × ℕ). b.2) n.same in
      let y1 : t.end_y ≡ s.end_y = ap (λ (b : ℕ × ℕ × ℕ × ℕ). b.3) n.same in
      record {
        ordered_x = omega (arith, x0, x1, cx, ci);
        ordered_y = omega (arith, y0, y1, ry, ri);
        inside_x = omega (arith, x1, ix);
        inside_y = omega (arith, y1, iy);
      }

  pub next-IsSection : (t : TxtSection) → IsNext s t → t.row < s.max_rows → IsSection fb t
  next-IsSection t n above =
      let cx = fit.cols_fit in
      let ry = fit.rows_fit in
      let ix = fit.on_screen_x in
      let iy = fit.on_screen_y in
      let ci = n.col_in in
      let c = n.same_cols in
      let r = n.same_rows in
      let x0 : t.start_x ≡ s.start_x = ap (λ (b : ℕ × ℕ × ℕ × ℕ). b.0) n.same in
      let y0 : t.start_y ≡ s.start_y = ap (λ (b : ℕ × ℕ × ℕ × ℕ). b.1) n.same in
      let x1 : t.end_x ≡ s.end_x = ap (λ (b : ℕ × ℕ × ℕ × ℕ). b.2) n.same in
      let y1 : t.end_y ≡ s.end_y = ap (λ (b : ℕ × ℕ × ℕ × ℕ). b.3) n.same in
      record {
        on_screen_x = omega (arith, x1, ix);
        on_screen_y = omega (arith, y1, iy);
        cols_fit = omega (arith, x0, x1, cx, c);
        rows_fit = omega (arith, y0, y1, ry, r);
        col_in = omega (arith, ci, c);
        row_in = omega (arith, above, r);
      }

-- A section made for a place on the screen.
pub txt_section-IsSection :
    (fb : Framebuffer) (start_x start_y end_x end_y : ℕ)
    → IsFramebuffer fb
    → start_x + 8 ≤ end_x
    → start_y + 8 ≤ end_y
    → end_x ≤ fb.screen_width
    → end_y ≤ fb.screen_height
    → IsSection fb (txt_section start_x start_y end_x end_y 8 8)
unfolding txt_section
txt_section-IsSection fb start_x start_y end_x end_y wf hx hy ix iy =
    let sz = sizes fb wf start_x start_y (omega (arith, hx, ix)) (omega (arith, hy, iy)) in
    let n : sub32 end_x start_x ≡ end_x - start_x = omega (arith, hx, ix, sz.1) in
    let n' : sub32 end_y start_y ≡ end_y - start_y = omega (arith, hy, iy, sz.2) in
    record {
      on_screen_x = ix;
      on_screen_y = iy;
      cols_fit = omega (arith, n, hx);
      rows_fit = omega (arith, n', hy);
      col_in = omega (arith, n, hx);
      row_in = omega (arith, n', hy);
    }
