-- ===== src/Graphics/Console/Inside.antt =====
-- What text leaves alone, and where the cursor stands.
use mio_os.Common.{
  ℕ, ◌+◌, ◌*◌, ◌<◌, ◌≡◌, inl, inr, refl, sym, arith, ◌∙◌, subst, u32, leb, ◌==◌, Bool-cases, List,
  [], ◌∷◌, sub64,
}
use mio_os.Runtime.Memory.{Memory}
use mio_os.Graphics.Framebuffer.{Framebuffer}
use mio_os.Graphics.Framebuffer.Places.{IsFramebuffer}
use mio_os.Graphics.Console.{TxtSection, next_coords, place_char, kputchar, kputs}
use mio_os.Graphics.Console.Scroll.{scroll-kept}
use mio_os.Graphics.Console.Kept.{draw_char-kept}
use mio_os.Graphics.Console.Section.{
  IsSection, bounds, OutsideBox, IsNext, section_sizes, next_coords-IsNext, next-IsBox,
  next-IsSection,
}

module _ (fb : Framebuffer) (wf : IsFramebuffer fb) (s : TxtSection) (fit : IsSection fb s) where
  place_char-kept :
      (m : Memory) (color c a : ℕ) → OutsideBox fb (bounds s) a → place_char fb m color c s a ≡ m a
  unfolding place_char
  place_char-kept m color c a out =
      let sz = section_sizes fb wf s fit in
      let cx = fit.cols_fit in
      let ry = fit.rows_fit in
      let ci = fit.col_in in
      let ri = fit.row_in in
      let px : u32 (s.start_x + s.col * 8) ≡ s.start_x + s.col * 8 = omega (arith, cx, ci, sz.2) in
      let py : u32 (s.start_y + s.row * 8) ≡ s.start_y + s.row * 8 = omega (arith, ry, ri, sz.3) in
      elim (Bool-cases (c == 10)) [
        | inl newline ↦ rw newline refl
        | inr other ↦
            rw (other, px, py)
              (draw_char-kept fb wf a (s.start_x + s.col * 8) (s.start_y + s.row * 8) c color m
                (λ x y h h' k k'.
                  out x y (omega arith) (omega (arith, cx, ci, h')) (omega arith)
                    (omega (arith, ry, ri, k')))
                (omega (arith, cx, ci, sz.2)) (omega (arith, ry, ri, sz.3)))
      ]

  -- What a call leaves, at one byte of the memory.
  abbrev Written : Memory → ℕ → Memory × TxtSection → Type 0
  Written m a r = IsSection fb r.1 × (bounds r.1 ≡ bounds s) × (r.0 a ≡ m a)

  kputchar-Written :
      (m : Memory) (color c a : ℕ)
      → OutsideBox fb (bounds s) a
      → Written m a (kputchar fb m color c s)
  unfolding kputchar
  kputchar-Written m color c a out =
      let drawn = place_char fb m color c s in
      let next = next_coords s c in
      let n = next_coords-IsNext fb wf s fit c in
      let kept = place_char-kept m color c a out in
      let rows = n.same_rows in
      let some_row = fit.row_in in
      let sz = section_sizes fb wf s fit in
      elim (Bool-cases (leb next.max_rows next.row)) [
        | inl below ↦
            let last : sub64 next.max_rows 1 < s.max_rows = omega (arith, rows, some_row, sz.1) in
            let n' : IsNext s (record next { row = sub64 next.max_rows 1 }) = record {
              same = n.same;
              same_cols = n.same_cols;
              same_rows = n.same_rows;
              col_in = n.col_in;
              row_in = omega (arith, last);
            } in
            rw below (
              next-IsSection fb wf s fit (record next { row = sub64 next.max_rows 1 }) n' last,
              n.same,
              scroll-kept fb wf next (next-IsBox fb wf s fit next n) a
                    (subst (λ (b : ℕ × ℕ × ℕ × ℕ). OutsideBox fb b a) (sym n.same) out) drawn
                  ∙ kept,
            )
        | inr within ↦
            let above : next.row < s.max_rows = ground (arith, within, rows) in
            rw within (next-IsSection fb wf s fit next n above, n.same, kept)
      ]

-- For such a frame buffer and a section on the screen whose columns and rows fit between its
-- edges, with the cursor in it, any string leaves the section where it was, on the screen, with
-- the cursor in it, whatever lines it wraps and however often it scrolls; and every byte of the
-- memory that belongs to no pixel of the section, inside the frame buffer or outside of it, is as
-- before.
pub kputs-Inside :
    (fb : Framebuffer) (m : Memory) (color : ℕ) (str : List ℕ) (s : TxtSection) (a : ℕ)
    → IsFramebuffer fb
    → IsSection fb s
    → OutsideBox fb (bounds s) a
    → IsSection fb (kputs fb m color str s).1
      × (bounds (kputs fb m color str s).1 ≡ bounds s)
      × ((kputs fb m color str s).0 a ≡ m a)
unfolding kputs
kputs-Inside fb m color [] s a wf fit out = (fit, refl, refl)
kputs-Inside fb m color (c ∷ str) s a wf fit out =
    let (fit', same, kept) = kputchar-Written fb wf s fit m color c a out in
    let r = kputchar fb m color c s in
    let (fit'', same', kept') =
      kputs-Inside fb r.0 color str r.1 a wf fit'
        (subst (λ (b : ℕ × ℕ × ℕ × ℕ). OutsideBox fb b a) (sym same) out) in
    (fit'', same' ∙ same, kept' ∙ kept)
