-- ===== src/Graphics/Line/Step.antt =====
-- The arithmetic of one round of `draw_line`, with `p` columns and `q` rows left of `D` and `Y`.
use mio_os.Common.{
  ℕ, suc, ◌+◌, ◌-◌, ◌*◌, ◌^◌, ◌<◌, ◌≤◌, ◌≡◌, ◌⊎◌, inl, inr, arith, u32, ltb, leb, true, false,
  if◌then◌else◌,
}
use mio_os.Graphics.Line.{add32, neg32, int_le}

-- The bits `e` stand for `a - b`, which is small.
pub record IsError (D Y e a b : ℕ) : Type 0 where
  pub stands : ((e < 2 ^ 31) × (e + b ≡ a)) ⊎ ((2 ^ 31 ≤ e) × (e + b ≡ a + 2 ^ 32))
  pub word : e < 2 ^ 32
  pub above : 2 * a ≤ 2 * b + 3 * D
  pub below : 2 * b ≤ 2 * a + 3 * Y

module _ (D Y e a b : ℕ) (small : D < 2 ^ 29) (small' : Y < 2 ^ 29) (h : IsError D Y e a b) where
  pub x_moves_iff : int_le (neg32 Y) (u32 (2 * e)) ≡ leb (2 * b) (2 * a + Y)
  x_moves_iff =
      let s = h.stands in
      let up = h.above in let down = h.below in let w = h.word in ground (arith, s, up, down, w)

  pub y_moves_iff : int_le (u32 (2 * e)) D ≡ leb (2 * a) (2 * b + D)
  y_moves_iff =
      let s = h.stands in
      let up = h.above in let down = h.below in let w = h.word in ground (arith, s, up, down, w)

  -- A move to the next column alone, to the next row alone, and both.
  pub to_column : (a' : ℕ) → a ≡ a' + Y → 2 * b ≤ 2 * a + Y → IsError D Y (add32 e (neg32 Y)) a' b
  to_column a' same moves =
      let s = h.stands in
      let up = h.above in
      let down = h.below in
      let w = h.word in
      record {
        stands = ground (arith, s, up, down, w);
        word = omega arith;
        above = omega (arith, up);
        below = omega (arith, moves);
      }

  pub to_row : (b' : ℕ) → b ≡ b' + D → 2 * a ≤ 2 * b + D → IsError D Y (add32 e D) a b'
  to_row b' same moves =
      let s = h.stands in
      let up = h.above in
      let down = h.below in
      let w = h.word in
      record {
        stands = ground (arith, s, up, down, w);
        word = omega arith;
        above = omega (arith, moves);
        below = omega (arith, down);
      }

  pub to_both :
      (a' b' : ℕ)
      → a ≡ a' + Y
      → b ≡ b' + D
      → 2 * b ≤ 2 * a + Y
      → 2 * a ≤ 2 * b + D
      → IsError D Y (add32 (add32 e (neg32 Y)) D) a' b'
  to_both a' b' same same' moves moves' =
      let s = h.stands in
      let up = h.above in
      let down = h.below in
      let w = h.word in
      record {
        stands = ground (arith, s, up, down, w);
        word = omega arith;
        above = omega (arith, moves');
        below = omega (arith, moves);
      }

-- The coordinate `x`, on its way from `x0` to `x1`, with `p` left.
abbrev pub IsAt : (x0 x1 p x : ℕ) → Type 0
IsAt x0 x1 p x = ((x0 < x1) × (x + p ≡ x1) × (x0 ≤ x)) ⊎ ((x1 ≤ x0) × (x ≡ x1 + p) × (x ≤ x0))

pub IsAt-next :
    (x0 x1 p x : ℕ)
    → x0 < 2 ^ 29
    → x1 < 2 ^ 29
    → IsAt x0 x1 (suc p) x
    → IsAt x0 x1 p (add32 x (if ltb x0 x1 then 1 else 2 ^ 32 - 1))
IsAt-next x0 x1 p x small small' (inl (lt, e, ge)) =
    let up : ltb x0 x1 ≡ true = ground arith in rw up (inl (lt, omega arith, omega arith))
IsAt-next x0 x1 p x small small' (inr (le, e, below)) =
    let down : ltb x0 x1 ≡ false = ground arith in rw down (inr (le, omega arith, omega arith))

-- Between the two ends.
abbrev pub Between : (x0 x1 x : ℕ) → Type 0
Between x0 x1 x = ((x0 ≤ x) × (x ≤ x1)) ⊎ ((x1 ≤ x) × (x ≤ x0))

pub IsAt-Between : (x0 x1 p x : ℕ) → IsAt x0 x1 p x → Between x0 x1 x
IsAt-Between x0 x1 p x (inl (lt, e, ge)) = inl (ge, omega arith)
IsAt-Between x0 x1 p x (inr (le, e, below)) = inr (omega arith, below)
