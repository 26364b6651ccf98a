-- ===== src/Runtime/Digits/Reverse.antt =====
-- The digits as a list: what `extract` writes, and what the swaps make of it.
use mio_os.Common.{
  ℕ, zero, suc, ◌+◌, ◌-◌, ◌≤◌, ◌<◌, ◌≡◌, refl, arith, ltb, leb, if◌then◌else◌, ◌&&◌, List, [], ◌∷◌,
  ◌++◌, ◌∙◌, ◌⊎◌, inl, inr, Bool-cases, ltb→lt, false,
}
use mio_os.Common.Seq.{length}
use mio_os.Runtime.Memory.{Memory, store_byte}
use mio_os.Runtime.Digits.{reverse_bytes}

-- The element at an index, 0 behind the end.
abbrev pub at : List ℕ → ℕ → ℕ
at [] i = 0
at (c ∷ s) zero = c
at (c ∷ s) (suc i) = at s i

abbrev pub rev : List ℕ → List ℕ
rev [] = []
rev (c ∷ s) = rev s ++ (c ∷ [])

pub length-append : (s t : List ℕ) → length (s ++ t) ≡ length s + length t
length-append [] t = omega arith
length-append (c ∷ s) t = omega (arith, length-append s t)

pub length-rev : (s : List ℕ) → length (rev s) ≡ length s
length-rev [] = refl
length-rev (c ∷ s) = omega (arith, length-append (rev s) (c ∷ []), length-rev s)

at-append :
    (s t : List ℕ) (i : ℕ)
    → at (s ++ t) i ≡ (if ltb i (length s) then at s i else at t (i - length s))
at-append [] t i = ground arith
at-append (c ∷ s) t zero = ground arith
at-append (c ∷ s) t (suc i) = ground (arith, at-append s t i)

pub at-rev : (s : List ℕ) (i : ℕ) → i < length s → at (rev s) i ≡ at s (length s - 1 - i)
at-rev [] i h = absurd (omega arith)
at-rev (c ∷ s) i h = elim (lt_or_eq i (length s) (omega arith)) [
  | inl below ↦
      let e : suc (length s) - 1 - i ≡ suc (length s - 1 - i) = omega arith in
      rw e (ground (arith, at-append (rev s) (c ∷ []) i, length-rev s, at-rev s i below))
  | inr last ↦
      let e : suc (length s) - 1 - i ≡ 0 = omega arith in
      let e' : i - length s ≡ 0 = omega arith in
      rw e (at-append (rev s) (c ∷ []) i ∙ rw (length-rev, e') (ground arith))
]
  where
    lt_or_eq : (a b : ℕ) → a < suc b → (a < b) ⊎ (a ≡ b)
    lt_or_eq a b h = elim (Bool-cases (ltb a b)) [
      | inl e ↦ inl (ground arith)
      | inr e ↦ inr (ground arith)
    ]

abbrev swapped : Memory → ℕ → ℕ → Memory
swapped m start end = store_byte (store_byte m start (m end)) end (m start)

settled :
    (m : Memory) (start end a : ℕ)
    → ltb start end ≡ false
    → start ≤ end + 1
    → m a ≡ (if leb start a && leb a end then m (start + end - a) else m a)
settled m start end a done order = ground arith

-- One swap, and the rest turned round between.
once :
    (m : Memory) (start end a : ℕ)
    → start < end
    → (if leb (start + 1) a && leb a (end - 1)
        then swapped m start end (start + 1 + (end - 1) - a)
        else swapped m start end a)
      ≡ (if leb start a && leb a end then m (start + end - a) else m a)
once m start end a lt = ground arith

-- The swaps turn the bytes round.
pub reverse_bytes-eq :
    (rounds : ℕ) (m : Memory) (start end a : ℕ)
    → end ≤ start + rounds
    → start ≤ end + 1
    → reverse_bytes rounds m start end a
      ≡ (if leb start a && leb a end then m (start + end - a) else m a)
unfolding reverse_bytes
reverse_bytes-eq zero m start end a enough order = ground arith
reverse_bytes-eq (suc rounds) m start end a enough order = elim (Bool-cases (ltb start end)) [
  | inr done ↦ rw done (settled m start end a done order)
  | inl more ↦
      let lt = ltb→lt start end more in
      rw more (
        reverse_bytes-eq rounds (swapped m start end) (start + 1) (end - 1) a (omega arith)
          (omega arith)
        ∙ once m start end a lt)
]
