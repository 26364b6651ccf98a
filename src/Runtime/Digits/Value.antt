-- ===== src/Runtime/Digits/Value.antt =====
-- The text that `utoa` writes, read back, is the number.
use native.Mathlib.Nat.{div-add-mod, mod-lt, div-lt_iff_lt-mul}
use mio_os.Common.{
  ℕ, zero, suc, ◌+◌, ◌-◌, ◌*◌, ◌/◌, ◌%◌, ◌^◌, ◌≤◌, ◌<◌, ◌≡◌, ◌≢◌, ◌⊎◌, inl, inr, refl, arith, ltb,
  leb, ◌==◌, if◌then◌else◌, ◌&&◌, some, List, [], ◌∷◌, ◌++◌, ◌∙◌, Bool-cases,
}
use mio_os.Common.Seq.{length}
use mio_os.Common.Bits.{mul-two-pow-suc}
use mio_os.Runtime.Memory.{Memory, store_byte}
use mio_os.Runtime.Text.Strings.{IsString}
use mio_os.Runtime.Digits.{chars, extract}
use mio_os.Runtime.Digits.Reverse.{at, rev}

-- A character as a digit, and a text as a number in a base.
abbrev pub digit_of : ℕ → ℕ
digit_of c = if ltb c 58 then c - 48 else c - 55

abbrev pub parse : ℕ → ℕ → List ℕ → ℕ
parse base acc [] = acc
parse base acc (c ∷ s) = parse base (acc * base + digit_of c) s

-- Every character is `0`–`9` or `A`–`F`, and stands for a digit below the base.
abbrev pub IsNumeral : ℕ → List ℕ → Type 0
IsNumeral base [] = Unit {0}
IsNumeral base (c ∷ s) =
    (((48 ≤ c) × (c < 58)) ⊎ ((65 ≤ c) × (c < 71))) × (digit_of c < base) × IsNumeral base s

-- The same numeral from its lowest digit on.
abbrev pub weigh : ℕ → List ℕ → ℕ
weigh base [] = 0
weigh base (c ∷ s) = digit_of c + base * weigh base s

parse-snoc :
    (base acc : ℕ) (s : List ℕ) (c : ℕ)
    → parse base acc (s ++ (c ∷ [])) ≡ parse base acc s * base + digit_of c
parse-snoc base acc [] c = refl
parse-snoc base acc (d ∷ s) c = parse-snoc base (acc * base + digit_of d) s c

pub parse-rev : (base : ℕ) (s : List ℕ) → parse base 0 (rev s) ≡ weigh base s
parse-rev base [] = refl
parse-rev base (c ∷ s) = parse-snoc base 0 (rev s) c ∙ rw (parse-rev base s) (grind arith)

IsNumeral-append :
    (base : ℕ) (s t : List ℕ) → IsNumeral base s → IsNumeral base t → IsNumeral base (s ++ t)
IsNumeral-append base [] t n n' = n'
IsNumeral-append base (c ∷ s) t n n' = (n.0, n.1, IsNumeral-append base s t n.2 n')

pub IsNumeral-rev : (base : ℕ) (s : List ℕ) → IsNumeral base s → IsNumeral base (rev s)
IsNumeral-rev base [] n = tt
IsNumeral-rev base (c ∷ s) n =
    IsNumeral-append base (rev s) (c ∷ []) (IsNumeral-rev base s n.2) (n.0, n.1, tt)

abbrev pub digit : ℕ → ℕ
digit d = if ltb d 10 then 48 + d else 55 + d

chars-digit : (d : ℕ) → d < 16 → chars d ≡ some (digit d)
unfolding chars
chars-digit d h = ground arith

abbrev pub write_all : Memory → ℕ → List ℕ → Memory
write_all m a [] = m
write_all m a (c ∷ s) = write_all (store_byte m a c) (a + 1) s

pub write_all-eq :
    (m : Memory) (a : ℕ) (s : List ℕ) (x : ℕ)
    → write_all m a s x ≡ (if leb a x && ltb x (a + length s) then at s (x - a) else m x)
write_all-eq m a [] x = ground arith
write_all-eq m a (c ∷ s) x = elim (Bool-cases (leb (a + 1) x)) [
  | inl h ↦
      let e : x - a ≡ suc (x - (a + 1)) = ground arith in
      write_all-eq (store_byte m a c) (a + 1) s x ∙ rw e (ground arith)
  | inr h ↦ write_all-eq (store_byte m a c) (a + 1) s x ∙ ground arith
]

quotient-lt : (base v f : ℕ) → 2 ≤ base → v < 2 ^ suc f → v / base < 2 ^ f
quotient-lt base v f two h =
    (div-lt_iff_lt-mul {k = base} {x = v} {y = 2 ^ f} (omega arith)).1
      (grind (arith, mul-two-pow-suc 1 f))

-- The digits of `v`, from the lowest on.
abbrev pub digits : ℕ → ℕ → ℕ → List ℕ
digits zero v base = []
digits (suc f) v base = if v == 0 then [] else digit (v % base) ∷ digits f (v / base) base

digit-IsDigit :
    (d : ℕ)
    → d < 16
    → (((48 ≤ digit d) × (digit d < 58)) ⊎ ((65 ≤ digit d) × (digit d < 71)))
      × (digit_of (digit d) ≡ d)
digit-IsDigit d h = elim (Bool-cases (ltb d 10)) [
  | inl e ↦ rw e (inl (ground arith, ground arith), ground arith)
  | inr e ↦ rw e (inr (ground arith, ground arith), ground arith)
]

module _ (base : ℕ) (two : 2 ≤ base) (top : base ≤ 16) where
  digit-lt : (v : ℕ) → v % base < 16
  digit-lt v = omega (arith, mod-lt v {m = base} (omega arith))

  pub extract-digits :
      (f : ℕ) (m : Memory) (ptr v : ℕ)
      → v < 2 ^ f
      → extract (suc f) m ptr v base
        ≡ some (write_all m ptr (digits f v base), ptr + length (digits f v base))
  unfolding extract
  extract-digits zero m ptr v h = ground arith
  extract-digits (suc f) m ptr v h = elim (Bool-cases (v == 0)) [
    | inl e ↦ rw e (ground arith)
    | inr e ↦
        rw (e, chars-digit (v % base) (digit-lt v))
          (extract-digits f (store_byte m ptr (digit (v % base))) (ptr + 1) (v / base)
              (quotient-lt base v f two h)
            ∙ ground arith)
  ]

  pub weigh-digits : (f v : ℕ) → v < 2 ^ f → weigh base (digits f v base) ≡ v
  weigh-digits zero v h = omega arith
  weigh-digits (suc f) v h = elim (Bool-cases (v == 0)) [
    | inl e ↦ rw e (ground arith)
    | inr e ↦
        rw
          (
            e,
            weigh-digits f (v / base) (quotient-lt base v f two h),
            (digit-IsDigit (v % base) (digit-lt v)).1,
          )
          (omega (arith, div-add-mod v base))
  ]

  pub digits-IsNumeral : (f v : ℕ) → IsNumeral base (digits f v base)
  digits-IsNumeral zero v = tt
  digits-IsNumeral (suc f) v = elim (Bool-cases (v == 0)) [
    | inl e ↦ rw e tt
    | inr e ↦
        let d = digit-IsDigit (v % base) (digit-lt v) in
        rw e (d.0, rw (d.1) (mod-lt v {m = base} (omega arith)), digits-IsNumeral f (v / base))
  ]

pub length-digits : (f v base : ℕ) → length (digits f v base) ≤ f
length-digits zero v base = omega arith
length-digits (suc f) v base = ground (arith, length-digits f (v / base) base)

pub length-digits_pos : (f v base : ℕ) → v ≢ 0 → 0 < length (digits (suc f) v base)
length-digits_pos f v base ne = ground arith

pub IsString-at :
    (base : ℕ) (m : Memory) (a : ℕ) (s : List ℕ)
    → IsNumeral base s
    → ((i : ℕ) → i < length s → m (a + i) ≡ at s i)
    → m (a + length s) ≡ 0
    → IsString m a s
IsString-at base m a [] n same end = ground arith
IsString-at base m a (c ∷ s) n same end = (
  ground (arith, same 0),
  ground arith,
  ground arith,
  IsString-at base m (a + 1) s n.2 (λ i h. ground (arith, same (suc i))) (ground arith),
)
