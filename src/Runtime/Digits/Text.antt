-- ===== src/Runtime/Digits/Text.antt =====
-- The strings that `utoa` and `itoa` leave in the memory.
use mio_os.Common.{
  ℕ, ◌+◌, ◌-◌, ◌^◌, ◌≤◌, ◌<◌, ◌≡◌, ◌≢◌, ◌⊎◌, inl, inr, refl, arith, ltb, leb, ◌==◌, if◌then◌else◌,
  ◌||◌, ◌&&◌, some, List, [], ◌∷◌, ◌∙◌, false, true, Bool-cases, sub64,
}
use mio_os.Common.Seq.{length}
use mio_os.Runtime.Memory.{Memory, store_byte}
use mio_os.Runtime.Text.Copy.{Written}
use mio_os.Runtime.Digits.{utoa, itoa, reverse_bytes}
use mio_os.Runtime.Digits.Reverse.{at, rev, at-rev, length-rev, reverse_bytes-eq}
use mio_os.Runtime.Digits.Value.{
  parse, IsNumeral, parse-rev, IsNumeral-rev, write_all, write_all-eq, digits, weigh-digits,
  digits-IsNumeral, length-digits, length-digits_pos, extract-digits, IsString-at,
}

-- The bytes after the loops: the digits turned round, then the zero byte.
module _ (m : Memory) (str : ℕ) (s : List ℕ) (some_digit : 0 < length s)
    (fits : length s ≤ 64) where
  abbrev last : ℕ
  last = str + length s - 1

  abbrev ended : Memory
  ended = store_byte (write_all m str s) (str + length s) 0

  abbrev turned : Memory
  turned = reverse_bytes 64 ended str last

  turned-eq :
      (a : ℕ) → turned a ≡ (if leb str a && leb a last then ended (str + last - a) else ended a)
  turned-eq a = reverse_bytes-eq 64 ended str last a (omega arith) (omega arith)

  turned-inside : (i : ℕ) → i < length s → turned (str + i) ≡ at (rev s) i
  turned-inside i h =
      let j = str + last - (str + i) in
      let e : j - str ≡ length s - 1 - i = omega arith in
      let e' : j ≡ str + (length s - 1 - i) = omega arith in
      let inside : (leb str (str + i) && leb (str + i) last) ≡ true = ground arith in
      turned-eq (str + i)
      ∙ rw inside (
          let w = write_all-eq m str s j in let r = at-rev s i h in rw (r, ← e) (ground (arith, w)))

  turned-end : turned (str + length s) ≡ 0
  turned-end = turned-eq (str + length s) ∙ ground arith

  turned-outside : (a : ℕ) → (a < str) ⊎ (str + length s < a) → turned a ≡ m a
  turned-outside a (inl h) = turned-eq a ∙ ground (arith, write_all-eq m str s a)
  turned-outside a (inr h) = turned-eq a ∙ ground (arith, write_all-eq m str s a)

-- The text of `value` in `base` stands at `str`, and nothing else has changed.
abbrev pub Printed : Memory → ℕ → Memory → ℕ → ℕ → ℕ → Type 0
Printed m from m' str base value =
    (s : List ℕ) × Written m from m' str s
    × IsNumeral base s
    × (parse base 0 s ≡ value)
    × (length s ≤ 64)

turned-Printed :
    (base : ℕ)
    → 2 ≤ base
    → base ≤ 16
    → (m : Memory) (value str : ℕ) → value ≢ 0
    → value < 2 ^ 64
    → (m' : Memory) × (m'
        ≡ reverse_bytes 64
            (store_byte
              (write_all m str (digits 64 value base))
              (str + length (digits 64 value base))
              0)
            str
            (str + length (digits 64 value base) - 1))
      × Printed m str m' str base value
turned-Printed base two top m value str ne small =
    let s = digits 64 value base in
    let pos = length-digits_pos 63 value base ne in
    let fits = length-digits 64 value base in
    let same = length-rev s in
    let numeral = IsNumeral-rev base s (digits-IsNumeral base two top 64 value) in
    (
      turned m str s pos fits,
      refl,
      (
        rev s,
        (
          IsString-at base (turned m str s pos fits) str (rev s) numeral
              (λ i h. turned-inside m str s pos fits i (omega arith))
              (rw same (turned-end m str s pos fits)),
          λ a out. turned-outside m str s pos fits a (rw (← same) out),
        ),
        numeral,
        parse-rev base s ∙ weigh-digits base two top 64 value small,
        omega arith,
      ),
    )

-- For a value below 2 ^ 64, a base from 2 to 16 and a pointer that is not null, `utoa` ends and
-- leaves at the pointer a string of at most 64 characters, all digits of the base, that reads as
-- the value in that base; no byte outside of the string and its zero has changed.
pub utoa-Printed :
    (m : Memory) (value str base : ℕ)
    → value < 2 ^ 64
    → str ≢ 0
    → 2 ≤ base
    → base ≤ 16
    → (m' : Memory) × (utoa m value str base ≡ some (m', str)) × Printed m str m' str base value
unfolding utoa
utoa-Printed m value str base small ne two top =
    let off : (str == 0) ≡ false = ground arith in
    let ok : (ltb base 2 || ltb 36 base) ≡ false = ground arith in
    elim (Bool-cases (value == 0)) [
      | inl z ↦ (
        store_byte (store_byte m str 48) (str + 1) 0,
        rw (off, ok, z) refl,
        (
          48 ∷ [],
          ((ground arith, omega arith, omega arith, ground arith), λ x out. ground arith),
          (inl (omega arith, omega arith), omega arith, tt),
          ground arith,
          omega arith,
        ),
      )
      | inr nz ↦
          let t = turned-Printed base two top m value str (ground arith) small in
          (t.0, rw (off, ok, nz, extract-digits base two top 64 m str value small, t.1) refl, t.2)
    ]

-- What `itoa` leaves for a negative number: the sign, and the text of the magnitude.
abbrev pub PrintedNegative : Memory → ℕ → Memory → ℕ → Type 0
PrintedNegative m str m' value =
    (s : List ℕ) × Written m str m' str (45 ∷ s) × IsNumeral 10 s × (parse 10 0 s + value ≡ 2 ^ 64)

signed :
    (m m' : Memory) (value str : ℕ)
    → 2 ^ 63 ≤ value
    → value < 2 ^ 64
    → Printed (store_byte m str 45) (str + 1) m' (str + 1) 10 (sub64 0 value)
    → PrintedNegative m str m' value
signed m m' value str neg small (s, w, n, e, fits) = (
  s,
  ((w.1 str (inl (omega arith)) ∙ ground arith, omega arith, omega arith, w.0), outside),
  n,
  omega arith,
)
  where
    outside : (x : ℕ) → (x < str) ⊎ (str + length (45 ∷ s) < x) → m' x ≡ m x
    outside x (inl h) = w.1 x (inl (omega arith)) ∙ ground arith
    outside x (inr h) = w.1 x (inr (omega arith)) ∙ ground arith

-- For a 64-bit pattern and a pointer that is not null, `itoa` in base 10 leaves the decimal text
-- of a non-negative number, and for a negative one a minus sign and the text of its magnitude,
-- that of the least number included; no byte outside of the string has changed.
pub itoa-Printed :
    (m : Memory) (value str : ℕ)
    → value < 2 ^ 64
    → str ≢ 0
    → (m' : Memory) × (itoa m value str 10 ≡ some (m', str))
      × (if ltb value (2 ^ 63)
          then Printed m str m' str 10 value
          else PrintedNegative m str m' value)
unfolding itoa
itoa-Printed m value str small ne =
    let off : (str == 0) ≡ false = ground arith in
    elim (Bool-cases (leb (2 ^ 63) value)) [
      | inl neg ↦
          let ge : ltb value (2 ^ 63) ≡ false = ground arith in
          let t =
            (utoa-Printed (store_byte m str 45) (sub64 0 value) (str + 1) 10 (omega arith)
              (ground arith) (omega arith) (omega arith)) in
          (t.0, rw (off, neg, t.1) refl, rw ge (signed m t.0 value str (ground arith) small t.2))
      | inr pos ↦
          let lt : ltb value (2 ^ 63) ≡ true = ground arith in
          let t = utoa-Printed m value str 10 small ne (omega arith) (omega arith) in
          (t.0, rw (off, pos, t.1) refl, rw lt t.2)
    ]
