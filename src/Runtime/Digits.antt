-- ===== src/Runtime/Digits.antt =====
-- `utoa` and `itoa` of kernel/lib/string_util.cpp. `none` stands for a read outside of the table of
-- digits, which is undefined, or for fuel that ran out.
pub mod Reverse
pub mod Value
pub mod Text
use mio_os.Common.{
  ℕ, zero, suc, ◌+◌, ◌-◌, ◌/◌, ◌%◌, ◌^◌, ltb, leb, ◌==◌, if◌then◌else◌, ◌||◌, ◌&&◌, Option, none,
  some, sub64,
}
use mio_os.Runtime.Memory.{Memory, store_byte}

-- `chars[n]`, with the zero byte at the end of the literal.
unfoldable pub chars : ℕ → Option ℕ
chars n =
    if ltb n 10
    then some (48 + n)
    else if ltb n 16
    then some (55 + n)
    else if n == 16
    then some 0
    else none

-- `while (value > 0)`: the digits from the lowest on.
unfoldable pub extract : ℕ → Memory → ℕ → ℕ → ℕ → Option (Memory × ℕ)
unfolding chars
extract zero m ptr value base = none
extract (suc fuel) m ptr value base =
    let rest = λ (c : ℕ). extract fuel (store_byte m ptr c) (ptr + 1) (value / base) base in
    if value == 0
    then some (m, ptr)
    else elim (chars (value % base)) [ none ↦ none | some c ↦ rest c ]

-- `while (start < end)`: a swap of the outermost two bytes, at most `rounds` times.
unfoldable pub reverse_bytes : ℕ → Memory → ℕ → ℕ → Memory
reverse_bytes zero m start end = m
reverse_bytes (suc rounds) m start end =
    let m' = store_byte (store_byte m start (m end)) end (m start) in
    let rest = reverse_bytes rounds m' (start + 1) (end - 1) in if ltb start end then rest else m

-- 64 digits at most, and the last test of the loop. A negative `base` has a bit pattern above 36.
unfoldable pub utoa : Memory → ℕ → ℕ → ℕ → Option (Memory × ℕ)
utoa m value str base =
    if str == 0
    then some (m, 0)
    else if ltb base 2 || ltb 36 base
    then some (store_byte m str 0, str)
    else if value == 0
    then some (store_byte (store_byte m str 48) (str + 1) 0, str)
    else elim (extract 65 m str value base) [
      | none ↦ none
      | some (m', ptr) ↦ some (reverse_bytes 64 (store_byte m' ptr 0) str (ptr - 1), str)
    ]

-- `value` is the bit pattern of an `int64_t`, `-value` wraps as the machine does.
unfoldable pub itoa : Memory → ℕ → ℕ → ℕ → Option (Memory × ℕ)
itoa m value str base =
    if str == 0
    then some (m, 0)
    else if (base == 10) && leb (2 ^ 63) value
    then elim (utoa (store_byte m str 45) (sub64 0 value) (str + 1) base) [
      | none ↦ none
      | some (m', p) ↦ some (m', str)
    ]
    else elim (utoa m value str base) [ none ↦ none | some (m', p) ↦ some (m', str) ]
