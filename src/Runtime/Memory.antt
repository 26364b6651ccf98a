-- ===== src/Runtime/Memory.antt =====
-- `memset`, `memcpy`, `memmove` and `memcmp` of kernel/lib/mem_util.cpp. A pointer is an address,
-- 0 for `nullptr`; a pointer that leaves its object is undefined in C, so addresses do not wrap.
use mio_os.Common.{ℕ, zero, suc, ◌+◌, ◌-◌, ◌%◌, ◌^◌, ltb, ◌==◌, if◌then◌else◌, ◌||◌}

-- The byte at each address.
abbrev pub Memory : Type 0
Memory = ℕ → ℕ

abbrev pub store_byte : Memory → ℕ → ℕ → Memory
store_byte m p v a = if a == p then v else m a

-- A difference of bytes as an `int`, in the bits that stand for it.
abbrev pub byte_diff : ℕ → ℕ → ℕ
byte_diff a b = (a + 2 ^ 32 - b) % 2 ^ 32

-- `while (count--) *p++ = val;`
unfoldable pub fill : Memory → ℕ → ℕ → ℕ → Memory
fill m p val zero = m
fill m p val (suc count) = fill (store_byte m p val) (p + 1) val count

unfoldable pub memset : Memory → ℕ → ℕ → ℕ → Memory × ℕ
unfolding fill
memset m dest val count = if dest == 0 then (m, 0) else (fill m dest val count, dest)

-- `while (count--) *d++ = *s++;`
unfoldable pub copy_up : Memory → ℕ → ℕ → ℕ → Memory
copy_up m d s zero = m
copy_up m d s (suc count) = copy_up (store_byte m d (m s)) (d + 1) (s + 1) count

unfoldable pub memcpy : Memory → ℕ → ℕ → ℕ → Memory × ℕ
unfolding copy_up
memcpy m dest src count =
    if (dest == 0) || (src == 0) then (m, 0) else (copy_up m dest src count, dest)

-- `while (count--) *--d = *--s;`
unfoldable pub copy_down : Memory → ℕ → ℕ → ℕ → Memory
copy_down m d s zero = m
copy_down m d s (suc count) =
    let d' = d - 1 in let s' = s - 1 in copy_down (store_byte m d' (m s')) d' s' count

unfoldable pub memmove : Memory → ℕ → ℕ → ℕ → Memory × ℕ
unfolding copy_up copy_down
memmove m dest src count =
    if (dest == 0) || (src == 0)
    then (m, 0)
    else if ltb dest src
    then (copy_up m dest src count, dest)
    else if ltb src dest
    then (copy_down m (dest + count) (src + count) count, dest)
    else (m, dest)

-- The loop of `memcmp`.
unfoldable pub compare_bytes : Memory → ℕ → ℕ → ℕ → ℕ
compare_bytes m p1 p2 zero = 0
compare_bytes m p1 p2 (suc count) =
    let rest = compare_bytes m (p1 + 1) (p2 + 1) count in
    if m p1 == m p2 then rest else byte_diff (m p1) (m p2)

unfoldable pub memcmp : Memory → ℕ → ℕ → ℕ → ℕ
unfolding compare_bytes
memcmp m s1 s2 count = if (s1 == 0) || (s2 == 0) then 0 else compare_bytes m s1 s2 count
