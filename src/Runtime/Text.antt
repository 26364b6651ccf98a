-- ===== src/Runtime/Text.antt =====
-- Strings that end in a zero byte: kernel/lib/string_util.cpp up to `strcat`. A loop over a string
-- has fuel for its characters; `none` means that the fuel ran out.
pub mod Strings
pub mod Copy
use mio_os.Common.{
  ℕ, zero, suc, ◌+◌, ◌-◌, ◌==◌, ◌!=◌, if◌then◌else◌, ◌||◌, ◌&&◌, Option, none, some,
}
use mio_os.Runtime.Memory.{Memory, store_byte, byte_diff}

-- `while (str[len]) len++;`
unfoldable pub count_chars : ℕ → Memory → ℕ → ℕ → Option ℕ
count_chars zero m str len = none
count_chars (suc fuel) m str len =
    let rest = count_chars fuel m str (len + 1) in if m (str + len) == 0 then some len else rest

unfoldable pub strlen : ℕ → Memory → ℕ → Option ℕ
unfolding count_chars
strlen fuel m str = if str == 0 then some 0 else count_chars fuel m str 0

-- `while (*s1 && (*s1 == *s2))` and the difference behind it.
unfoldable pub compare_strings : ℕ → Memory → ℕ → ℕ → Option ℕ
compare_strings zero m s1 s2 = none
compare_strings (suc fuel) m s1 s2 =
    let rest = compare_strings fuel m (s1 + 1) (s2 + 1) in
    if (m s1 != 0) && (m s1 == m s2) then rest else some (byte_diff (m s1) (m s2))

unfoldable pub strcmp : ℕ → Memory → ℕ → ℕ → Option ℕ
unfolding compare_strings
strcmp fuel m s1 s2 = if (s1 == 0) || (s2 == 0) then some 0 else compare_strings fuel m s1 s2

-- The loop of `strncmp`, by the count. `count-- > 0` holds each time, since the body returns when
-- the count has come down to 0.
unfoldable pub compare_prefix : Memory → ℕ → ℕ → ℕ → ℕ
compare_prefix m s1 s2 zero = byte_diff (m s1) (m s2)
compare_prefix m s1 s2 (suc count) =
    let rest = compare_prefix m (s1 + 1) (s2 + 1) count in
    if (m s1 != 0) && (m s1 == m s2)
    then if count == 0 then 0 else rest
    else byte_diff (m s1) (m s2)

unfoldable pub strncmp : Memory → ℕ → ℕ → ℕ → ℕ
unfolding compare_prefix
strncmp m s1 s2 count =
    if (s1 == 0) || (s2 == 0) then 0 else if count == 0 then 0 else compare_prefix m s1 s2 count

-- `while ((*d++ = *src++));`
unfoldable pub copy_string : ℕ → Memory → ℕ → ℕ → Option Memory
copy_string zero m d src = none
copy_string (suc fuel) m d src =
    let m' = store_byte m d (m src) in
    let rest = copy_string fuel m' (d + 1) (src + 1) in if m src == 0 then some m' else rest

unfoldable pub strcpy : ℕ → Memory → ℕ → ℕ → Option (Memory × ℕ)
unfolding copy_string
strcpy fuel m dest src =
    if (dest == 0) || (src == 0)
    then some (m, 0)
    else elim (copy_string fuel m dest src) [ none ↦ none | some m' ↦ some (m', dest) ]

-- `while (*d) d++;`
unfoldable pub find_end : ℕ → Memory → ℕ → Option ℕ
find_end zero m d = none
find_end (suc fuel) m d = let rest = find_end fuel m (d + 1) in if m d == 0 then some d else rest

unfoldable pub strcat : ℕ → Memory → ℕ → ℕ → Option (Memory × ℕ)
unfolding copy_string find_end
strcat fuel m dest src =
    if (dest == 0) || (src == 0) then some (m, 0) else elim (find_end fuel m dest) [
      | none ↦ none
      | some d ↦ elim (copy_string fuel m d src) [ none ↦ none | some m' ↦ some (m', dest) ]
    ]

-- `while (count > 0) { *d++ = '\0'; count--; }`
unfoldable pub pad : Memory → ℕ → ℕ → Memory
pad m d zero = m
pad m d (suc count) = pad (store_byte m d 0) (d + 1) count

-- `while (count > 0 && *src)`, and the padding behind it.
unfoldable pub copy_prefix : Memory → ℕ → ℕ → ℕ → Memory
unfolding pad
copy_prefix m d src zero = m
copy_prefix m d src (suc count) =
    let rest = copy_prefix (store_byte m d (m src)) (d + 1) (src + 1) count in
    if m src != 0 then rest else pad m d (suc count)

unfoldable pub strncpy : Memory → ℕ → ℕ → ℕ → Memory × ℕ
unfolding copy_prefix
strncpy m dest src count =
    if (dest == 0) || (src == 0) then (m, 0) else (copy_prefix m dest src count, dest)
