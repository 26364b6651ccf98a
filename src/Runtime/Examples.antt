-- ===== src/Runtime/Examples.antt =====
-- The functions of kernel/lib on small memories.
use mio_os.Common.{ℕ, ◌≡◌, arith, ◌==◌, if◌then◌else◌, some, [], ◌∷◌}
use mio_os.Runtime.Memory.{Memory, memmove}
use mio_os.Runtime.Move.{moved, memmove-moved}
use mio_os.Runtime.Text.Strings.{IsString}
use mio_os.Runtime.Digits.{utoa}
use mio_os.Runtime.Digits.Text.{Printed, utoa-Printed}

-- "ab" at 16 and "ac" at 32.
abbrev mem : Memory
mem a =
    if a == 16
    then 97
    else if a == 17
    then 98
    else if a == 32
    then 97
    else if a == 33
    then 99
    else 0

-- The ranges overlap.
memmove-moved_example :
    ((memmove mem 17 16 2).1 ≡ 17) × ((a : ℕ) → (memmove mem 17 16 2).0 a ≡ moved mem 17 16 2 a)
memmove-moved_example = memmove-moved mem 17 16 2 (omega arith) (omega arith)

ab : IsString mem 16 (97 ∷ 98 ∷ [])
ab = omega arith

ac : IsString mem 32 (97 ∷ 99 ∷ [])
ac = omega arith

utoa-Printed_example :
    (m' : Memory) × (utoa mem 48879 64 16 ≡ some (m', 64)) × Printed mem 64 m' 64 16 48879
utoa-Printed_example =
    utoa-Printed mem 48879 64 16 (omega arith) (omega arith) (omega arith) (omega arith)
