-- ===== src/Paging/Flags.antt =====
-- `PageFlags` of include/mm/mm_defs.hpp: 32 bits, one for each permission.
use mio_os.Common.{ℕ, bit_and, ◌==◌, Bool}

abbrev pub write : ℕ
write = 2

abbrev pub execute : ℕ
execute = 4

abbrev pub user : ℕ
user = 8

abbrev pub global : ℕ
global = 16

abbrev pub write_through : ℕ
write_through = 32

abbrev pub no_cache : ℕ
no_cache = 64

abbrev pub huge_2m : ℕ
huge_2m = 128

abbrev pub huge_1g : ℕ
huge_1g = 256

abbrev pub write_combining : ℕ
write_combining = 512

unfoldable pub has_flag : ℕ → ℕ → Bool
has_flag flags flag = bit_and flags flag == flag
