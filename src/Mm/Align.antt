-- ===== src/Mm/Align.antt =====
-- What the alignment helpers compute for pages.
use mio_os.Common.{ℕ, ◌+◌, ◌-◌, ◌*◌, ◌/◌, ◌%◌, ◌^◌, ◌<◌, ◌≡◌, arith, bit_and, ◌∙◌, ap}
use mio_os.Common.Bits.{bit_and_range}
use mio_os.Mm.{align_up, align_down}

clear_page : (v : ℕ) → v < 2 ^ 64 → bit_and v (2 ^ 64 - 4096) ≡ v / 4096 * 4096
clear_page v h =
    let e : v ≡ v / 4096 * 2 ^ 12 + v % 4096 = omega arith in
    let cut = bit_and_range 12 52 (v / 4096) (v % 4096) (omega arith) in
    ap (λ (t : ℕ). bit_and t (2 ^ 64 - 4096)) e ∙ cut ∙ omega arith

pub align_down-page : (v : ℕ) → v < 2 ^ 64 → align_down v 4096 ≡ v / 4096 * 4096
unfolding align_down
align_down-page v h = clear_page v h

pub align_up-page : (v : ℕ) → v + 4095 < 2 ^ 64 → align_up v 4096 ≡ (v + 4095) / 4096 * 4096
unfolding align_up
align_up-page v h =
    let e : (v + 4095) % 2 ^ 64 ≡ v + 4095 = omega arith in rw e (clear_page (v + 4095) h)
