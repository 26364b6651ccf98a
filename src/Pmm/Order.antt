-- ===== src/Pmm/Order.antt =====
-- `pages_to_order`.
pub mod Least
use mio_os.Common.{ℕ, zero, suc, ◌+◌, ◌-◌, ◌>>>◌, leb, ltb, if◌then◌else◌}

-- `while (count > 0) { count >>= 1; order++; }`, with fuel; a `size_t` takes 64 rounds at most.
unfoldable pub order_loop : ℕ → ℕ → ℕ → ℕ
order_loop zero count order = order
order_loop (suc fuel) count order =
    let rest = order_loop fuel (count >>> 1) (order + 1) in if ltb 0 count then rest else order

unfoldable pub pages_to_order : ℕ → ℕ
unfolding order_loop
pages_to_order pages = if leb pages 1 then 0 else order_loop 64 (pages - 1) 0
