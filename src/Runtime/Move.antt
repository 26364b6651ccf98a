-- ===== src/Runtime/Move.antt =====
-- What the loops of mem_util.cpp leave in the memory, at each address.
use mio_os.Common.{
  ℕ, zero, suc, ◌+◌, ◌-◌, ◌≤◌, ◌<◌, ◌≡◌, ◌≢◌, refl, arith, ltb, leb, ◌==◌, if◌then◌else◌, ◌&&◌, ◌⊎◌,
  inl, inr, Bool-cases, false, ◌||◌,
}
use mio_os.Runtime.Memory.{
  Memory, store_byte, byte_diff, fill, memset, copy_up, memcpy, copy_down, memmove, compare_bytes,
  memcmp,
}

-- The bytes from `d` on replaced by those from `s` on, all taken from the memory before.
abbrev pub moved : Memory → ℕ → ℕ → ℕ → Memory
moved m d s count a = if leb d a && ltb a (d + count) then m (s + (a - d)) else m a

-- Nothing of the source is overwritten before it is read.
pub copy_up-moved :
    (m : Memory) (d s count a : ℕ) → d ≤ s → copy_up m d s count a ≡ moved m d s count a
unfolding copy_up
copy_up-moved m d s zero a below = ground arith
copy_up-moved m d s (suc count) a below =
    ground (arith, copy_up-moved (store_byte m d (m s)) (d + 1) (s + 1) count a)

pub copy_up-apart :
    (m : Memory) (d s count a : ℕ) → s + count ≤ d → copy_up m d s count a ≡ moved m d s count a
unfolding copy_up
copy_up-apart m d s zero a apart = ground arith
copy_up-apart m d s (suc count) a apart =
    ground (arith, copy_up-apart (store_byte m d (m s)) (d + 1) (s + 1) count a)

-- From the end, for a destination above the source.
copy_down-moved :
    (m : Memory) (d s count a : ℕ)
    → s ≤ d
    → copy_down m (d + count) (s + count) count a ≡ moved m d s count a
unfolding copy_down
copy_down-moved m d s zero a above = ground arith
copy_down-moved m d s (suc count) a above =
    let e : d + suc count - 1 ≡ d + count = omega arith in
    let e' : s + suc count - 1 ≡ s + count = omega arith in
    rw (e, e')
      (ground (arith, copy_down-moved (store_byte m (d + count) (m (s + count))) d s count a))

fill-eq :
    (m : Memory) (p val count a : ℕ)
    → fill m p val count a ≡ (if leb p a && ltb a (p + count) then val else m a)
unfolding fill
fill-eq m p val zero a = ground arith
fill-eq m p val (suc count) a = ground (arith, fill-eq (store_byte m p val) (p + 1) val count a)

-- `memset` in closed form.
pub memset-eq :
    (m : Memory) (dest val count : ℕ)
    → dest ≢ 0
    → ((memset m dest val count).1 ≡ dest)
      × ((a : ℕ)
          → (memset m dest val count).0 a
            ≡ (if leb dest a && ltb a (dest + count) then val else m a))
unfolding memset
memset-eq m dest val count ne = (ground arith, λ a. ground (arith, fill-eq m dest val count a))

-- `memmove` between two pointers that are not null gives the destination, and leaves at each
-- address the byte that the source had there before the call if the address lies in the
-- destination, however the two overlap, and the old byte elsewhere.
pub memmove-moved :
    (m : Memory) (dest src count : ℕ)
    → dest ≢ 0
    → src ≢ 0
    → ((memmove m dest src count).1 ≡ dest)
      × ((a : ℕ) → (memmove m dest src count).0 a ≡ moved m dest src count a)
unfolding memmove
memmove-moved m dest src count ne ne' = (
  ground arith,
  λ a. ground (arith, copy_up-moved m dest src count a, copy_down-moved m dest src count a),
)

-- `memcpy` is `memmove` where it reads nothing that it has written.
pub memcpy-moved :
    (m : Memory) (dest src count : ℕ)
    → dest ≢ 0
    → src ≢ 0
    → (dest ≤ src) ⊎ (src + count ≤ dest)
    → ((memcpy m dest src count).1 ≡ dest)
      × ((a : ℕ) → (memcpy m dest src count).0 a ≡ moved m dest src count a)
unfolding memcpy
memcpy-moved m dest src count ne ne' (inl below) =
    (ground arith, λ a. ground (arith, copy_up-moved m dest src count a))
memcpy-moved m dest src count ne ne' (inr apart) =
    (ground arith, λ a. ground (arith, copy_up-apart m dest src count a))

-- The two ranges agree, and `memcmp` says 0; or they first differ at some place, and it gives the
-- difference there.
pub data Compared (m : Memory) (p q count r : ℕ) : Type 0 where
  alike : ((i : ℕ) → i < count → m (p + i) ≡ m (q + i)) → r ≡ 0 → Compared m p q count r
  differ :
      (k : ℕ)
      → k < count
      → ((i : ℕ) → i < k → m (p + i) ≡ m (q + i))
      → m (p + k) ≢ m (q + k)
      → r ≡ byte_diff (m (p + k)) (m (q + k))
      → Compared m p q count r

Compared-step :
    (m : Memory) (p q count r : ℕ)
    → m p ≡ m q
    → Compared m (p + 1) (q + 1) count r
    → Compared m p q (suc count) r
Compared-step m p q count r same (alike all e) = alike all' e
  where
    all' : (i : ℕ) → i < suc count → m (p + i) ≡ m (q + i)
    all' zero h = ground arith
    all' (suc i) h = ground (arith, all i)
Compared-step m p q count r same (differ k below before ne e) =
    differ (suc k) (omega arith) before' (ground arith) (ground arith)
  where
    before' : (i : ℕ) → i < suc k → m (p + i) ≡ m (q + i)
    before' zero h = ground arith
    before' (suc i) h = ground (arith, before i)

compare_bytes-Compared :
    (m : Memory) (p q count : ℕ) → Compared m p q count (compare_bytes m p q count)
unfolding compare_bytes
compare_bytes-Compared m p q zero = alike (λ i h. absurd (omega arith)) refl
compare_bytes-Compared m p q (suc count) = elim (Bool-cases (m p == m q)) [
  | inl same ↦
      rw same (
        Compared-step m p q count _ (ground arith) (compare_bytes-Compared m (p + 1) (q + 1) count))
  | inr ne ↦
      rw ne (differ 0 (omega arith) (λ i h. absurd (omega arith)) (ground arith) (ground arith))
]

-- For pointers that are not null, `memcmp` gives 0 when the two ranges agree, and otherwise the
-- difference of the bytes at the first place where they differ.
pub memcmp-Compared :
    (m : Memory) (s1 s2 count : ℕ) → s1 ≢ 0 → s2 ≢ 0 → Compared m s1 s2 count (memcmp m s1 s2 count)
unfolding memcmp
memcmp-Compared m s1 s2 count ne ne' =
    let e : ((s1 == 0) || (s2 == 0)) ≡ false = ground arith in
    rw e (compare_bytes-Compared m s1 s2 count)
