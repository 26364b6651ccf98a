-- ===== src/Runtime/Text/Strings.antt =====
-- Strings as lists of characters: what the scanning functions of string_util.cpp compute.
use mio_os.Common.{
  subst, ℕ, zero, suc, ◌+◌, ◌<◌, ◌^◌, ◌≡◌, ◌≢◌, ◌↔◌, refl, arith, ◌==◌, if◌then◌else◌, some, List,
  [], ◌∷◌,
}
use mio_os.Common.Seq.{length}
use mio_os.Runtime.Memory.{Memory, byte_diff}
use mio_os.Runtime.Text.{count_chars, strlen, compare_strings, strcmp, compare_prefix, strncmp}

-- The string `s` stands at `a`, with its zero byte.
abbrev pub IsString : Memory → ℕ → List ℕ → Type 0
IsString m a [] = m a ≡ 0
IsString m a (c ∷ cs) = (m a ≡ c) × (0 < c) × (c < 2 ^ 8) × IsString m (a + 1) cs

abbrev pub take : ℕ → List ℕ → List ℕ
take zero s = []
take (suc n) [] = []
take (suc n) (c ∷ cs) = c ∷ take n cs

-- The order of C on strings: the difference of the first characters that differ, where a string
-- that ends has 0.
abbrev pub order : List ℕ → List ℕ → ℕ
order [] [] = 0
order [] (d ∷ t) = byte_diff 0 d
order (c ∷ s) [] = byte_diff c 0
order (c ∷ s) (d ∷ t) = if c == d then order s t else byte_diff c d

count_chars-length :
    (fuel : ℕ) (m : Memory) (a len : ℕ) (s : List ℕ)
    → IsString m (a + len) s
    → length s < fuel
    → count_chars fuel m a len ≡ some (len + length s)
unfolding count_chars
count_chars-length zero m a len s st h = absurd (omega arith)
count_chars-length (suc fuel) m a len [] st h = ground arith
count_chars-length (suc fuel) m a len (c ∷ s) st h =
    let e : a + len + 1 ≡ a + (len + 1) = omega arith in
    let st' = subst (λ (t : ℕ). IsString m t s) e st.3 in
    ground (arith, count_chars-length fuel m a (len + 1) s st')

-- The length of a string, with fuel above it.
pub strlen-length :
    (fuel : ℕ) (m : Memory) (a : ℕ) (s : List ℕ)
    → a ≢ 0
    → IsString m a s
    → length s < fuel
    → strlen fuel m a ≡ some (length s)
unfolding strlen
strlen-length fuel m a s ne st h =
    let st' = subst (λ (t : ℕ). IsString m t s) (let e : a ≡ a + 0 = omega arith in e) st in
    ground (arith, count_chars-length fuel m a 0 s st')

compare_strings-order :
    (fuel : ℕ) (m : Memory) (a b : ℕ) (s t : List ℕ)
    → IsString m a s
    → IsString m b t
    → length s < fuel
    → compare_strings fuel m a b ≡ some (order s t)
unfolding compare_strings
compare_strings-order zero m a b s t st st' h = absurd (omega arith)
compare_strings-order (suc fuel) m a b [] [] st st' h = ground arith
compare_strings-order (suc fuel) m a b [] (d ∷ t) st st' h = ground arith
compare_strings-order (suc fuel) m a b (c ∷ s) [] st st' h = ground arith
compare_strings-order (suc fuel) m a b (c ∷ s) (d ∷ t) st st' h =
    ground (arith, compare_strings-order fuel m (a + 1) (b + 1) s t st.3 st'.3)

order_zero :
    (m : Memory) (a b : ℕ) (s t : List ℕ) → IsString m a s → IsString m b t → order s t ≡ 0 → s ≡ t
order_zero m a b [] [] st st' e = refl
order_zero m a b [] (d ∷ t) st st' e = absurd (omega arith)
order_zero m a b (c ∷ s) [] st st' e = absurd (omega arith)
order_zero m a b (c ∷ s) (d ∷ t) st st' e =
    ground (arith, order_zero m (a + 1) (b + 1) s t st.3 st'.3)

order_self : (s : List ℕ) → order s s ≡ 0
order_self [] = refl
order_self (c ∷ s) = ground (arith, order_self s)

-- With fuel above the length of the first string, `strcmp` of two strings gives the order of C on
-- them, the difference of the first characters that differ, and this is 0 exactly when the
-- strings are equal.
pub strcmp-order :
    (fuel : ℕ) (m : Memory) (a b : ℕ) (s t : List ℕ)
    → a ≢ 0
    → b ≢ 0
    → IsString m a s
    → IsString m b t
    → length s < fuel
    → (strcmp fuel m a b ≡ some (order s t)) × ((order s t ≡ 0) ↔ (s ≡ t))
unfolding strcmp
strcmp-order fuel m a b s t ne ne' st st' h = (
  ground (arith, compare_strings-order fuel m a b s t st st' h),
  (λ e. order_zero m a b s t st st' e, λ e. subst (λ (r : List ℕ). order s r ≡ 0) e (order_self s)),
)

compare_prefix-order :
    (m : Memory) (a b n : ℕ) (s t : List ℕ)
    → IsString m a s
    → IsString m b t
    → compare_prefix m a b (suc n) ≡ order (take (suc n) s) (take (suc n) t)
unfolding compare_prefix
compare_prefix-order m a b n [] [] st st' = ground arith
compare_prefix-order m a b n [] (d ∷ t) st st' = ground arith
compare_prefix-order m a b n (c ∷ s) [] st st' = ground arith
compare_prefix-order m a b zero (c ∷ s) (d ∷ t) st st' = ground arith
compare_prefix-order m a b (suc n) (c ∷ s) (d ∷ t) st st' =
    ground (arith, compare_prefix-order m (a + 1) (b + 1) n s t st.3 st'.3)

-- `strncmp` of two strings with any count is the order of C on their first `count` characters.
pub strncmp-order :
    (m : Memory) (a b n : ℕ) (s t : List ℕ)
    → a ≢ 0
    → b ≢ 0
    → IsString m a s
    → IsString m b t
    → strncmp m a b n ≡ order (take n s) (take n t)
unfolding strncmp
strncmp-order m a b zero s t ne ne' st st' = ground arith
strncmp-order m a b (suc n) s t ne ne' st st' =
    ground (arith, compare_prefix-order m a b n s t st st')
