-- ===== src/Runtime/Text/Copy.antt =====
-- What the copying functions of string_util.cpp leave in the memory.
use mio_os.Common.{
  subst, ℕ, zero, suc, ◌+◌, ◌-◌, ◌≤◌, ◌<◌, ◌≡◌, ◌≢◌, ◌⊎◌, inl, inr, refl, arith, ltb, leb, ◌==◌,
  if◌then◌else◌, ◌||◌, ◌&&◌, some, List, [], ◌∷◌, ◌++◌, false, ◌∙◌,
}
use mio_os.Common.Seq.{length}
use mio_os.Runtime.Memory.{Memory, store_byte, copy_up}
use mio_os.Runtime.Move.{moved, copy_up-moved, copy_up-apart}
use mio_os.Runtime.Text.{copy_string, strcpy, find_end, strcat, pad, copy_prefix, strncpy}
use mio_os.Runtime.Text.Strings.{IsString}

-- The copy reads nothing that it has written: it moves down, or the two lie apart.
abbrev pub IsSafe : ℕ → ℕ → ℕ → Type 0
IsSafe d s count = (d ≤ s) ⊎ (s + count ≤ d)

IsString-store :
    (m : Memory) (a d v : ℕ) (s : List ℕ)
    → (d < a) ⊎ (a + length s < d)
    → IsString m a s
    → IsString (store_byte m d v) a s
IsString-store m a d v [] (inl h) st = ground arith
IsString-store m a d v [] (inr h) st = ground arith
IsString-store m a d v (c ∷ s) (inl h) st =
    (ground arith, st.1, st.2, IsString-store m (a + 1) d v s (inl (omega arith)) st.3)
IsString-store m a d v (c ∷ s) (inr h) st =
    (ground arith, st.1, st.2, IsString-store m (a + 1) d v s (inr (omega arith)) st.3)

IsString-same :
    (m m' : Memory) (a d : ℕ) (s : List ℕ)
    → ((i : ℕ) → i ≤ length s → m' (d + i) ≡ m (a + i))
    → IsString m a s
    → IsString m' d s
IsString-same m m' a d [] same st = ground (arith, same 0)
IsString-same m m' a d (c ∷ s) same st = (
  ground (arith, same 0),
  st.1,
  st.2,
  IsString-same m m' (a + 1) (d + 1) s (λ i h. ground (arith, same (suc i))) st.3,
)

-- The string with its zero byte is copied as `memcpy` copies it.
copy_string-copy_up :
    (fuel : ℕ) (m : Memory) (d a : ℕ) (s : List ℕ)
    → IsString m a s
    → length s < fuel
    → IsSafe d a (length s + 1)
    → copy_string fuel m d a ≡ some (copy_up m d a (suc (length s)))
unfolding copy_string copy_up
copy_string-copy_up zero m d a s st h safe = absurd (omega arith)
copy_string-copy_up (suc fuel) m d a [] st h safe = ground arith
copy_string-copy_up (suc fuel) m d a (c ∷ s) st h (inl safe) =
    let st' = IsString-store m (a + 1) d (m a) s (inl (omega arith)) st.3 in
    ground (
      arith,
      copy_string-copy_up fuel (store_byte m d (m a)) (d + 1) (a + 1) s st' (omega arith)
          (inl (omega arith)),
    )
copy_string-copy_up (suc fuel) m d a (c ∷ s) st h (inr safe) =
    let st' = IsString-store m (a + 1) d (m a) s (inr (omega arith)) st.3 in
    ground (
      arith,
      copy_string-copy_up fuel (store_byte m d (m a)) (d + 1) (a + 1) s st' (omega arith)
          (inr (omega arith)),
    )

copy-moved : (m : Memory) (d a n x : ℕ) → IsSafe d a n → copy_up m d a n x ≡ moved m d a n x
copy-moved m d a n x (inl h) = copy_up-moved m d a n x h
copy-moved m d a n x (inr h) = copy_up-apart m d a n x h

-- `m'` has the string `s` at `d`, and is `m` outside of the bytes from `d'` to its end.
abbrev pub Written : Memory → ℕ → Memory → ℕ → List ℕ → Type 0
Written m d' m' d s = IsString m' d s × ((x : ℕ) → (x < d') ⊎ (d + length s < x) → m' x ≡ m x)

copied :
    (m : Memory) (d a : ℕ) (s : List ℕ)
    → IsString m a s
    → IsSafe d a (length s + 1)
    → Written m d (copy_up m d a (suc (length s))) d s
copied m d a s st safe = (
  IsString-same m _ a d s (λ i h. copy-moved m d a (suc (length s)) (d + i) safe' ∙ ground arith)
      st,
  λ x out. copy-moved m d a (suc (length s)) x safe' ∙ ground arith,
)
  where
    safe' : IsSafe d a (suc (length s))
    safe' = subst (λ (t : ℕ). IsSafe d a t) (omega arith) safe

-- `strcpy` of a string, with fuel above its length.
pub strcpy-Written :
    (fuel : ℕ) (m : Memory) (dest src : ℕ) (s : List ℕ)
    → dest ≢ 0
    → src ≢ 0
    → IsString m src s
    → length s < fuel
    → IsSafe dest src (length s + 1)
    → (m' : Memory) × (strcpy fuel m dest src ≡ some (m', dest)) × Written m dest m' dest s
unfolding strcpy
strcpy-Written fuel m dest src s ne ne' st h safe =
    let e : ((dest == 0) || (src == 0)) ≡ false = ground arith in
    (
      copy_up m dest src (suc (length s)),
      rw (e, copy_string-copy_up fuel m dest src s st h safe) refl,
      copied m dest src s st safe,
    )

find_end-eq :
    (fuel : ℕ) (m : Memory) (d : ℕ) (t : List ℕ)
    → IsString m d t
    → length t < fuel
    → find_end fuel m d ≡ some (d + length t)
unfolding find_end
find_end-eq zero m d t st h = absurd (omega arith)
find_end-eq (suc fuel) m d [] st h = ground arith
find_end-eq (suc fuel) m d (c ∷ t) st h = ground (arith, find_end-eq fuel m (d + 1) t st.3)

IsString-append :
    (m m' : Memory) (d : ℕ) (t s : List ℕ)
    → IsString m d t
    → ((x : ℕ) → x < d + length t → m' x ≡ m x)
    → IsString m' (d + length t) s
    → IsString m' d (t ++ s)
IsString-append m m' d [] s st same st' = subst (λ (x : ℕ). IsString m' x s) (omega arith) st'
IsString-append m m' d (c ∷ t) s st same st' =
    let e : d + suc (length t) ≡ d + 1 + length t = omega arith in
    (
      same d (omega arith) ∙ st.0,
      st.1,
      st.2,
      IsString-append m m' (d + 1) t s st.3 (λ x h. same x (omega arith))
          (subst (λ (x : ℕ). IsString m' x s) e st'),
    )

-- With fuel above both lengths, where the copy overwrites nothing that it has still to read,
-- `strcat` leaves at the destination the first string followed by the second, and changes no byte
-- before the end of the first or behind the new end.
pub strcat-Written :
    (fuel : ℕ) (m : Memory) (dest src : ℕ) (t s : List ℕ)
    → dest ≢ 0
    → src ≢ 0
    → IsString m dest t
    → IsString m src s
    → length t < fuel
    → length s < fuel
    → IsSafe (dest + length t) src (length s + 1)
    → (m' : Memory) × (strcat fuel m dest src ≡ some (m', dest))
      × IsString m' dest (t ++ s)
      × ((x : ℕ) → (x < dest + length t) ⊎ (dest + length t + length s < x) → m' x ≡ m x)
unfolding strcat
strcat-Written fuel m dest src t s ne ne' st st' h h' safe =
    let e : ((dest == 0) || (src == 0)) ≡ false = ground arith in
    let d = dest + length t in
    let w = copied m d src s st' safe in
    (
      copy_up m d src (suc (length s)),
      rw (e, find_end-eq fuel m dest t st h, copy_string-copy_up fuel m d src s st' h' safe) refl,
      IsString-append m _ dest t s st (λ x below. w.1 x (inl below)) w.0,
      w.1,
    )

pad-eq :
    (m : Memory) (d count x : ℕ)
    → pad m d count x ≡ (if leb d x && ltb x (d + count) then 0 else m x)
unfolding pad
pad-eq m d zero x = ground arith
pad-eq m d (suc count) x = ground (arith, pad-eq (store_byte m d 0) (d + 1) count x)

-- The bytes that `strncpy` writes: characters as long as there are any, then zeros.
abbrev pub padded : Memory → ℕ → ℕ → ℕ → ℕ → Memory
padded m d src len count x =
    if leb d x && ltb x (d + count) then if ltb (x - d) len then m (src + (x - d)) else 0 else m x

copy_prefix-padded :
    (m : Memory) (d src count x : ℕ) (s : List ℕ)
    → IsString m src s
    → IsSafe d src (length s + 1)
    → copy_prefix m d src count x ≡ padded m d src (length s) count x
unfolding copy_prefix
copy_prefix-padded m d src zero x s st safe = ground arith
copy_prefix-padded m d src (suc count) x [] st safe = ground (arith, pad-eq m d (suc count) x)
copy_prefix-padded m d src (suc count) x (c ∷ s) st (inl safe) =
    let st' = IsString-store m (src + 1) d (m src) s (inl (omega arith)) st.3 in
    let rest =
      (copy_prefix-padded (store_byte m d (m src)) (d + 1) (src + 1) count x s st'
        (inl (omega arith))) in
    ground (arith, rest)
copy_prefix-padded m d src (suc count) x (c ∷ s) st (inr safe) =
    let st' = IsString-store m (src + 1) d (m src) s (inr (omega arith)) st.3 in
    let rest =
      (copy_prefix-padded (store_byte m d (m src)) (d + 1) (src + 1) count x s st'
        (inr (omega arith))) in
    ground (arith, rest)

-- Where the copy overwrites nothing that it has still to read, `strncpy` gives the destination
-- and writes exactly `count` bytes: the characters of the string as long as there are any, then
-- zeros; so a string of at least `count` characters gets no zero byte.
pub strncpy-padded :
    (m : Memory) (dest src count : ℕ) (s : List ℕ)
    → dest ≢ 0
    → src ≢ 0
    → IsString m src s
    → IsSafe dest src (length s + 1)
    → ((strncpy m dest src count).1 ≡ dest)
      × ((x : ℕ) → (strncpy m dest src count).0 x ≡ padded m dest src (length s) count x)
unfolding strncpy
strncpy-padded m dest src count s ne ne' st safe =
    (ground arith, λ x. ground (arith, copy_prefix-padded m dest src count x s st safe))
