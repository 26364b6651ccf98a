-- ===== src/Util/LinkedList/Walk.antt =====
-- `get_node` walks from the nearer end.
use mio_os.Common.{
  ℕ, zero, suc, ◌+◌, ◌-◌, ◌/◌, ◌≤◌, ◌<◌, ◌≡◌, ◌≢◌, refl, ap, ◌∙◌, arith, ltb, leb, Bool-cases, none,
  some, List, [], ◌∷◌, sub64, inl, inr,
}
use mio_os.Common.Seq.{length}
use mio_os.Util.LinkedList.{Node, Linked, forward, backward, get_node, at}
use mio_os.Util.LinkedList.Holds.{get_elem?, Chained, Holds}

get_elem?-beyond {ℓ} : {T : Type ℓ} (xs : List T) (i : ℕ) → length xs ≤ i → get_elem? xs i ≡ none
get_elem?-beyond [] i h = refl
get_elem?-beyond (x ∷ xs) zero h = absurd (omega arith)
get_elem?-beyond (x ∷ xs) (suc i) h = get_elem?-beyond xs i (omega arith)

get_elem?-within {ℓ} :
    {T : Type ℓ} (xs : List T) (i : ℕ) (x : T) → get_elem? xs i ≡ some x → i < length xs
get_elem?-within [] i x h = cc
get_elem?-within (y ∷ xs) zero x h = omega arith
get_elem?-within (y ∷ xs) (suc i) x h = omega (arith, get_elem?-within xs i x h)

module _ {T : Type 0} (nodes : ℕ → Node T) (addr : ℕ → ℕ) (count : ℕ)
    (c : Chained nodes addr count) where
  forward-addr : (k i : ℕ) → i + k < count → forward k nodes (addr i) ≡ addr (i + k)
  unfolding forward
  forward-addr zero i h = ap addr (omega arith)
  forward-addr (suc k) i h =
      rw (c.onward i (omega arith)) (forward-addr k (i + 1) (omega arith) ∙ ap addr (omega arith))

  backward-addr : (k i : ℕ) → k ≤ i → i < count → backward k nodes (addr i) ≡ addr (i - k)
  unfolding backward
  backward-addr zero i h below = ap addr (omega arith)
  backward-addr (suc k) zero h below = absurd (omega arith)
  backward-addr (suc k) (suc i) h below =
      let e : addr (suc i) ≡ addr (i + 1) = ap addr (omega arith) in
      rw (e, c.back i (omega arith))
        (backward-addr k i (omega arith) (omega arith) ∙ ap addr (omega arith))

-- `get_node` finds the node of each index of the list.
pub get_node-addr :
    {T A : Type 0} (l : Linked T A) (addr : ℕ → ℕ) (xs : List T)
    → Holds l addr xs
    → (i : ℕ) → i < length xs
    → get_node l i ≡ addr i
unfolding get_node
get_node-addr l addr xs h i below = elim (Bool-cases (ltb i (l.size / 2))) [
  | inl near ↦
      rw (near, h.headed (omega arith))
        (forward-addr l.nodes addr (length xs) h.chained i 0 (omega arith) ∙ ap addr (omega arith))
  | inr far ↦
      rw (far, h.tailed (length xs - 1) (omega arith))
        (backward-addr l.nodes addr (length xs) h.chained (sub64 l.size 1 - i) (length xs - 1)
            (omega (arith, h.sized, h.small)) (omega arith)
          ∙ ap addr (omega (arith, h.sized, h.small)))
]

-- For a list that holds a sequence, `at` gives `nullptr` for an index where the sequence has no
-- value, and otherwise a pointer other than it to the node with the value, from whichever end it
-- walks.
pub at-get_elem? :
    {T A : Type 0} (l : Linked T A) (addr : ℕ → ℕ) (xs : List T)
    → Holds l addr xs
    → (i : ℕ)
    → (get_elem? xs i ≡ none → at l i ≡ 0)
      × ((x : T) → get_elem? xs i ≡ some x → (at l i ≢ 0) × ((l.nodes (at l i)).value ≡ x))
unfolding at
at-get_elem? l addr xs h i = elim (Bool-cases (leb l.size i)) [
  | inl out ↦
      let beyond : length xs ≤ i = ground (arith, h.sized) in
      (λ e. rw out refl, λ x e. absurd (omega (arith, get_elem?-within xs i x e)))
  | inr inside ↦
      let below : i < length xs = ground (arith, h.sized) in
      let here : get_node l i ≡ addr i = get_node-addr l addr xs h i below in
      (
        λ e. let s = h.stored i below in cc,
        λ x e. let s = h.stored i below in rw (inside, here) (h.chained.real i below, cc),
      )
]
