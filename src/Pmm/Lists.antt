-- ===== src/Pmm/Lists.antt =====
-- The free lists as sequences: `list_add` conses, `list_remove` erases.
use mio_os.Common.{
  ℕ, ◌<◌, ◌≡◌, refl, ◌≢◌, ◌⊎◌, inl, inr, true, List, [], ◌∷◌, arith, ◌==◌, ◌∙◌, ap, ◌!=◌,
  Bool-cases,
}
use mio_os.Common.Seq.{has, ◌∈◌, ◌∉◌, IsDistinct, erase, IsDistinct-erase}
use mio_os.Pmm.State.{Pmm, update}
use mio_os.Pmm.FreeList.{list_add, list_remove}
use mio_os.Pmm.FreeList.Chain.{Chain, Chain-ne-zero, Chain-frame, link-Chain, link-frame}
use mio_os.Pmm.FreeList.Unlink.{start, unlink-Chain, unlink-head, unlink-frame}

abbrev pub Lists : Type 0
Lists = ℕ → List ℕ

-- The lists of `s` for the orders below 11 hold the sequences `l`, and no block is in two lists.
pub record Rep (s : Pmm) (l : Lists) : Type 0 where
  pub chain : (o : ℕ) → o < 11 → Chain s.node 0 (s.free_lists o) (l o)
  pub distinct : (o : ℕ) → o < 11 → IsDistinct (l o)
  pub apart : (o i a : ℕ) → o < 11 → i < 11 → a ∈ l o → a ∈ l i → o ≡ i

same_of : {i o : ℕ} → (i == o) ≡ true → i ≡ o
same_of {i} {o} e = ground arith

no_mem : (a : ℕ) (xs : List ℕ) → (a ∈ xs → ⊥) → a ∉ xs
no_mem a xs h = elim (Bool-cases (has a xs)) [ inl e ↦ absurd (h e) | inr e ↦ e ]

pub mem_of_erase : (a b : ℕ) (xs : List ℕ) → a ∈ erase b xs → a ∈ xs
mem_of_erase a b [] m = m
mem_of_erase a b (x ∷ xs) m = ground (arith, mem_of_erase a b xs)

module _ {s : Pmm} {l : Lists} (r : Rep s l) (o : ℕ) (o_lt : o < 11) where
  -- `list_add` puts a block that is in no list at the front of its own.
  module _ (block : ℕ) (ne : block ≢ 0) (fresh : (i : ℕ) → i < 11 → block ∉ l i) where
    add-Chain :
        (i : ℕ)
        → i < 11
        → Chain
            (list_add s block o).node
            0
            ((list_add s block o).free_lists i)
            (update l o (block ∷ l o) i)
    unfolding list_add
    add-Chain i i_lt = elim (Bool-cases (i == o)) [
      | inl e ↦ rw e (
          link-Chain s.node (s.free_lists o) block (l o) ne (fresh o o_lt) (r.distinct o o_lt)
            (r.chain o o_lt))
      | inr e ↦ rw e (
          Chain-frame s.node _ 0 (s.free_lists i) (l i)
            (λ a m.
              link-frame s.node (s.free_lists o) block a (l o)
                (λ q. let m' : block ∈ l i = rw q at m in let f = fresh i i_lt in cc)
                (no_mem a (l o) (λ m'. let q = r.apart o i a o_lt i_lt m' m in ground arith))
                (r.chain o o_lt))
            (r.chain i i_lt))
    ]

    add_mem : (i a : ℕ) → a ∈ update l o (block ∷ l o) i → (a ∈ l i) ⊎ ((i ≡ o) × (a ≡ block))
    add_mem i a m = elim (Bool-cases (i == o)) [ inl e ↦ ground arith | inr e ↦ ground arith ]

    pub Rep-add : Rep (list_add s block o) (update l o (block ∷ l o))
    Rep-add = record {
      chain = add-Chain;
      distinct = λ i i_lt. elim (Bool-cases (i == o)) [
        | inl e ↦ rw e (fresh o o_lt, r.distinct o o_lt)
        | inr e ↦ rw e (r.distinct i i_lt)
      ];
      apart = λ i j a i_lt j_lt m m'. ground (
        arith,
        add_mem i a m,
        add_mem j a m',
        r.apart i j a i_lt j_lt,
        fresh i i_lt,
        fresh j j_lt,
      );
    }

  -- `list_remove` takes a block out of its list.
  module _ (b : ℕ) (m : b ∈ l o) where
    zero_out : 0 ∉ l o
    zero_out =
        no_mem 0 (l o)
          (λ h. Chain-ne-zero s.node 0 (s.free_lists o) 0 (l o) (r.chain o o_lt) h refl)

    remove_heads :
        (i : ℕ)
        → (list_remove s b o).free_lists i
          ≡ update s.free_lists o (start s.node b (s.free_lists o)) i
    unfolding list_remove
    remove_heads i =
        let head = unlink-head s.node (s.free_lists o) b (l o) m (r.chain o o_lt) in
        elim (Bool-cases ((s.node b).prev != 0)) [
          | inl e ↦ rw e (
              let h : s.free_lists o ≡ start s.node b (s.free_lists o) = rw e at head in
              elim (Bool-cases (i == o)) [
                | inl q ↦ rw q (ap s.free_lists (same_of q) ∙ h)
                | inr q ↦ rw q
              ])
          | inr e ↦ rw e (
              let h : (s.node b).next ≡ start s.node b (s.free_lists o) = rw e at head in
              elim (Bool-cases (i == o)) [ inl q ↦ rw q h | inr q ↦ rw q ])
        ]

    remove-Chain :
        (i : ℕ)
        → i < 11
        → Chain
            (list_remove s b o).node
            0
            ((list_remove s b o).free_lists i)
            (update l o (erase b (l o)) i)
    unfolding list_remove
    remove-Chain i i_lt = rw (remove_heads i) (elim (Bool-cases (i == o)) [
      | inl e ↦ rw e (
          unlink-Chain s.node 0 (s.free_lists o) b (l o) m zero_out (r.distinct o o_lt)
            (r.chain o o_lt))
      | inr e ↦ rw e (
          Chain-frame s.node _ 0 (s.free_lists i) (l i)
            (λ a h.
              unlink-frame s.node (s.free_lists o) b a (l o) m
                (no_mem a (l o) (λ h'. let q = r.apart o i a o_lt i_lt h' h in ground arith))
                (Chain-ne-zero s.node 0 (s.free_lists i) a (l i) (r.chain i i_lt) h)
                (r.distinct o o_lt) (r.chain o o_lt))
            (r.chain i i_lt))
    ])

    erase_mem : (i a : ℕ) → a ∈ update l o (erase b (l o)) i → a ∈ l i
    erase_mem i a h = elim (Bool-cases (i == o)) [
      | inl e ↦ ground (arith, mem_of_erase a b (l o))
      | inr e ↦ ground arith
    ]

    pub Rep-remove : Rep (list_remove s b o) (update l o (erase b (l o)))
    Rep-remove = record {
      chain = remove-Chain;
      distinct = λ i i_lt. elim (Bool-cases (i == o)) [
        | inl e ↦ rw e (IsDistinct-erase b (l o) (r.distinct o o_lt))
        | inr e ↦ rw e (r.distinct i i_lt)
      ];
      apart = λ i j a i_lt j_lt h h'. r.apart i j a i_lt j_lt (erase_mem i a h) (erase_mem j a h');
    }
