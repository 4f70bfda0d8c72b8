-- ===== src/CompHeap/Header.antt =====
-- `comp_heap_alloc` and `comp_heap_alloc_global_member` of core/comp_heap.cpp, at the end of the heap.
use toy_language.Base.{
  leb, ==_ne, lt→leb, Bool-cases, Run, returns, ℕ, ◌+◌, ◌-◌, ◌/◌, ◌%◌, ◌^◌, ◌≤◌, ◌<◌, ◌≡◌, refl,
  ◌∙◌, ◌≢◌, ◌⊎◌, inl, inr, none, some, arith,
}
use native.Mathlib.Decide.{ℕ_discrete}
use native.Mathlib.Nat.{pow-le-pow_right, mod-eq_of_lt}
use toy_language.CompHeap.{
  CompHeap, Commits, Allocated, alloc_at_end, comp_heap_alloc_internal, comp_heap_alloc,
}
use toy_language.CompHeap.Blocks.{Owners, IsFree}
use toy_language.CompHeap.AtEnd.{IsCommitted}
use toy_language.CompHeap.Allocation.{IsHeap, Allocates, alloc_at_end-Allocates}

module _ (os : Commits) (heap : CompHeap) (owner : Owners) (valid : IsHeap heap owner) where
  -- `comp_heap_alloc` of more than 18 and at most 2 ^ 40 bytes, aligned to a power of two that is at
  -- most 2 ^ 36, in a heap for which `IsHeap` holds and whose reserve and committed part are whole increments, takes no block of the free lists but
  -- memory behind the used part, which is aligned and in no free list; or it has none and changes
  -- nothing.
  pub comp_heap_alloc-Allocates :
      (size a : ℕ)
      → IsCommitted heap
      → 18 < size
      → size ≤ 2 ^ 40
      → a ≤ 36
      → Allocates heap owner size (2 ^ a) 0 (comp_heap_alloc os heap size (2 ^ a))
  unfolding comp_heap_alloc comp_heap_alloc_internal
  comp_heap_alloc-Allocates size a is large small low =
      let wrapped : (size + 0) % 2 ^ 64 ≡ size = mod-eq_of_lt (omega arith) ∙ omega arith in
      let some_size = ==_ne size 0 (λ e. omega (arith, e, large)) in
      let past = lt→leb size 18 large in
      elim (Bool-cases (leb (2 ^ a) 16)) [
        | inl little ↦
            rw (some_size, little, wrapped, past)
              (alloc_at_end-Allocates os heap owner valid size a 0 is small low refl (omega arith))
        | inr much ↦
            rw (some_size, much)
              (alloc_at_end-Allocates os heap owner valid size a 0 is small low refl (omega arith))
      ]

  -- What becomes of the header of an allocation with one.
  abbrev pub Headed : Run Allocated → Type 0
  Headed run =
      (run ≡ returns (none, heap))
      ⊎ ((address : ℕ) × (new : CompHeap) × (other : Owners) × (run ≡ returns (some address, new))
          × IsFree new other
          × ((address ≡ heap.used + 16) ⊎ (other ((address - 16) / 16) ≢ none)))

  -- Of an allocation with a header at the end of the heap, of at most 2 ^ 40 bytes and aligned to a
  -- power of two that is at most 2 ^ 18, in a heap for which `IsHeap` holds and whose reserve and
  -- committed part are whole increments: where there is padding before it, the 16 bytes of the header
  -- are given to the free lists with the padding.
  pub alloc_at_end-Headed :
      (size a : ℕ)
      → IsCommitted heap
      → size ≤ 2 ^ 40
      → a ≤ 18
      → Headed (alloc_at_end os heap size (2 ^ a) 16)
  alloc_at_end-Headed size a is small low =
      elim (alloc_at_end-Allocates os heap owner valid size a 16 is small (omega arith) refl
        (omega arith)) [
          | inl failed ↦ inl failed
          | inr (address, new, other, e, at) ↦ elim (ℕ_discrete address (heap.used + 16)) [
            | yes tight ↦ inr (address, new, other, e, at.free, inl tight)
            | no padded ↦
                let behind = at.behind in
                let near = at.near in
                let whole = valid.whole in
                let bound : 2 ^ a ≤ 2 ^ 18 = pow-le-pow_right (omega arith) low in
                let slot : address % 16 ≡ 0 = at.slot in
                let lost =
                  at.padding (omega (arith, near, bound)) ((address - 16) / 16)
                    (omega (arith, behind, padded, slot, whole)) (omega (arith, behind, slot)) in
                inr (address, new, other, e, at.free, inr lost)
          ]
        ]
