-- ===== src/CompHeap/Taken.antt =====
-- `comp_heap_alloc` of core/comp_heap.cpp, where it takes a block of a free list.
use toy_language.Base.{
  leb, ==_ne, le→leb, ==_iff, Run, returns, get_or, set, ℕ, ◌+◌, ◌-◌, ◌*◌, ◌/◌, ◌%◌, ◌^◌, ◌≤◌, ◌<◌,
  ◌≡◌, refl, ap, ◌∙◌, ◌≢◌, ◌⊎◌, inl, inr, Bool, true, false, none, some, arith,
}
use mathlib.Core.Path.{ap₂}
use native.Mathlib.Decide.{dec_le}
use native.Mathlib.Nat.{one-le-pow, mod-eq_of_lt}
use toy_language.CompHeap.{comp_heap_alloc, comp_heap_alloc_internal, Commits}
use toy_language.CompHeap.{
  CompHeap, Allocated, log2_ceil, bit_length, freelist_index, alloc_from_freelist,
  comp_heap_add_to_freelist, comp_heap_mark_begin, with_bit,
}
use toy_language.CompHeap.Blocks.{Owners, IsFree}
use toy_language.CompHeap.FreeList.{comp_heap_add_to_freelist-Gives}
use toy_language.CompHeap.Pop.{Popped, pop-Popped}
use toy_language.CompHeap.Allocation.{IsHeap, mark_begin}
use toy_language.CompHeap.Sizes.{Sized, freelist_index-Sized}

-- A block of a free list, of which what is allocated is in no free list any more.
pub record Taken (heap : CompHeap) (owner : Owners) (index head allocation_size : ℕ)
    (new : CompHeap) (other : Owners) : Type 0 where
  pub free : IsFree new other
  pub was_free : (s : ℕ) → head ≤ s → 16 * s < 16 * head + allocation_size → owner s ≢ none
  pub apart : (s : ℕ) → head ≤ s → 16 * s < 16 * head + allocation_size → other s ≡ none
  pub kept : (s : ℕ) → (s < head) ⊎ (head + 2 ^ index ≤ s) → other s ≡ owner s
  pub inside : 16 * head + allocation_size ≤ heap.used
  pub same_used : new.used ≡ heap.used
  pub marked : new.begin_bitmap head ≡ true

module _ (heap : CompHeap) (owner : Owners) (valid : IsHeap heap owner) where
  -- The last slot of a block is in the used part, and so is its end.
  block_inside :
      (head index : ℕ)
      → ((s : ℕ) → head ≤ s → s < head + 2 ^ index → owner s ≢ none)
      → 16 * (head + 2 ^ index) ≤ heap.used
  block_inside head index owned =
      let positive = one-le-pow index 2 (omega arith) in
      let whole = valid.whole in
      let last = head + 2 ^ index - 1 in
      elim (dec_le heap.used (16 * last)) [
        | yes past ↦ absurd (
            owned last (omega (arith, positive)) (omega (arith, positive))
              (valid.unowned last past))
        | no before ↦ omega (arith, whole, positive)
      ]

  alloc_from_freelist-whole :
      (index header_size n : ℕ) (marked : CompHeap)
      → leb 16 (2 ^ log2_ceil n - n) ≡ false
      → comp_heap_mark_begin
          (record heap {
            freelists = set heap.freelists index (heap.links (get_or heap.freelists index 0));
          })
          (get_or heap.freelists index 0 * 16)
        ≡ returns marked
      → alloc_from_freelist heap index header_size n
        ≡ returns (some (get_or heap.freelists index 0 * 16 + header_size), marked)
  unfolding alloc_from_freelist
  alloc_from_freelist-whole index header_size n marked little m = rw (little, m) refl

  alloc_from_freelist-split :
      (index header_size : ℕ) (rest marked : CompHeap)
      → comp_heap_add_to_freelist
          (record heap {
            freelists = set heap.freelists index (heap.links (get_or heap.freelists index 0));
          })
          (get_or heap.freelists index 0 * 16 + 16)
          (get_or heap.freelists index 0 * 16 + 32)
        ≡ returns rest
      → comp_heap_mark_begin rest (get_or heap.freelists index 0 * 16) ≡ returns marked
      → alloc_from_freelist heap index header_size 16
        ≡ returns (some (get_or heap.freelists index 0 * 16 + header_size), marked)
  unfolding alloc_from_freelist log2_ceil bit_length
  alloc_from_freelist-split index header_size rest marked r m = rw (r, m) refl

  index_16 : freelist_index 16 ≡ 1
  unfolding log2_ceil bit_length
  index_16 = refl

  -- The heap with the mark of the block.
  abbrev marked_at : CompHeap → ℕ → CompHeap
  marked_at rest head = record rest { begin_bitmap = with_bit rest.begin_bitmap head }

  mark_head :
      (rest : CompHeap) (head : ℕ)
      → rest.begin_bitmap head ≡ false
      → comp_heap_mark_begin rest (head * 16) ≡ returns (marked_at rest head)
  mark_head rest head clear =
      let slot : head * 16 / 16 ≡ head = omega arith in
      mark_begin rest (head * 16) (rw slot clear) ∙ rw slot refl

  -- No slot of a free block is marked.
  abbrev pub Unmarked : Type 0
  Unmarked = (s : ℕ) → owner s ≢ none → heap.begin_bitmap s ≡ false

  abbrev pub Takes : ℕ → ℕ → Run Allocated → Type 0
  Takes header_size n run =
      (new : CompHeap) × (other : Owners) × (run
        ≡ returns (some (get_or heap.freelists (freelist_index n) 0 * 16 + header_size), new))
      × Taken heap owner (freelist_index n) (get_or heap.freelists (freelist_index n) 0) n new other

  take_whole :
      (header_size n : ℕ) (other : Owners)
      → Unmarked
      → Sized n
      → leb 16 (2 ^ log2_ceil n - n) ≡ false
      → Popped heap owner other (freelist_index n) (get_or heap.freelists (freelist_index n) 0)
      → Takes header_size n (alloc_from_freelist heap (freelist_index n) header_size n)
  take_whole header_size n other unmarked sized little popped =
      let index = freelist_index n in
      let head = get_or heap.freelists index 0 in
      let enough = sized.enough in
      let rest : CompHeap = record heap {
        freelists = set heap.freelists index (heap.links head);
      } in
      let positive = one-le-pow index 2 (omega arith) in
      let clear : rest.begin_bitmap head ≡ false =
        unmarked head (popped.was_free head (omega arith) (omega (arith, positive))) in
      (
        marked_at rest head,
        other,
        alloc_from_freelist-whole index header_size n (marked_at rest head) little
            (mark_head rest head clear),
        record {
          free = record {
            count = popped.free.count;
            lists = popped.free.lists;
            covered = popped.free.covered;
            chains = popped.free.chains;
          };
          was_free = λ s low high. popped.was_free s low (omega (arith, high, enough));
          apart = λ s low high. popped.taken s low (omega (arith, high, enough));
          kept = popped.kept;
          inside = omega (arith, block_inside head index popped.was_free, enough);
          same_used = refl;
          marked = rw ((==_iff head head).1 refl) refl;
        },
      )

  take_split :
      (header_size : ℕ) (other : Owners)
      → Unmarked
      → Popped heap owner other 1 (get_or heap.freelists 1 0)
      → get_or heap.freelists 1 0 ≢ 0
      → (new : CompHeap) × (later : Owners) × (alloc_from_freelist heap 1 header_size 16
          ≡ returns (some (get_or heap.freelists 1 0 * 16 + header_size), new))
        × Taken heap owner 1 (get_or heap.freelists 1 0) 16 new later
  take_split header_size other unmarked popped some_head =
      let head = get_or heap.freelists 1 0 in
      let popped_heap : CompHeap = record heap {
        freelists = set heap.freelists 1 (heap.links head);
      } in
      let inside : 16 * (head + 2) ≤ heap.used = block_inside head 1 popped.was_free in
      let (rest, later, e, given) =
        comp_heap_add_to_freelist-Gives popped_heap other (head + 1) 1 popped.free
          (λ s low high. popped.taken s (omega (arith, low)) (omega (arith, high)))
          (λ z. omega (arith, z)) (λ z. omega (arith, z)) (omega (arith, inside)) valid.used_fits in
      let begin_at : head * 16 + 16 ≡ 16 * (head + 1) = omega arith in
      let end_at : head * 16 + 32 ≡ 16 * (head + 1 + 1) = omega arith in
      let clear : rest.begin_bitmap head ≡ false =
        ap (λ (f : ℕ → Bool). f head) given.same_begins
        ∙ unmarked head (popped.was_free head (omega arith) (omega arith)) in
      (
        marked_at rest head,
        later,
        alloc_from_freelist-split 1 header_size rest (marked_at rest head)
            (ap₂ (comp_heap_add_to_freelist popped_heap) begin_at end_at ∙ e)
            (mark_head rest head clear),
        record {
          free = record {
            count = given.free.count;
            lists = given.free.lists;
            covered = given.free.covered;
            chains = given.free.chains;
          };
          was_free = λ s low high. popped.was_free s low (omega (arith, high));
          apart = λ s low high.
              given.outside s (inl (omega (arith, high)))
              ∙ popped.taken s low (omega (arith, high));
          kept = λ s h. elim h [
            | inl below ↦ given.outside s (inl (omega (arith, below))) ∙ popped.kept s (inl below)
            | inr above ↦ given.outside s (inr (omega (arith, above))) ∙ popped.kept s (inr above)
          ];
          inside = omega (arith, inside);
          same_used = given.same_used;
          marked = rw ((==_iff head head).1 refl) refl;
        },
      )

  alloc_from_freelist-Takes :
      (header_size n : ℕ)
      → Unmarked
      → n ≤ 18
      → get_or heap.freelists (freelist_index n) 0 ≢ 0
      → Takes header_size n (alloc_from_freelist heap (freelist_index n) header_size n)
  alloc_from_freelist-Takes header_size n unmarked small some_head =
      let sized = freelist_index-Sized n small in
      let (other, popped) =
        pop-Popped heap owner valid.free (freelist_index n) sized.inside some_head in
      elim sized.rest [
        | inl little ↦ take_whole header_size n other unmarked sized little popped
        | inr exact ↦
            let head_16 : get_or heap.freelists 1 0 ≢ 0 = rw (exact, index_16) at some_head in
            let (first, taken) = pop-Popped heap owner valid.free 1 (omega arith) head_16 in
            rw (exact, index_16) (take_split header_size first unmarked taken head_16)
      ]

  -- `comp_heap_alloc` of 1 to 18 bytes, with an alignment of up to 16, takes the first block of the
  -- free list for its size, where that has one: the block was in the list and in the used part, none of
  -- what is allocated is in a list any more, and no slots outside the block change owners, if no slot
  -- of a free block is marked as the beginning of an allocation.
  pub comp_heap_alloc-Takes :
      (os : Commits) (size align : ℕ)
      → Unmarked
      → 1 ≤ size
      → size ≤ 18
      → align ≤ 16
      → get_or heap.freelists (freelist_index size) 0 ≢ 0
      → Takes 0 size (comp_heap_alloc os heap size align)
  unfolding comp_heap_alloc comp_heap_alloc_internal
  comp_heap_alloc-Takes os size align unmarked positive small low some_head =
      let wrapped : (size + 0) % 2 ^ 64 ≡ size = mod-eq_of_lt (omega arith) ∙ omega arith in
      let head = get_or heap.freelists (freelist_index size) 0 in
      rw
        (
          ==_ne size 0 (λ e. omega (arith, e, positive)),
          wrapped,
          le→leb align 16 low,
          le→leb size 18 small,
          ==_ne head 0 some_head,
        )
        (alloc_from_freelist-Takes 0 size unmarked small some_head)
