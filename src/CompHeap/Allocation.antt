-- ===== src/CompHeap/Allocation.antt =====
-- `comp_heap_alloc_internal` of core/comp_heap.cpp, where it takes memory at the end of the heap.
use toy_language.Base.{
  ◌==◌, ==_ne, if◌then◌else◌, ==_iff, Run, returns, ℕ, ◌+◌, ◌-◌, ◌*◌, ◌/◌, ◌%◌, ◌^◌, ◌≤◌, ◌<◌, ◌≡◌,
  refl, sym, ap, ◌∙◌, ◌≢◌, ◌⊎◌, inl, inr, Bool, true, false, none, some, arith,
}
use native.Mathlib.Decide.{ℕ_discrete}
use mathlib.Core.Path.{ap₂}
use toy_language.Math.{align_to}
use toy_language.Math.Align.{IsNextMultiple}
use native.Mathlib.Nat.{mod-eq_of_lt, pow-le-pow_right}
use toy_language.CompHeap.{
  CompHeap, Commits, Allocated, comp_heap_ensure_commit, comp_heap_mark_begin,
  comp_heap_add_to_freelist, alloc_at_end, with_bit,
}
use toy_language.CompHeap.Blocks.{Owners, IsFree, Unowned}
use toy_language.CompHeap.FreeList.{Returned, comp_heap_add_to_freelist-Gives}
use toy_language.CompHeap.AtEnd.{
  CommitsTo, IsCommitted, align_to-IsNextMultiple, comp_heap_ensure_commit-CommitsTo,
  next_slot_aligned,
}

-- The used part ends at a slot, behind all blocks of the free lists and all marked slots.
pub record IsHeap (heap : CompHeap) (owner : Owners) : Type 0 where
  pub free : IsFree heap owner
  pub null : 16 ≤ heap.used
  pub whole : heap.used % 16 ≡ 0
  pub unowned : (s : ℕ) → heap.used ≤ 16 * s → owner s ≡ none
  pub unmarked : (s : ℕ) → heap.used ≤ 16 * s → heap.begin_bitmap s ≡ false
  pub increment : ℕ
  pub power : heap.commit_increment ≡ 2 ^ increment
  pub page : increment ≤ 36
  pub reserve_fits : heap.reserve ≤ 2 ^ 36
  pub used_fits : heap.used ≤ 2 ^ 36
  pub commit_fits : heap.commit ≤ 2 ^ 36

-- Memory behind what was used, which is in no free list; the lists have what they had, and the
-- padding, if it is less than 2 ^ 18 bytes.
pub record AtEnd (heap : CompHeap) (owner : Owners) (size align header_size address : ℕ)
    (new : CompHeap) (other : Owners) : Type 0 where
  pub free : IsFree new other
  pub aligned : address % align ≡ 0
  pub behind : heap.used + header_size ≤ address
  pub slot : address % 16 ≡ 0
  pub near : address < heap.used + header_size + align
  pub inside : address + size ≤ new.used
  pub slots : new.used % 16 ≡ 0
  pub kept : (s : ℕ) → 16 * s < heap.used → other s ≡ owner s
  pub apart : (s : ℕ) → address ≤ 16 * s → other s ≡ none
  pub padding :
      address < heap.used + header_size + 2 ^ 18
      → (s : ℕ) → heap.used + header_size ≤ 16 * s
      → 16 * s < address
      → other s ≢ none
  pub marked : new.begin_bitmap ((address - header_size) / 16) ≡ true

abbrev pub Allocates : CompHeap → Owners → ℕ → ℕ → ℕ → Run Allocated → Type 0
Allocates heap owner size align header_size run =
    (run ≡ returns (none, heap))
    ⊎ ((address : ℕ) × (new : CompHeap) × (other : Owners) × (run ≡ returns (some address, new))
        × AtEnd heap owner size align header_size address new other)

pub mark_begin :
    (heap : CompHeap) (address : ℕ)
    → heap.begin_bitmap (address / 16) ≡ false
    → comp_heap_mark_begin heap address
      ≡ returns (record heap { begin_bitmap = with_bit heap.begin_bitmap (address / 16) })
unfolding comp_heap_mark_begin
mark_begin heap address clear = rw clear refl

-- The steps behind the commit, where the lists are given the padding.
abbrev pad : CompHeap → ℕ → ℕ → Run CompHeap
pad heap unaligned_begin aligned_begin =
    if unaligned_begin == aligned_begin
    then returns heap
    else comp_heap_add_to_freelist heap unaligned_begin aligned_begin

pad-Returned :
    (heap : CompHeap) (owner : Owners) (slot count : ℕ)
    → IsFree heap owner
    → Unowned owner slot count
    → slot ≢ 0
    → 16 * (slot + count) ≤ heap.used
    → heap.used ≤ 2 ^ 36
    → (new : CompHeap) × (other : Owners) × (pad heap (16 * slot) (16 * (slot + count))
        ≡ returns new)
      × Returned heap new owner other slot count
pad-Returned heap owner slot count free unowned some_slot inside fits = elim (ℕ_discrete count 0) [
  | yes none_needed ↦
      let same : (16 * slot == 16 * (slot + count)) ≡ true =
        (==_iff (16 * slot) (16 * (slot + count))).1 (omega (arith, none_needed)) in
      (
        heap,
        owner,
        rw same refl,
        record {
          free = free;
          outside = λ s h. refl;
          inside = λ small s low high. absurd (omega (arith, none_needed, low, high));
          same_used = refl;
          same_begins = refl;
        },
      )
  | no needed ↦
      let (new, other, e, given) =
        comp_heap_add_to_freelist-Gives heap owner slot count free unowned some_slot needed inside
          fits in
      (
        new,
        other,
        rw (==_ne (16 * slot) (16 * (slot + count)) (λ z. needed (omega (arith, z)))) e,
        given,
      )
]

module _ (os : Commits) (heap : CompHeap) (owner : Owners) (valid : IsHeap heap owner) where
  alloc_at_end-returns :
      (size align header_size : ℕ) (committed padded marked : CompHeap)
      → (heap.used + header_size) % 2 ^ 64 ≡ heap.used + header_size
      → (align_to (heap.used + header_size) align + size) % 2 ^ 64
        ≡ align_to (heap.used + header_size) align + size
      → comp_heap_ensure_commit os heap
          (align_to (align_to (heap.used + header_size) align + size) 16)
        ≡ returns (true, committed)
      → pad
          (record committed {
            used = align_to (align_to (heap.used + header_size) align + size) 16;
          })
          (heap.used + header_size)
          (align_to (heap.used + header_size) align)
        ≡ returns padded
      → comp_heap_mark_begin padded (align_to (heap.used + header_size) align - header_size)
        ≡ returns marked
      → alloc_at_end os heap size align header_size
        ≡ returns (some (align_to (heap.used + header_size) align), marked)
  unfolding alloc_at_end
  alloc_at_end-returns size align header_size committed padded marked wrapped end e p m =
      rw (wrapped, end, e, p, m) refl

  alloc_at_end-fails :
      (size align header_size : ℕ)
      → (heap.used + header_size) % 2 ^ 64 ≡ heap.used + header_size
      → (align_to (heap.used + header_size) align + size) % 2 ^ 64
        ≡ align_to (heap.used + header_size) align + size
      → comp_heap_ensure_commit os heap
          (align_to (align_to (heap.used + header_size) align + size) 16)
        ≡ returns (false, heap)
      → alloc_at_end os heap size align header_size ≡ returns (none, heap)
  unfolding alloc_at_end
  alloc_at_end-fails size align header_size wrapped end e = rw (wrapped, end, e) refl

  grown-IsFree : (commit used : ℕ) → IsFree (record heap { commit = commit; used = used }) owner
  grown-IsFree commit used = record {
    count = valid.free.count;
    lists = valid.free.lists;
    covered = valid.free.covered;
    chains = valid.free.chains;
  }

  pub alloc_at_end-Allocates :
      (size a header_size : ℕ)
      → IsCommitted heap
      → size ≤ 2 ^ 40
      → a ≤ 36
      → header_size % 16 ≡ 0
      → header_size ≤ 16
      → Allocates heap owner size
          (2 ^ a)
          header_size
          (alloc_at_end os heap size (2 ^ a) header_size)
  alloc_at_end-Allocates size a header_size is small low whole few =
      let unaligned = heap.used + header_size in
      let used_fits = valid.used_fits in
      let used_whole = valid.whole in
      let null = valid.null in
      let wrapped : unaligned % 2 ^ 64 ≡ unaligned = mod-eq_of_lt (omega arith) in
      let aligned = align_to unaligned (2 ^ a) in
      let first : IsNextMultiple unaligned (2 ^ a) aligned =
        align_to-IsNextMultiple unaligned a low (omega arith) in
      let bound : 2 ^ a ≤ 2 ^ 36 = pow-le-pow_right (omega arith) low in
      let above = first.above in
      let near = first.near in
      let slot_whole : aligned % 16 ≡ 0 =
        next_slot_aligned unaligned a aligned (omega (arith, used_whole, whole)) first in
      let end : (aligned + size) % 2 ^ 64 ≡ aligned + size =
        mod-eq_of_lt (omega (arith, near, bound)) in
      let new_used = align_to (aligned + size) 16 in
      let second : IsNextMultiple (aligned + size) (2 ^ 4) new_used =
        align_to-IsNextMultiple (aligned + size) 4 (omega arith) (omega (arith, near, bound)) in
      let commits : CommitsTo heap new_used (comp_heap_ensure_commit os heap new_used) =
        comp_heap_ensure_commit-CommitsTo os heap valid.increment new_used is valid.power valid.page
          valid.reserve_fits in
      elim commits [
        | inl failed ↦ inl (alloc_at_end-fails size (2 ^ a) header_size wrapped end failed)
        | inr (commit, e, covered, room) ↦
            let grown : CompHeap = record heap { commit = commit; used = new_used } in
            let slot = unaligned / 16 in
            let count = (aligned - unaligned) / 16 in
            let begin_at : 16 * slot ≡ unaligned = omega (arith, used_whole, whole) in
            let end_at : 16 * (slot + count) ≡ aligned =
              omega (arith, used_whole, whole, slot_whole, above) in
            let over = second.above in
            let top : new_used ≤ 2 ^ 36 = elim room [
              | inl h ↦ omega (arith, h, valid.commit_fits)
              | inr h ↦ omega (arith, h, valid.reserve_fits)
            ] in
            let (padded, other, p, given) =
              pad-Returned grown owner slot count (grown-IsFree commit new_used)
                (λ s h k. valid.unowned s (omega (arith, begin_at, h)))
                (λ z. omega (arith, z, begin_at, null)) (omega (arith, end_at, over)) top in
            let padded_at : pad grown unaligned aligned ≡ returns padded =
              ap₂ (pad grown) (sym begin_at) (sym end_at) ∙ p in
            let header = (aligned - header_size) / 16 in
            let behind : heap.used ≤ 16 * header =
              omega (arith, above, slot_whole, whole, used_whole) in
            let clear : padded.begin_bitmap header ≡ false =
              ap (λ (f : ℕ → Bool). f header) given.same_begins ∙ valid.unmarked header behind in
            let marked : CompHeap = record padded {
              begin_bitmap = with_bit padded.begin_bitmap header;
            } in
            inr (
              aligned,
              marked,
              other,
              alloc_at_end-returns size (2 ^ a) header_size (record heap { commit = commit }) padded
                  marked wrapped end e padded_at (mark_begin padded (aligned - header_size) clear),
              record {
                free = record {
                  count = given.free.count;
                  lists = given.free.lists;
                  covered = given.free.covered;
                  chains = given.free.chains;
                };
                aligned = first.multiple;
                behind = above;
                slot = slot_whole;
                near = near;
                inside = rw given.same_used over;
                slots = rw given.same_used second.multiple;
                kept = λ s h. given.outside s (inl (omega (arith, h, begin_at)));
                apart = λ s h.
                    given.outside s (inr (omega (arith, h, end_at)))
                    ∙ valid.unowned s (omega (arith, h, above));
                padding = λ near_enough s h k.
                    given.inside (omega (arith, near_enough, begin_at, end_at)) s
                      (omega (arith, h, begin_at)) (omega (arith, k, end_at));
                marked = rw ((==_iff header header).1 refl) refl;
              },
            )
      ]
