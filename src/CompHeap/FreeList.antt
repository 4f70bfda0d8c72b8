-- ===== src/CompHeap/FreeList.antt =====
-- `comp_heap_add_to_freelist` of core/comp_heap.cpp.
use toy_language.Base.{
  ltb, ◌==◌, ==_ne, le→ltb, ==_iff, Run, returns, ℕ, zero, suc, ◌+◌, ◌-◌, ◌*◌, ◌%◌, ◌^◌, ◌≤◌, ◌<◌,
  ◌≡◌, refl, sym, ap, ◌∙◌, ◌≢◌, ◌⊎◌, inl, inr, true, false, none, arith,
}
use native.Mathlib.Decide.{dec_lt}
use toy_language.CompHeap.{Rest, comp_heap_add_to_freelist, small_loop, freelist_count}
use toy_language.CompHeap.{CompHeap, push_block, large_loop}
use toy_language.CompHeap.Blocks.{Owners, IsFree, Unowned}
use toy_language.CompHeap.Freed.{Freed, push_block-Freed}
use mathlib.Core.Path.{ap₂}
use toy_language.CompHeap.SmallBlocks.{Small, start, small_loop-Small}

-- The memory is given to the free lists: all of it has owners, if it is less than 2 ^ 18 bytes, and
-- nothing else has changed.
pub record Returned (heap new : CompHeap) (owner other : Owners) (begin count : ℕ) : Type 0 where
  pub free : IsFree new other
  pub outside : (s : ℕ) → (s < begin) ⊎ (begin + count ≤ s) → other s ≡ owner s
  pub inside : count < 2 ^ 14 → (s : ℕ) → begin ≤ s → s < begin + count → other s ≢ none
  pub same_used : new.used ≡ heap.used
  pub same_begins : new.begin_bitmap ≡ heap.begin_bitmap

Returned-then :
    (heap mid new : CompHeap) (owner between other : Owners) (begin first left : ℕ)
    → Freed heap mid owner between begin first
    → Returned mid new between other (begin + first) (left * 2 ^ 14)
    → Returned heap new owner other begin (first + left * 2 ^ 14)
Returned-then heap mid new owner between other begin first left a b = record {
  free = b.free;
  outside = λ s h. elim h [
    | inl below ↦ b.outside s (inl (omega arith)) ∙ a.outside s (inl below)
    | inr above ↦ b.outside s (inr (omega arith)) ∙ a.outside s (inr (omega arith))
  ];
  inside = λ small s low high. elim (dec_lt s (begin + first)) [
    | yes early ↦ λ e. a.inside s low early (sym (b.outside s (inl early)) ∙ e)
    | no late ↦ absurd (omega arith)
  ];
  same_used = b.same_used ∙ a.same_used;
  same_begins = b.same_begins ∙ a.same_begins;
}

-- A block of the last list, and what is behind it.
Returned-skip :
    (heap mid new : CompHeap) (owner between other : Owners) (begin left : ℕ)
    → Freed heap mid owner between begin (2 ^ 13)
    → Returned mid new between other (begin + 2 ^ 14) (left * 2 ^ 14)
    → Returned heap new owner other begin (suc left * 2 ^ 14)
Returned-skip heap mid new owner between other begin left a b = record {
  free = b.free;
  outside = λ s h. elim h [
    | inl below ↦ b.outside s (inl (omega arith)) ∙ a.outside s (inl below)
    | inr above ↦ b.outside s (inr (omega arith)) ∙ a.outside s (inr (omega arith))
  ];
  inside = λ small s low high. absurd (omega arith);
  same_used = b.same_used ∙ a.same_used;
  same_begins = b.same_begins ∙ a.same_begins;
}

-- The loop returns, and gives its memory to the lists.
abbrev Gives : CompHeap → Owners → ℕ → ℕ → Run CompHeap → Type 0
Gives heap owner slot count run =
    (new : CompHeap) × (other : Owners) × (run ≡ returns new)
    × Returned heap new owner other slot count

large_loop-done :
    (fuel slot : ℕ) (heap : CompHeap) → large_loop (suc fuel) (start heap slot 0) ≡ returns heap
unfolding large_loop
large_loop-done fuel slot heap = refl

large_loop-more :
    (fuel slot left : ℕ) (heap : CompHeap)
    → large_loop (suc fuel) (start heap slot (suc left * 2 ^ 14))
      ≡ large_loop fuel (start (push_block heap 13 (16 * slot)) (slot + 2 ^ 14) (left * 2 ^ 14))
unfolding large_loop
large_loop-more fuel slot left heap =
    let some_left : (16 * (suc left * 2 ^ 14) == 0) ≡ false =
      ==_ne (16 * (suc left * 2 ^ 14)) 0 (λ e. omega (arith, e)) in
    let enough : ltb (16 * (suc left * 2 ^ 14)) (2 ^ 18) ≡ false =
      le→ltb (16 * (suc left * 2 ^ 14)) (2 ^ 18) (omega arith) in
    let curr : 16 * slot + 2 ^ 18 ≡ 16 * (slot + 2 ^ 14) = omega arith in
    let size : 16 * (suc left * 2 ^ 14) - 2 ^ 18 ≡ 16 * (left * 2 ^ 14) = omega arith in
    rw (some_left, enough, curr, size) refl

large_loop-Gives :
    (fuel left slot : ℕ) (heap : CompHeap) (owner : Owners)
    → IsFree heap owner
    → left < fuel
    → Unowned owner slot (left * 2 ^ 14)
    → slot ≢ 0
    → slot + left * 2 ^ 14 ≤ 2 ^ 32
    → Gives heap owner slot (left * 2 ^ 14) (large_loop fuel (start heap slot (left * 2 ^ 14)))
large_loop-Gives zero left slot heap owner free enough unowned some_slot fits = absurd (omega arith)
large_loop-Gives (suc fuel) zero slot heap owner free enough unowned some_slot fits = (
  heap,
  owner,
  large_loop-done fuel slot heap,
  record {
    free = free;
    outside = λ s h. refl;
    inside = λ small s low high. absurd (omega arith);
    same_used = refl;
    same_begins = refl;
  },
)
large_loop-Gives (suc fuel) (suc left) slot heap owner free enough unowned some_slot fits =
    let (between, pushed) =
      push_block-Freed heap owner free 13 slot (omega arith)
        (λ s low high. unowned s low (omega arith)) some_slot (omega arith) in
    let mid = push_block heap 13 (16 * slot) in
    let (new, other, e, rest) =
      large_loop-Gives fuel left (slot + 2 ^ 14) mid between pushed.free (omega arith)
        (λ s low high. pushed.outside s (inr (omega arith)) ∙ unowned s (omega arith) (omega arith))
        (λ z. omega (arith, z)) (omega arith) in
    (
      new,
      other,
      large_loop-more fuel slot left heap ∙ e,
      Returned-skip heap mid new owner between other slot left pushed rest,
    )

Small-start :
    (heap : CompHeap) (owner : Owners) (slot count : ℕ) (rest : Rest)
    (small : Small heap owner slot count rest)
    → rest ≡ start rest.heap (slot + small.done) (small.left * 2 ^ 14)
Small-start heap owner slot count rest small =
    ap₂ (λ (c z : ℕ). record { heap = rest.heap; curr = c; size = z }) small.address small.remaining

-- Memory that is not empty, that is aligned, in a multiple of 16 bytes, behind the first slot and inside
-- the used part, which is at most 2 ^ 36 bytes, and that no block of the lists has a part of, is given
-- to the lists: all of it, if it is less than 2 ^ 18 bytes, in blocks that are apart from each other and
-- from the others, whose lists and places stay; no other slot is in a block of the lists that was in
-- none.
pub comp_heap_add_to_freelist-Gives :
    (heap : CompHeap) (owner : Owners) (slot count : ℕ)
    → IsFree heap owner
    → Unowned owner slot count
    → slot ≢ 0
    → count ≢ 0
    → 16 * (slot + count) ≤ heap.used
    → heap.used ≤ 2 ^ 36
    → (new : CompHeap) × (other : Owners) × (comp_heap_add_to_freelist heap
          (16 * slot)
          (16 * (slot + count))
        ≡ returns new)
      × Returned heap new owner other slot count
unfolding comp_heap_add_to_freelist
comp_heap_add_to_freelist-Gives heap owner slot count free unowned some_slot nonempty inside fits =
    let begin = 16 * slot in
    let end = 16 * (slot + count) in
    let rest = small_loop freelist_count 0 16 (start heap slot count) in
    let small : Small heap owner slot count rest =
      small_loop-Small freelist_count 0 count count 16 slot heap owner free (omega arith)
        (omega arith) (omega arith) unowned some_slot (omega arith) in
    let total : small.done + small.left * 2 ^ 14 ≡ count = small.total in
    let (new, other, e, more) =
      large_loop-Gives (end - begin + 1) small.left (slot + small.done) rest.heap small.other
        small.freed.free (omega (arith, total))
        (λ s low high.
          small.freed.outside s (inr low)
          ∙ unowned s (omega (arith, low)) (omega (arith, high, total)))
        (λ z. some_slot (omega (arith, z))) (omega (arith, total)) in
    let all : Returned heap new owner other slot (small.done + small.left * 2 ^ 14) =
      Returned-then heap rest.heap new owner small.other other slot small.done small.left
        small.freed more in
    let size : end - begin ≡ 16 * count = omega arith in
    let aligned : (begin % 16 == 0) ≡ true = (==_iff (begin % 16) 0).1 (omega arith) in
    let looped : large_loop (end - begin + 1) (
          small_loop freelist_count 0 16 (record { heap = heap; curr = begin; size = end - begin }))
        ≡ returns new =
      ap (large_loop (end - begin + 1)) (
        ap
          (λ (z : ℕ).
            small_loop freelist_count 0 16 (record { heap = heap; curr = begin; size = z }))
          size
        ∙ Small-start heap owner slot count rest small)
      ∙ e in
    (
      new,
      other,
      rw (le→ltb heap.used end inside, aligned, le→ltb (end - begin) 16 (omega arith)) looped,
      rw total at all,
    )
