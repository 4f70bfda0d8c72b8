-- ===== src/Tests/CompHeap.antt =====
-- core/comp_heap.cpp at a concrete heap, of 160 bytes that are used.
use toy_language.Base.{
  List, ◌<◌, ap, inl, ◌==◌, ==_ne, if◌then◌else◌, ==_iff, returns, undefined, get_or, replicate,
  get_or-replicate, ℕ, zero, suc, ◌≡◌, refl, ◌≢◌, true, false, ◌||◌, none, some, [], ◌∷◌, arith,
}
use mathlib.Core.Option.{some-injective}
use toy_language.CompHeap.{
  CompHeap, Commits, comp_heap_add_to_freelist, comp_heap_alloc, alloc_at_end, comp_heap_dealloc,
}
use toy_language.CompHeap.Blocks.{Owners, Covers, IsFree}
use toy_language.CompHeap.FreeList.{Returned, comp_heap_add_to_freelist-Gives}
use toy_language.CompHeap.Remainder.{comp_heap_dealloc-undefined}
use toy_language.CompHeap.Allocation.{IsHeap, Allocates}
use native.Mathlib.Decide.{ℕ_discrete}
use toy_language.CompHeap.{log2_ceil, bit_length}
use toy_language.CompHeap.Taken.{Unmarked, Takes, comp_heap_alloc-Takes}
use toy_language.CompHeap.AtEnd.{IsCommitted}
use toy_language.CompHeap.Header.{comp_heap_alloc-Allocates, Headed, alloc_at_end-Headed}

-- The slots 2 and 5 begin allocations.
abbrev small_heap : CompHeap
small_heap = record {
  used = 160;
  commit = 4096;
  reserve = 65536;
  commit_increment = 4096;
  begin_bitmap = λ s. s == 2 || s == 5;
  header_bitmap = λ s. false;
  leak_bitmap = λ s. false;
  freelists = replicate 14 0;
  links = λ s. 0;
}

abbrev no_owners : Owners
no_owners = λ s. none

abbrev commits_all : Commits
commits_all = record { heap_commit = λ at size. true; bitmap_commit = λ which at size. true }

small_heap-IsFree : IsFree small_heap no_owners
small_heap-IsFree = record {
  count = refl;
  lists = λ index. [];
  covered = λ s index n e. cc;
  chains = λ index h. get_or-replicate 14 index 0;
}

small_heap-IsHeap : IsHeap small_heap no_owners
small_heap-IsHeap = record {
  free = small_heap-IsFree;
  null = omega arith;
  whole = refl;
  unowned = λ s h. refl;
  unmarked = λ s h. ground arith;
  increment = 12;
  power = refl;
  page = omega arith;
  reserve_fits = omega arith;
  used_fits = omega arith;
  commit_fits = omega arith;
}

small_heap-IsCommitted : IsCommitted small_heap
small_heap-IsCommitted = record {
  increment_fits = omega arith;
  reserve_whole = refl;
  commit_whole = refl;
}

comp_heap_add_to_freelist-Gives_example :
    (new : CompHeap) × (other : Owners) × (comp_heap_add_to_freelist small_heap 32 112
      ≡ returns new)
    × Returned small_heap new no_owners other 2 5
comp_heap_add_to_freelist-Gives_example =
    comp_heap_add_to_freelist-Gives small_heap no_owners 2 5 small_heap-IsFree (λ s low high. refl)
      (λ e. omega (arith, e)) (λ e. omega (arith, e)) (omega arith) (omega arith)

comp_heap_alloc-Allocates_example :
    Allocates small_heap no_owners 100 32 0 (comp_heap_alloc commits_all small_heap 100 32)
comp_heap_alloc-Allocates_example =
    comp_heap_alloc-Allocates commits_all small_heap no_owners small_heap-IsHeap 100 5
      small_heap-IsCommitted (omega arith) (omega arith) (omega arith)

alloc_at_end-Headed_example :
    Headed commits_all small_heap no_owners small_heap-IsHeap
      (alloc_at_end commits_all small_heap 8 64 16)
alloc_at_end-Headed_example =
    alloc_at_end-Headed commits_all small_heap no_owners small_heap-IsHeap 8 6
      small_heap-IsCommitted (omega arith) (omega arith)

comp_heap_dealloc-undefined_example : comp_heap_dealloc small_heap 32 52 ≡ undefined
comp_heap_dealloc-undefined_example =
    comp_heap_dealloc-undefined small_heap 32 52 (omega arith) (omega arith) (λ e. omega (arith, e))

-- The list of blocks of 16 bytes has that of slot 7.
abbrev freed_heap : CompHeap
freed_heap = record small_heap { freelists = 7 ∷ replicate 13 0 }

abbrev owner_of_7 : Owners
owner_of_7 = λ s. if s == 7 then some (0, 0) else none

no_others : (index : ℕ) → index ≢ 0 → get_or freed_heap.freelists index 0 ≡ 0
no_others zero other = absurd (other refl)
no_others (suc index) other = get_or-replicate 13 index 0

-- The lists of `freed_heap`.
abbrev freed_lists : ℕ → List ℕ
freed_lists index = if index == 0 then 7 ∷ [] else []

freed_covered :
    (s index n : ℕ)
    → owner_of_7 s ≡ some (index, n)
    → (index < 14) × Covers index (freed_lists index) s n
freed_covered s index n e = elim (ℕ_discrete s 7) [
  | no other ↦ let none_there : owner_of_7 s ≡ none = rw (==_ne s 7 other) refl in absurd (cc)
  | yes here ↦
      let same : (0, 0) ≡ (index, n) =
        some-injective (0, 0) (index, n) (rw ((==_iff s 7).1 here) at e) in
      let index_same : 0 ≡ index = ap (λ (p : ℕ × ℕ). p.0) same in
      let length_same : 0 ≡ n = ap (λ (p : ℕ × ℕ). p.1) same in
      rw (← index_same, ← length_same) (omega arith, inl (refl, omega arith, omega arith))
]

freed_heap-IsFree : IsFree freed_heap owner_of_7
freed_heap-IsFree = record {
  count = refl;
  lists = freed_lists;
  covered = freed_covered;
  chains = λ index h. elim (ℕ_discrete index 0) [
    | yes first ↦ rw first (
      refl,
      (λ e. omega (arith, e)),
      (λ s low high. let here : s ≡ 7 = omega arith in rw ((==_iff s 7).1 here) refl),
      refl,
    )
    | no other ↦ rw (==_ne index 0 other) (no_others index other)
  ];
}

freed_heap-IsHeap : IsHeap freed_heap owner_of_7
freed_heap-IsHeap = record {
  free = freed_heap-IsFree;
  null = omega arith;
  whole = refl;
  unowned = λ s h. rw (==_ne s 7 (λ e. omega (arith, e, h))) refl;
  unmarked = λ s h. ground arith;
  increment = 12;
  power = refl;
  page = omega arith;
  reserve_fits = omega arith;
  used_fits = omega arith;
  commit_fits = omega arith;
}

freed_heap-Unmarked : Unmarked freed_heap owner_of_7 freed_heap-IsHeap
freed_heap-Unmarked s owned = elim (ℕ_discrete s 7) [
  | yes here ↦ rw here refl
  | no other ↦ absurd (owned (rw (==_ne s 7 other) refl))
]

comp_heap_alloc-Takes_example :
    Takes freed_heap owner_of_7 freed_heap-IsHeap 0 10 (comp_heap_alloc commits_all freed_heap 10 8)
unfolding log2_ceil bit_length
comp_heap_alloc-Takes_example =
    comp_heap_alloc-Takes freed_heap owner_of_7 freed_heap-IsHeap commits_all 10 8
      freed_heap-Unmarked (omega arith) (omega arith) (omega arith) (λ e. omega (arith, e))
