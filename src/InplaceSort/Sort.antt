-- ===== src/InplaceSort/Sort.antt =====
-- `inplace_sort` of infra/inplace_sort.hpp as a whole.
use toy_language.Base.{
  ltb, leb, le→ltb, Bool-cases, length, ℕ, zero, suc, ◌-◌, ◌^◌, ◌≤◌, ◌<◌, ◌≡◌, refl, inl, inr, true,
  List, arith,
}
use mathlib.Core.List.{Perm}
use mathlib.Core.List.Perm
use toy_language.InplaceSort.{
  Comparator, heap_parent, heap_child, swap, less_at, larger_child, heap_sift_loop, heap_sift,
  make_heap_from, make_heap, extract_from, inplace_sort,
}
use toy_language.InplaceSort.Swap.{swap-Perm}
use toy_language.InplaceSort.Insertion.{IsSorted, insertion_sort-IsSorted, insertion_sort-Perm}

module _ {T : Type 0} (c : Comparator T) where
  heap_sift_loop-Perm :
      (fuel count : ℕ) (begin : List T) (root : ℕ)
      → Perm (heap_sift_loop c fuel count begin root) begin
  unfolding heap_sift_loop
  heap_sift_loop-Perm zero count begin root = Perm.refl begin
  heap_sift_loop-Perm (suc fuel) count begin root =
      let child = larger_child c count begin (heap_child root) in
      elim (Bool-cases (ltb (heap_child root) count)) [
        | inr leaf ↦ rw leaf (Perm.refl begin)
        | inl inner ↦ rw inner (elim (Bool-cases (less_at c begin root child)) [
          | inr done ↦ rw done (Perm.refl begin)
          | inl less ↦ rw less (
              Perm.trans (heap_sift_loop-Perm fuel count (swap begin root child) child)
                (swap-Perm begin root child))
        ])
      ]

  pub heap_sift-Perm :
      (count : ℕ) (begin : List T) (root : ℕ) → Perm (heap_sift c count begin root) begin
  unfolding heap_sift
  heap_sift-Perm count begin root = heap_sift_loop-Perm count count begin root

  -- With a root that has no child `heap_sift` changes nothing.
  heap_sift-leaf :
      (count : ℕ) (begin : List T) (root : ℕ)
      → count ≤ heap_child root
      → heap_sift c count begin root ≡ begin
  unfolding heap_sift heap_sift_loop
  heap_sift-leaf zero begin root h = refl
  heap_sift-leaf (suc count) begin root h = rw (le→ltb (heap_child root) (suc count) h)

  make_heap_from-eq :
      (count curr : ℕ) (begin : List T)
      → count < 2 ^ 62
      → curr ≤ count
      → make_heap_from c count curr begin ≡ begin
  unfolding make_heap_from heap_child
  make_heap_from-eq count zero begin small h = heap_sift-leaf 0 begin count (omega arith)
  make_heap_from-eq count (suc curr) begin small h =
      rw (heap_sift-leaf (suc curr) begin count (unfold heap_child in omega arith))
        (make_heap_from-eq count curr begin small (omega arith))

  -- `make_heap` of 2 to 2^62 - 1 elements changes nothing: its calls of `heap_sift` have the count
  -- and the root in each other's place.
  pub make_heap-eq :
      (count : ℕ) (begin : List T) → 1 < count → count < 2 ^ 62 → make_heap c count begin ≡ begin
  unfolding make_heap
  make_heap-eq count begin several small =
      make_heap_from-eq count (heap_parent (count - 1)) begin small
        (unfold heap_parent in omega arith)

  extract_from-Perm : (i : ℕ) (begin : List T) → Perm (extract_from c i begin) begin
  unfolding extract_from
  extract_from-Perm zero begin = Perm.refl begin
  extract_from-Perm (suc i) begin =
      Perm.trans (extract_from-Perm i _)
        (Perm.trans (heap_sift-Perm (suc i) (swap begin (suc i) 0) 0) (swap-Perm begin (suc i) 0))

  make_heap_from-Perm :
      (count curr : ℕ) (begin : List T) → Perm (make_heap_from c count curr begin) begin
  unfolding make_heap_from
  make_heap_from-Perm count zero begin = heap_sift-Perm 0 begin count
  make_heap_from-Perm count (suc curr) begin =
      Perm.trans (make_heap_from-Perm count curr _) (heap_sift-Perm (suc curr) begin count)

  make_heap-Perm : (count : ℕ) (begin : List T) → Perm (make_heap c count begin) begin
  unfolding make_heap
  make_heap-Perm count begin = make_heap_from-Perm count (heap_parent (count - 1)) begin

  -- `inplace_sort` permutes the elements, at every length.
  pub inplace_sort-Perm : (elems : List T) → Perm (inplace_sort c elems) elems
  unfolding inplace_sort
  inplace_sort-Perm elems = elim (Bool-cases (leb (length elems) 8)) [
    | inl short ↦ rw short (insertion_sort-Perm c (length elems) elems)
    | inr long ↦
        rw long (
          Perm.trans (extract_from-Perm (length elems - 1) _) (make_heap-Perm (length elems) elems))
  ]

  -- `inplace_sort` puts up to 8 elements in order.
  pub inplace_sort-IsSorted :
      (elems : List T) → length elems ≤ 8 → IsSorted c (length elems) (inplace_sort c elems)
  unfolding inplace_sort
  inplace_sort-IsSorted elems short =
      rw (let e : leb (length elems) 8 ≡ true = ground arith in e) (insertion_sort-IsSorted c elems)
