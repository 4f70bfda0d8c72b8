-- ===== src/Tests/InplaceSort.antt =====
-- infra/inplace_sort.hpp, with numbers in their order.
use toy_language.Base.{ltb, ℕ, List, [], ◌∷◌, arith}
use mathlib.Core.List.{Perm}
use toy_language.InplaceSort.{Comparator, heap_sift, insertion_sort}
use toy_language.InplaceSort.Insertion.{IsSorted, insertion_sort-sorts}
use toy_language.InplaceSort.Heap.{IsHeapFrom, heap_sift-IsHeapFrom}

abbrev by_value : Comparator ℕ
by_value = record {
  less = ltb;
  less_asymm = λ a b h. ground arith;
  less_trans = λ a b d h k. ground arith;
}

abbrev three_elements : List ℕ
three_elements = 5 ∷ 3 ∷ 9 ∷ []

abbrev nine_elements : List ℕ
nine_elements = 5 ∷ 3 ∷ 9 ∷ 1 ∷ 8 ∷ 2 ∷ 7 ∷ 4 ∷ 6 ∷ []

heap_sift-IsHeapFrom_example : IsHeapFrom by_value 3 1 (heap_sift by_value 3 three_elements 1)
heap_sift-IsHeapFrom_example =
    heap_sift-IsHeapFrom by_value 3 1 three_elements (omega arith) (omega arith) (omega arith)
      (λ p q a b d. ground arith)

insertion_sort-sorts_example :
    IsSorted by_value 3 (insertion_sort by_value 3 three_elements)
    × Perm (insertion_sort by_value 3 three_elements) three_elements
insertion_sort-sorts_example = insertion_sort-sorts by_value three_elements
