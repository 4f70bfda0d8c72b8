-- ===== src/InplaceSort/Insertion.antt =====
-- `insertion_sort` of infra/inplace_sort.hpp.
use toy_language.Base.{
  ◌==◌, if◌then◌else◌, Bool-cases, length, get_elem?, ℕ, zero, suc, ◌+◌, ◌-◌, ◌≤◌, ◌<◌, ◌≡◌, refl,
  ◌≢◌, inl, inr, true, false, Option, none, some, List, [], ◌∷◌, arith,
}
use mathlib.Core.List.{Perm}
use mathlib.Core.List.Perm
use native.Mathlib.Nat.{add-zero}
use native.Mathlib.Numerals.{add-one}
use toy_language.InplaceSort.{
  Comparator, swap, less_value, less_at, sink, insert_from, insertion_sort,
}
use toy_language.InplaceSort.Swap.{get_elem?-swap, length-swap, swap-Perm}

module _ {T : Type 0} (c : Comparator T) where
  -- No element of the first `count` is less than the one before it.
  abbrev pub IsSorted : ℕ → List T → Type 0
  IsSorted count begin = (k : ℕ) → suc k < count → less_at c begin (suc k) k ≡ false

  -- The state of the inner loop at `j`: sorted but for the element at `j`, whose neighbours are
  -- in order.
  abbrev Sinking : ℕ → ℕ → List T → Type 0
  Sinking i j begin =
      ((k : ℕ) → suc k ≤ i → suc k ≢ j → less_at c begin (suc k) k ≡ false)
      × ((k : ℕ) → suc k ≡ j → suc j ≤ i → less_at c begin (suc j) k ≡ false)

  less_value_asymm : (u v : Option T) → less_value c u v ≡ true → less_value c v u ≡ false
  less_value_asymm (some a) (some b) h = c.less_asymm a b h
  less_value_asymm (some a) none h = refl
  less_value_asymm none v h = cc

  -- An exchange carries the state of the loop to the place below.
  Sinking-swap :
      (i j : ℕ) (begin : List T)
      → suc j ≤ i
      → i < length begin
      → less_at c begin (suc j) j ≡ true
      → Sinking i (suc j) begin
      → Sinking i j (swap begin (suc j) j)
  Sinking-swap i j begin h size less s = (first, second)
    where
      at :
          (k : ℕ)
          → get_elem? (swap begin (suc j) j) k ≡ (
              if k == suc j
              then get_elem? begin j
              else if k == j
              then get_elem? begin (suc j)
              else get_elem? begin k)
      at k = get_elem?-swap begin (suc j) j k (omega arith) (omega arith)

      first : (k : ℕ) → suc k ≤ i → suc k ≢ j → less_at c (swap begin (suc j) j) (suc k) k ≡ false
      first k p q =
          rw (at k, at (suc k))
            (ground (
              arith,
              s.0 k,
              s.0 (suc k),
              s.1 j refl,
              less_value_asymm (get_elem? begin (suc j)) (get_elem? begin j) less,
            ))

      second : (k : ℕ) → suc k ≡ j → suc j ≤ i → less_at c (swap begin (suc j) j) (suc j) k ≡ false
      second k p q =
          rw (at k, at (suc j))
            (ground (
              arith,
              s.0 k,
              s.0 (suc k),
              s.1 j refl,
              less_value_asymm (get_elem? begin (suc j)) (get_elem? begin j) less,
            ))

  sink-IsSorted :
      (i j : ℕ) (begin : List T)
      → j ≤ i
      → i < length begin
      → Sinking i j begin
      → IsSorted (suc i) (sink c j begin)
  unfolding sink
  sink-IsSorted i zero begin h size s = λ k p. s.0 k (omega arith) (omega arith)
  sink-IsSorted i (suc j) begin h size s = elim (Bool-cases (less_at c begin (suc j) j)) [
    | inl less ↦ rw less (
        sink-IsSorted i j (swap begin (suc j) j) (omega arith)
          (rw (length-swap begin (suc j) j) size) (Sinking-swap i j begin h size less s))
    | inr done ↦ rw done (λ k p. ground (arith, s.0 k))
  ]

  length-sink : (j : ℕ) (begin : List T) → length (sink c j begin) ≡ length begin
  unfolding sink
  length-sink zero begin = refl
  length-sink (suc j) begin =
      ground (arith, length-sink j (swap begin (suc j) j), length-swap begin (suc j) j)

  sink-Perm : (j : ℕ) (begin : List T) → Perm (sink c j begin) begin
  unfolding sink
  sink-Perm zero begin = Perm.refl begin
  sink-Perm (suc j) begin = elim (Bool-cases (less_at c begin (suc j) j)) [
    | inl less ↦
        rw less (Perm.trans (sink-Perm j (swap begin (suc j) j)) (swap-Perm begin (suc j) j))
    | inr done ↦ rw done (Perm.refl begin)
  ]

  insert_from-IsSorted :
      (rounds i : ℕ) (begin : List T)
      → i + rounds ≤ length begin
      → IsSorted i begin
      → IsSorted (i + rounds) (insert_from c rounds i begin)
  unfolding insert_from
  insert_from-IsSorted zero i begin h s = rw (add-zero i) s
  insert_from-IsSorted (suc rounds) i begin h s =
      rw (let e : i + suc rounds ≡ suc i + rounds = omega arith in e, add-one i)
        (insert_from-IsSorted rounds (suc i) (sink c i begin)
          (rw (length-sink i begin) (omega arith))
          (sink-IsSorted i i begin (omega arith) (omega arith)
            ((λ k p q. s k (omega arith)), (λ k p q. absurd (omega arith)))))

  insert_from-Perm : (rounds i : ℕ) (begin : List T) → Perm (insert_from c rounds i begin) begin
  unfolding insert_from
  insert_from-Perm zero i begin = Perm.refl begin
  insert_from-Perm (suc rounds) i begin =
      Perm.trans (insert_from-Perm rounds (i + 1) (sink c i begin)) (sink-Perm i begin)

  -- `insertion_sort` puts the elements in order.
  pub insertion_sort-IsSorted :
      (begin : List T) → IsSorted (length begin) (insertion_sort c (length begin) begin)
  unfolding insertion_sort
  insertion_sort-IsSorted [] = λ k p. absurd (omega arith)
  insertion_sort-IsSorted (x ∷ xs) =
      rw
        (
          let e : suc (length xs) ≡ 1 + length xs = omega arith in e,
          let e : 1 + length xs - 1 ≡ length xs = omega arith in e,
        )
        (insert_from-IsSorted (length xs) 1 (x ∷ xs) (omega arith) (λ k p. absurd (omega arith)))

  -- `insertion_sort` permutes the elements.
  pub insertion_sort-Perm : (count : ℕ) (begin : List T) → Perm (insertion_sort c count begin) begin
  unfolding insertion_sort
  insertion_sort-Perm count begin = insert_from-Perm (count - 1) 1 begin

  -- `insertion_sort` of a whole list puts its elements in order, and permutes them.
  pub insertion_sort-sorts :
      (begin : List T)
      → IsSorted (length begin) (insertion_sort c (length begin) begin)
        × Perm (insertion_sort c (length begin) begin) begin
  insertion_sort-sorts begin =
      (insertion_sort-IsSorted begin, insertion_sort-Perm (length begin) begin)
