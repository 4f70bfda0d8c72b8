-- ===== src/InplaceSort/Swap.antt =====
-- An exchange of two elements, index by index and as a permutation.
use toy_language.Base.{
  ◌==◌, if◌then◌else◌, Option-cases, length, get_elem?, set, length-set, ℕ, zero, suc, ◌<◌, ◌≡◌,
  refl, ◌∙◌, inl, inr, Option, none, some, List, [], ◌∷◌, arith,
}
use mathlib.Core.List.{Perm}
use mathlib.Core.List.Perm
use toy_language.InplaceSort.{swap_values, swap}

module _ {T : Type 0} where
  get_elem?-set :
      (xs : List T) (i k : ℕ) (v : T)
      → i < length xs
      → get_elem? (set xs i v) k ≡ (if k == i then some v else get_elem? xs k)
  get_elem?-set [] i k v h = absurd (omega arith)
  get_elem?-set (x ∷ xs) zero zero v h = refl
  get_elem?-set (x ∷ xs) zero (suc k) v h = ground arith
  get_elem?-set (x ∷ xs) (suc i) zero v h = ground arith
  get_elem?-set (x ∷ xs) (suc i) (suc k) v h = ground (arith, get_elem?-set xs i k v)

  pub get_elem?-some : (xs : List T) (i : ℕ) → i < length xs → (x : T) × (get_elem? xs i ≡ some x)
  get_elem?-some [] i h = absurd (omega arith)
  get_elem?-some (x ∷ xs) zero h = (x, refl)
  get_elem?-some (x ∷ xs) (suc i) h = get_elem?-some xs i (omega arith)

  set-Perm :
      (xs : List T) (i : ℕ) (a v : T) → get_elem? xs i ≡ some a → Perm (a ∷ set xs i v) (v ∷ xs)
  set-Perm [] i a v h = cc
  set-Perm (x ∷ xs) zero a v h = rw (let e : x ≡ a = cc in e) (Perm.swap _ _ _)
  set-Perm (x ∷ xs) (suc i) a v h =
      Perm.trans (Perm.swap _ _ _)
        (Perm.trans (Perm.cons x (set-Perm xs i a v h)) (Perm.swap _ _ _))

  pub get_elem?-swap :
      (xs : List T) (i j k : ℕ)
      → i < length xs
      → j < length xs
      → get_elem? (swap xs i j) k
        ≡ (if k == i then get_elem? xs j else if k == j then get_elem? xs i else get_elem? xs k)
  unfolding swap
  get_elem?-swap xs i j k p q =
      let (a, at_i) = get_elem?-some xs i p in
      let (b, at_j) = get_elem?-some xs j q in
      ground (
        arith,
        at_i,
        at_j,
        length-set xs i b,
        get_elem?-set xs i k b,
        get_elem?-set (set xs i b) j k a,
      )

  length-swap_values :
      (u v : Option T) (xs : List T) (i j : ℕ) → length (swap_values u v xs i j) ≡ length xs
  unfolding swap
  length-swap_values none v xs i j = refl
  length-swap_values (some a) none xs i j = refl
  length-swap_values (some a) (some b) xs i j = length-set (set xs i b) j a ∙ length-set xs i b

  -- Writing the element of place `j` at place `i` leaves it at place `j`.
  get_elem?-set_other :
      (xs : List T) (i j : ℕ) (a b : T)
      → get_elem? xs i ≡ some a
      → get_elem? xs j ≡ some b
      → get_elem? (set xs i b) j ≡ some b
  get_elem?-set_other [] i j a b p q = q
  get_elem?-set_other (x ∷ xs) zero zero a b p q = refl
  get_elem?-set_other (x ∷ xs) zero (suc j) a b p q = q
  get_elem?-set_other (x ∷ xs) (suc i) zero a b p q = q
  get_elem?-set_other (x ∷ xs) (suc i) (suc j) a b p q = get_elem?-set_other xs i j a b p q

  pub length-swap : (xs : List T) (i j : ℕ) → length (swap xs i j) ≡ length xs
  unfolding swap
  length-swap xs i j = length-swap_values (get_elem? xs i) (get_elem? xs j) xs i j

  -- An exchange permutes the elements.
  pub swap-Perm : (xs : List T) (i j : ℕ) → Perm (swap xs i j) xs
  unfolding swap
  swap-Perm xs i j = elim (Option-cases (get_elem? xs i)) [
    | inl e ↦ rw (e, swap_values) (Perm.refl xs)
    | inr (a, e) ↦ elim (Option-cases (get_elem? xs j)) [
      | inl e' ↦ rw (e, e', swap_values) (Perm.refl xs)
      | inr (b, e') ↦
          rw (e, e', swap_values)
            (Perm.cons_inv (
              Perm.trans (set-Perm (set xs i b) j b a (get_elem?-set_other xs i j a b e e'))
                (set-Perm xs i a b e)))
    ]
  ]
