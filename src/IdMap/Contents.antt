-- ===== src/IdMap/Contents.antt =====
-- The ids that a table holds, in the order of its slots (infra/container/id_map.hpp).
use toy_language.Base.{
  if◌then◌else◌, Bool-cases, length, set, replicate, ℕ, zero, suc, ◌<◌, ◌≡◌, refl, ap, ◌∙◌, inl,
  inr, Bool, true, false, List, [], ◌∷◌, arith,
}
use mathlib.Core.List.{Perm, Mem}
use mathlib.Core.List.Perm
use mathlib.Core.List.{Permᴰ}
use mathlib.Core.Logic.{∥∥₁_elim}
use mathlib.Core.Logic.Or
use mathlib.Core.Bool.{Bool-set}
use mathlib.Core.List.{mem-cons_self, mem-cons_of_mem, not-mem-nil, eq-or-mem_of_mem-cons}
use native.Mathlib.Nat.{ℕ_set}
use toy_language.IdMap.{LookupEntry, empty_lookup, is_empty_lookup, lookup_at}

abbrev pub ids : List LookupEntry → List ℕ
ids [] = []
ids (x ∷ xs) = let rest = ids xs in if is_empty_lookup x then rest else x.data_id ∷ rest

pub ids-set_empty :
    (lookups : List LookupEntry) (i : ℕ) (entry : LookupEntry)
    → i < length lookups
    → is_empty_lookup (lookup_at lookups i) ≡ true
    → is_empty_lookup entry ≡ false
    → Perm (ids (set lookups i entry)) (entry.data_id ∷ ids lookups)
ids-set_empty [] i entry h empty taken = absurd (omega arith)
ids-set_empty (x ∷ xs) zero entry h empty taken =
    rw (taken, empty) (Perm.refl (entry.data_id ∷ ids xs))
ids-set_empty (x ∷ xs) (suc i) entry h empty taken =
    let rest = ids-set_empty xs i entry (omega arith) empty taken in
    elim (Bool-cases (is_empty_lookup x)) [
      | inl blank ↦ rw blank rest
      | inr full ↦
          rw full
            (Perm.trans (Perm.cons x.data_id rest) (Perm.swap entry.data_id x.data_id (ids xs)))
    ]

pub ids-set_taken :
    (lookups : List LookupEntry) (i : ℕ) (entry : LookupEntry)
    → i < length lookups
    → is_empty_lookup (lookup_at lookups i) ≡ false
    → is_empty_lookup entry ≡ false
    → Perm ((lookup_at lookups i).data_id ∷ ids (set lookups i entry)) (entry.data_id ∷ ids lookups)
ids-set_taken [] i entry h old taken = absurd (omega arith)
ids-set_taken (x ∷ xs) zero entry h old taken =
    rw (taken, old) (Perm.swap entry.data_id x.data_id (ids xs))
ids-set_taken (x ∷ xs) (suc i) entry h old taken =
    let rest = ids-set_taken xs i entry (omega arith) old taken in
    elim (Bool-cases (is_empty_lookup x)) [
      | inl blank ↦ rw blank rest
      | inr full ↦ rw full (
          Perm.trans (Perm.swap x.data_id (lookup_at xs i).data_id (ids (set xs i entry)))
            (Perm.trans (Perm.cons x.data_id rest) (Perm.swap entry.data_id x.data_id (ids xs))))
    ]

pub ids-replicate : (n : ℕ) → ids (replicate n empty_lookup) ≡ []
ids-replicate zero = refl
ids-replicate (suc n) = ids-replicate n

-- With fewer ids than slots, a slot is empty.
pub empty_slot :
    (lookups : List LookupEntry)
    → length (ids lookups) < length lookups
    → (e : ℕ) × (e < length lookups) × (is_empty_lookup (lookup_at lookups e) ≡ true)
empty_slot [] h = absurd (omega arith)
empty_slot (x ∷ xs) h = elim (Bool-cases (is_empty_lookup x)) [
  | inl blank ↦ (0, omega arith, blank)
  | inr full ↦
      let (e, below, empty) = empty_slot xs (omega (arith, rw full at h)) in
      (suc e, omega arith, empty)
]

length-Permᴰ : {xs ys : List ℕ} → Permᴰ xs ys → length xs ≡ length ys
length-Permᴰ Permᴰ.nil = refl
length-Permᴰ (Permᴰ.cons e d) = ap suc (length-Permᴰ d)
length-Permᴰ (Permᴰ.swap e₁ e₂) = refl
length-Permᴰ (Permᴰ.trans d₁ d₂) = length-Permᴰ d₁ ∙ length-Permᴰ d₂

pub length-Perm : {xs ys : List ℕ} → Perm xs ys → length xs ≡ length ys
length-Perm {xs} {ys} p = ∥∥₁_elim p (ℕ_set (length xs) (length ys)) length-Permᴰ

-- An id of a taken slot is in the list, and what holds of these ids holds of all in the list.
pub slot-Mem :
    (lookups : List LookupEntry) (j : ℕ)
    → j < length lookups
    → is_empty_lookup (lookup_at lookups j) ≡ false
    → Mem (lookup_at lookups j).data_id (ids lookups)
unfolding mem-cons_self
slot-Mem [] j h taken = absurd (omega arith)
slot-Mem (x ∷ xs) zero h taken = rw taken mem-cons_self
slot-Mem (x ∷ xs) (suc j) h taken =
    let rest = slot-Mem xs j (omega arith) taken in
    elim (Bool-cases (is_empty_lookup x)) [
      | inl blank ↦ rw blank rest
      | inr full ↦ rw full (mem-cons_of_mem x.data_id rest)
    ]

pub Mem-slots :
    (test : ℕ → Bool) (lookups : List LookupEntry)
    → ((j : ℕ)
        → j < length lookups
        → is_empty_lookup (lookup_at lookups j) ≡ false
        → test (lookup_at lookups j).data_id ≡ false)
    → (id : ℕ) → Mem id (ids lookups)
    → test id ≡ false
Mem-slots test [] all id inside = absurd (not-mem-nil inside)
Mem-slots test (x ∷ xs) all id inside =
    let rest = Mem-slots test xs (λ j h taken. all (suc j) (omega arith) taken) id in
    elim (Bool-cases (is_empty_lookup x)) [
      | inl blank ↦ rest (rw blank at inside)
      | inr full ↦
          Or.elim (Bool-set (test id) false) (eq-or-mem_of_mem-cons (rw full at inside))
            (λ here. rw here (all 0 (omega arith) full)) rest
    ]
