-- ===== src/ScopeMap/Extension.antt =====
-- A map of core/lexical_analyser.cpp with one name more.
use toy_language.Base.{
  ◌^◌, Option-cases, length, get_or, ℕ, suc, ◌≤◌, ◌<◌, ◌≡◌, refl, sym, ap, ◌∙◌, ◌≢◌, ◌⊎◌, inl, inr,
  Bool, true, false, none, some, List, [], ◌∷◌, arith,
}
use native.Mathlib.Decide.{ℕ_discrete}
use toy_language.ScopeMap.{
  ScopeMap, ScopeEntry, is_occupied, name_at, entry_at, Added, filled, reported,
  scope_duplicate_name, initial_index, write_slot, scope_map_get, scope_map_add_nogrow,
}
use toy_language.ScopeMap.Insertion.{IsSized-write, Finds, start-Finds, written, kept}
use toy_language.ScopeMap.Invariant.{
  count, count-free, IsMap, none≢some, entry-kept, get-write, get-slot, probe-unchecked,
}

free_slot :
    (bs : List Bool)
    → count bs < length bs
    → (i : ℕ) × (i < length bs) × (get_or bs i false ≡ false)
free_slot [] h = absurd (omega arith)
free_slot (false ∷ bs) h = (0, omega arith, refl)
free_slot (true ∷ bs) h = let (i, k, e) = free_slot bs (omega arith) in (suc i, omega arith, e)

-- A map with one name more, and the other lookups as they were.
pub record Extends (scope new : ScopeMap) (name : ℕ) (entry : ScopeEntry) : Type 0 where
  pub is_map : IsMap new
  pub capacity : new.capacity ≡ scope.capacity
  pub slots : count new.occupied ≤ suc (count scope.occupied)
  pub found : scope_map_get new name ≡ some entry
  pub others : (other : ℕ) → (other ≢ name) → scope_map_get new other ≡ scope_map_get scope other

module _ (scope : ScopeMap) (f name : ℕ) (entry : ScopeEntry) (m : IsMap scope)
    (few : scope.used < 2 ^ 15) (h : f < scope.capacity) (free : is_occupied scope f ≡ false)
    (absent : scope_map_get scope name ≡ none)
    (found : scope_map_get (write_slot scope f name entry) name ≡ some entry) where
  abbrev new : ScopeMap
  new = write_slot scope f name entry

  -- A slot that is occupied now has the new name or was occupied before.
  slot-cases :
      (i : ℕ)
      → is_occupied new i ≡ true
      → (i ≡ f)
        ⊎ ((is_occupied scope i ≡ true)
            × (name_at new i ≡ name_at scope i)
            × (entry_at new i ≡ entry_at scope i))
  slot-cases i occupied = elim (ℕ_discrete f i) [
    | yes e ↦ inl (sym e)
    | no ne ↦
        let (same, same_name) = kept scope f i name entry ne in
        inr (sym same ∙ occupied, same_name, entry-kept scope f i name entry ne)
  ]

  -- The new name was in no slot.
  fresh : (i : ℕ) → is_occupied scope i ≡ true → (name_at scope i ≢ name)
  fresh i occupied e = none≢some (sym absent ∙ rw e at (m.findable i occupied))

  findable-new :
      (i : ℕ) → is_occupied new i ≡ true → scope_map_get new (name_at new i) ≡ some (entry_at new i)
  findable-new i occupied = elim (slot-cases i occupied) [
    | inl e ↦ let (o, n, t) = written scope f name entry m.sized h in rw (e, n, t) found
    | inr (o, n, t) ↦
        rw (n, t)
          (get-write scope (name_at scope i) f name entry (entry_at scope i) free (m.findable i o))
  ]

  distinct-new :
      (i j : ℕ)
      → is_occupied new i ≡ true
      → is_occupied new j ≡ true
      → name_at new i ≡ name_at new j
      → i ≡ j
  distinct-new i j oi oj e =
      let (o, named, t) = written scope f name entry m.sized h in
      elim (slot-cases i oi) [
        | inl ei ↦ elim (slot-cases j oj) [
          | inl ej ↦ ei ∙ sym ej
          | inr (pj, nj, tj) ↦ absurd (fresh j pj (sym nj ∙ sym e ∙ rw ei named))
        ]
        | inr (pi, ni, ti) ↦ elim (slot-cases j oj) [
          | inl ej ↦ absurd (fresh i pi (sym ni ∙ e ∙ rw ej named))
          | inr (pj, nj, tj) ↦ m.distinct i j pi pj (sym ni ∙ e ∙ nj)
        ]
      ]

  others-new : (other : ℕ) → (other ≢ name) → scope_map_get new other ≡ scope_map_get scope other
  others-new other ne = elim (Option-cases (scope_map_get scope other)) [
    | inr (e, p) ↦ get-write scope other f name entry e free p ∙ sym p
    | inl p ↦ elim (Option-cases (scope_map_get new other)) [
      | inl q ↦ q ∙ sym p
      | inr (e, q) ↦
          let (i, occupied, named) = get-slot new other e q in
          let (o, name_f, t) = written scope f name entry m.sized h in
          elim (slot-cases i occupied) [
            | inl at_f ↦ absurd (ne (sym named ∙ rw at_f name_f))
            | inr (pi, ni, ti) ↦
                absurd (none≢some (sym p ∙ rw (sym ni ∙ named) at (m.findable i pi)))
          ]
    ]
  ]

  Extends-write : Extends scope new name entry
  unfolding write_slot
  Extends-write = record {
    is_map = record {
      counted =
          count-free scope.occupied f (let z = m.sized.occupied_size in omega arith) free
          ∙ ap (λ n. suc n) m.counted
          ∙ omega arith;
      limit = omega (arith, few);
      sized = IsSized-write scope f name entry m.sized;
      findable = findable-new;
      distinct = distinct-new;
    };
    capacity = refl;
    slots =
        let e = count-free scope.occupied f (let z = m.sized.occupied_size in omega arith) free in
        omega arith;
    found = found;
    others = others-new;
  }

-- The two ways in which the call ends on a map that has a free slot.
abbrev pub AddsTo : ScopeMap → ℕ → ScopeEntry → Added → Type 0
AddsTo scope name entry result =
    ((result ≡ reported scope_duplicate_name)
      × ((e : ScopeEntry) × (scope_map_get scope name ≡ some e)))
    ⊎ ((new : ScopeMap) × (result ≡ filled new) × Extends scope new name entry)

Finds-AddsTo :
    (scope : ScopeMap) (name : ℕ) (entry : ScopeEntry)
    → IsMap scope
    → scope.used < 2 ^ 15
    → Finds scope name entry
        (initial_index scope.capacity name)
        scope.capacity
        (initial_index scope.capacity name)
    → AddsTo scope name entry (scope_map_add_nogrow true scope name entry)
unfolding scope_map_add_nogrow scope_map_get
Finds-AddsTo scope name entry m few (inl (p, found)) = inl (rw p refl, found)
Finds-AddsTo scope name entry m few (inr (f, p, h, free, q, r)) = inr (
  write_slot scope f name entry,
  rw p refl,
  Extends-write scope f name entry m few h free (unfold scope_map_get in q)
      (unfold scope_map_get write_slot in r),
)

some_slot :
    (scope : ScopeMap)
    → IsMap scope
    → count scope.occupied < scope.capacity
    → (i : ℕ) × (i < scope.capacity) × (is_occupied scope i ≡ false)
some_slot scope m h =
    let size = m.sized.occupied_size in
    let (i, k, e) = free_slot scope.occupied (omega arith) in (i, omega arith, e)

-- On a map with a free slot and fewer than 2 ^ 15 entries, `scope_map_add_nogrow` that checks for duplicates reports one if the name
-- is there already. If not, it gives a map again, in which a lookup finds the new entry and every
-- other lookup gives what it gave before.
pub scope_map_add_nogrow-AddsTo :
    (scope : ScopeMap) (name : ℕ) (entry : ScopeEntry)
    → IsMap scope
    → scope.used < 2 ^ 15
    → count scope.occupied < scope.capacity
    → AddsTo scope name entry (scope_map_add_nogrow true scope name entry)
scope_map_add_nogrow-AddsTo scope name entry m few h =
    let (i, k, free) = some_slot scope m h in
    Finds-AddsTo scope name entry m few (start-Finds scope name entry i m.sized k free)

Finds-Extends :
    (scope : ScopeMap) (name : ℕ) (entry : ScopeEntry)
    → IsMap scope
    → scope.used < 2 ^ 15
    → scope_map_get scope name ≡ none
    → Finds scope name entry
        (initial_index scope.capacity name)
        scope.capacity
        (initial_index scope.capacity name)
    → (new : ScopeMap) × (scope_map_add_nogrow false scope name entry ≡ filled new)
      × Extends scope new name entry
unfolding scope_map_add_nogrow
Finds-Extends scope name entry m few absent (inl (p, (e, found))) =
    absurd (none≢some {e = e} (sym absent ∙ unfold scope_map_get in found))
Finds-Extends scope name entry m few absent (inr (f, p, h, free, q, r)) = (
  write_slot scope f name entry,
  rw (probe-unchecked scope name scope.capacity (initial_index scope.capacity name) f p) refl,
  Extends-write scope f name entry m few h free absent (unfold scope_map_get write_slot in r),
)

-- Without the check, a name that is not there is added in the same way.
pub add_unchecked :
    (scope : ScopeMap) (name : ℕ) (entry : ScopeEntry)
    → IsMap scope
    → scope.used < 2 ^ 15
    → count scope.occupied < scope.capacity
    → scope_map_get scope name ≡ none
    → (new : ScopeMap) × (scope_map_add_nogrow false scope name entry ≡ filled new)
      × Extends scope new name entry
add_unchecked scope name entry m few h absent =
    let (i, k, free) = some_slot scope m h in
    Finds-Extends scope name entry m few absent (start-Finds scope name entry i m.sized k free)
