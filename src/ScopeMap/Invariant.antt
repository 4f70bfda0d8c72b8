-- ===== src/ScopeMap/Invariant.antt =====
-- When a `ScopeMap` of core/lexical_analyser.cpp is well formed, and its lookups when a slot is
-- written.
use toy_language.Base.{
  ◌≤◌, ◌^◌, ◌==◌, if◌then◌else◌, ==_iff, Bool-cases, length, get_or, set, get_or-set_ne, ℕ, zero,
  suc, ◌<◌, ◌≡◌, refl, sym, ap, ◌∙◌, ◌≢◌, inl, inr, Bool, true, false, none, some, List, [], ◌∷◌,
  arith,
}
use mathlib.Core.Bool.{true≢false}
use toy_language.ScopeMap.{
  ScopeMap, ScopeEntry, blank_entry, is_occupied, name_at, entry_at, advance, initial_index,
  free_at, duplicate, probe, write_slot, get_loop, scope_map_get,
}
use toy_language.ScopeMap.Insertion.{IsSized, kept}

-- How many slots are occupied.
abbrev pub count : List Bool → ℕ
count [] = 0
count (b ∷ bs) = if b then suc (count bs) else count bs

pub count-free :
    (bs : List Bool) (i : ℕ)
    → i < length bs
    → get_or bs i false ≡ false
    → count (set bs i true) ≡ suc (count bs)
count-free [] i h e = absurd (omega arith)
count-free (true ∷ bs) zero h e = cc
count-free (false ∷ bs) zero h e = refl
count-free (true ∷ bs) (suc i) h e = ap (λ n. suc n) (count-free bs i (omega arith) e)
count-free (false ∷ bs) (suc i) h e = count-free bs i (omega arith) e

-- A lookup finds every entry that is there, no two slots have the same name, and `used` counts the
-- slots that are occupied, at most 2 ^ 15.
pub record IsMap (scope : ScopeMap) : Type 0 where
  pub sized : IsSized scope
  pub counted : count scope.occupied ≡ scope.used
  pub limit : scope.used ≤ 2 ^ 15
  pub findable :
      (i : ℕ)
      → is_occupied scope i ≡ true
      → scope_map_get scope (name_at scope i) ≡ some (entry_at scope i)
  pub distinct :
      (i j : ℕ)
      → is_occupied scope i ≡ true
      → is_occupied scope j ≡ true
      → name_at scope i ≡ name_at scope j
      → i ≡ j

pub none≢some : {e : ScopeEntry} → none ≡ some e → ⊥
none≢some h = cc

-- A lookup that succeeds found a slot.
get_loop-slot :
    (scope : ScopeMap) (name first fuel index : ℕ) (e : ScopeEntry)
    → get_loop scope name first fuel index ≡ some e
    → (i : ℕ) × (is_occupied scope i ≡ true) × (name_at scope i ≡ name)
unfolding get_loop
get_loop-slot scope name first zero index e h = cc
get_loop-slot scope name first (suc fuel) index e h = elim (Bool-cases (is_occupied scope index)) [
  | inr free ↦ absurd (none≢some (rw free at h))
  | inl occupied ↦ elim (Bool-cases (name_at scope index == name)) [
    | inl named ↦ (index, occupied, (==_iff (name_at scope index) name).0 named)
    | inr other ↦ elim (Bool-cases (first == advance scope.capacity index)) [
      | inl back ↦ absurd (none≢some (rw (occupied, other, back) at h))
      | inr onward ↦
          get_loop-slot scope name first fuel (advance scope.capacity index) e
            (rw (occupied, other, onward) at h)
    ]
  ]
]

pub entry-kept :
    (scope : ScopeMap) (f i name : ℕ) (entry : ScopeEntry)
    → f ≢ i
    → entry_at (write_slot scope f name entry) i ≡ entry_at scope i
unfolding write_slot
entry-kept scope f i name entry ne = get_or-set_ne scope.entries f i entry blank_entry ne

-- It succeeds as well when a slot that was free is written.
get_loop-write :
    (scope : ScopeMap) (name first f new_name : ℕ) (entry : ScopeEntry) (fuel index : ℕ)
    (e : ScopeEntry)
    → is_occupied scope f ≡ false
    → get_loop scope name first fuel index ≡ some e
    → get_loop (write_slot scope f new_name entry) name first fuel index ≡ some e
unfolding get_loop write_slot
get_loop-write scope name first f new_name entry zero index e free h = cc
get_loop-write scope name first f new_name entry (suc fuel) index e free h =
    elim (Bool-cases (is_occupied scope index)) [
      | inr empty ↦ absurd (none≢some (rw empty at h))
      | inl occupied ↦
          let ne : f ≢ index = λ g. true≢false (sym occupied ∙ rw (sym g) free) in
          let (same, same_name) = kept scope f index new_name entry ne in
          let same_entry = entry-kept scope f index new_name entry ne in
          elim (Bool-cases (name_at scope index == name)) [
            | inl named ↦
                rw (same, same_name, same_entry, occupied, named) (rw (occupied, named) at h)
            | inr other ↦ elim (Bool-cases (first == advance scope.capacity index)) [
              | inl back ↦ absurd (none≢some (rw (occupied, other, back) at h))
              | inr onward ↦
                  rw (same, same_name, occupied, other, onward)
                    (get_loop-write scope name first f new_name entry fuel
                      (advance scope.capacity index) e free (rw (occupied, other, onward) at h))
            ]
          ]
    ]

pub get-write :
    (scope : ScopeMap) (name f new_name : ℕ) (entry e : ScopeEntry)
    → is_occupied scope f ≡ false
    → scope_map_get scope name ≡ some e
    → scope_map_get (write_slot scope f new_name entry) name ≡ some e
unfolding scope_map_get write_slot
get-write scope name f new_name entry e free h =
    get_loop-write scope name (initial_index scope.capacity name) f new_name entry scope.capacity
      (initial_index scope.capacity name) e free h

pub get-slot :
    (scope : ScopeMap) (name : ℕ) (e : ScopeEntry)
    → scope_map_get scope name ≡ some e
    → (i : ℕ) × (is_occupied scope i ≡ true) × (name_at scope i ≡ name)
unfolding scope_map_get
get-slot scope name e h =
    get_loop-slot scope name (initial_index scope.capacity name) scope.capacity
      (initial_index scope.capacity name) e h

-- Whether the loop looks at names makes no difference when there is no duplicate.
pub probe-unchecked :
    (scope : ScopeMap) (name fuel index f : ℕ)
    → probe true scope name fuel index ≡ free_at f
    → probe false scope name fuel index ≡ free_at f
unfolding probe
probe-unchecked scope name zero index f h = cc
probe-unchecked scope name (suc fuel) index f h = elim (Bool-cases (is_occupied scope index)) [
  | inr free ↦ rw free (rw free at h)
  | inl occupied ↦ elim (Bool-cases (name_at scope index == name)) [
    | inl named ↦ absurd (let g : duplicate ≡ free_at f = rw (occupied, named) at h in cc)
    | inr other ↦ rw occupied (
        probe-unchecked scope name fuel (advance scope.capacity index) f
          (rw (occupied, other) at h))
  ]
]
