-- ===== src/ScopeMap/Insertion.antt =====
-- `scope_map_add_nogrow` and `scope_map_get` of one name, in core/lexical_analyser.cpp.
use toy_language.Base.{
  ◌%◌, ◌^◌, ◌==◌, ==_iff, Bool-cases, length, get_or-set_self, get_or-set_ne, ℕ, zero, suc, ◌+◌,
  ◌^◌, ◌≤◌, ◌<◌, ◌≡◌, refl, sym, ◌∙◌, ◌≢◌, ◌⊎◌, inl, inr, true, false, none, some, arith,
}
use mathlib.Core.Bool.{true≢false}
use native.Mathlib.Decide.{dec_lt}
use native.Mathlib.Nat.{one-le-pow}
use toy_language.Base.Bits.{bit_and_low}
use toy_language.Base.Bytes.{to_bytes}
use toy_language.Base.Ring.{walked, walked_bound, walked_onto}
use toy_language.Hash.{fnv1a}
use toy_language.Base.{length-set}
use toy_language.ScopeMap.{
  Added, filled, reported, scope_duplicate_name, scope_map_add_nogrow, scope_map_get,
}
use toy_language.ScopeMap.{
  ScopeMap, ScopeEntry, blank_entry, is_occupied, name_at, entry_at, advance, initial_index,
  free_at, duplicate, probe, write_slot, get_loop,
}

-- The capacity is a power of two, and the arrays have that many elements.
pub record IsSized (scope : ScopeMap) : Type 0 where
  pub exponent : ℕ
  pub power : scope.capacity ≡ 2 ^ exponent
  pub occupied_size : length scope.occupied ≡ scope.capacity
  pub names_size : length scope.names ≡ scope.capacity
  pub entries_size : length scope.entries ≡ scope.capacity

advance-walked :
    (capacity first t : ℕ)
    → first < capacity
    → t < capacity
    → advance capacity (walked capacity first t) ≡ walked capacity first (suc t)
unfolding advance
advance-walked capacity first t h k = ground arith

walked_ne :
    (capacity first t : ℕ)
    → first < capacity
    → suc t < capacity
    → (first == walked capacity first (suc t)) ≡ false
walked_ne capacity first t h k = ground arith

initial_index-lt :
    (scope : ScopeMap) (name : ℕ)
    → IsSized scope
    → initial_index scope.capacity name < scope.capacity
unfolding initial_index
initial_index-lt scope name z =
    let hash = fnv1a (to_bytes 4 name) in
    rw (z.power, bit_and_low z.exponent hash) (omega (arith, one-le-pow z.exponent 2 (omega arith)))

-- The slot that is written, and another one.
pub written :
    (scope : ScopeMap) (f name : ℕ) (entry : ScopeEntry)
    → IsSized scope
    → f < scope.capacity
    → (is_occupied (write_slot scope f name entry) f ≡ true)
      × (name_at (write_slot scope f name entry) f ≡ name)
      × (entry_at (write_slot scope f name entry) f ≡ entry)
unfolding write_slot
written scope f name entry z h = (
  get_or-set_self scope.occupied f true false (omega (arith, z.occupied_size)),
  get_or-set_self scope.names f name 0 (omega (arith, z.names_size)),
  get_or-set_self scope.entries f entry blank_entry (omega (arith, z.entries_size)),
)

pub kept :
    (scope : ScopeMap) (f i name : ℕ) (entry : ScopeEntry)
    → f ≢ i
    → (is_occupied (write_slot scope f name entry) i ≡ is_occupied scope i)
      × (name_at (write_slot scope f name entry) i ≡ name_at scope i)
unfolding write_slot
kept scope f i name entry ne =
    (get_or-set_ne scope.occupied f i true false ne, get_or-set_ne scope.names f i name 0 ne)

module _ (scope : ScopeMap) (name : ℕ) (entry : ScopeEntry) (first : ℕ) where
  -- What a walk finds: the name, or a free slot where a later walk finds what is written there.
  abbrev pub Finds : ℕ → ℕ → Type 0
  Finds fuel index =
      ((probe true scope name fuel index ≡ duplicate)
        × ((e : ScopeEntry) × (get_loop scope name first fuel index ≡ some e)))
      ⊎ ((f : ℕ) × (probe true scope name fuel index ≡ free_at f)
          × (f < scope.capacity)
          × (is_occupied scope f ≡ false)
          × (get_loop scope name first fuel index ≡ none)
          × (get_loop (write_slot scope f name entry) name first fuel index ≡ some entry))

  Finds-free :
      (fuel index : ℕ)
      → IsSized scope
      → index < scope.capacity
      → is_occupied scope index ≡ false
      → Finds (suc fuel) index
  unfolding probe get_loop
  Finds-free fuel index z h free =
      let (occupied, named, found) = written scope index name entry z h in
      inr (
        index,
        rw free refl,
        h,
        free,
        rw free refl,
        rw (occupied, named, (==_iff name name).1 refl, found) refl,
      )

  Finds-named :
      (fuel index : ℕ)
      → is_occupied scope index ≡ true
      → (name_at scope index == name) ≡ true
      → Finds (suc fuel) index
  unfolding probe get_loop
  Finds-named fuel index occupied named =
      inl (rw (occupied, named) refl, (entry_at scope index, rw (occupied, named) refl))

  Finds-later :
      (fuel index : ℕ)
      → is_occupied scope index ≡ true
      → (name_at scope index == name) ≡ false
      → (first == advance scope.capacity index) ≡ false
      → Finds fuel (advance scope.capacity index)
      → Finds (suc fuel) index
  unfolding probe get_loop write_slot
  Finds-later fuel index occupied other onward (inl (p, (e, q))) =
      inl (rw (occupied, other) p, (e, rw (occupied, other, onward) q))
  Finds-later fuel index occupied other onward (inr (f, p, h, free, q, r)) =
      let (same, same_name) = kept scope f index name entry (λ e. cc) in
      inr (
        f,
        rw (occupied, other) p,
        h,
        free,
        rw (occupied, other, onward) q,
        rw (same, same_name, occupied, other, onward) r,
      )

  walk-Finds :
      (fuel t s : ℕ)
      → IsSized scope
      → first < scope.capacity
      → t + fuel ≡ scope.capacity
      → t ≤ s
      → s < scope.capacity
      → is_occupied scope (walked scope.capacity first s) ≡ false
      → Finds fuel (walked scope.capacity first t)
  walk-Finds zero t s z h e le lt free = absurd (omega arith)
  walk-Finds (suc fuel) t s z h e le lt free =
      let index = walked scope.capacity first t in
      elim (Bool-cases (is_occupied scope index)) [
        | inr empty ↦
            Finds-free fuel index z (walked_bound scope.capacity first t h (omega arith)) empty
        | inl occupied ↦ elim (Bool-cases (name_at scope index == name)) [
          | inl named ↦ Finds-named fuel index occupied named
          | inr other ↦
              let past : t < s = elim (dec_lt t s) [
                | yes below ↦ below
                | no above ↦
                    let same : t ≡ s = omega arith in
                    absurd (true≢false (sym occupied ∙ rw same free))
              ] in
              let step = advance-walked scope.capacity first t h (omega arith) in
              Finds-later fuel index occupied other
                (rw step (walked_ne scope.capacity first t h (omega arith)))
                (rw step (walk-Finds fuel (suc t) s z h (omega arith) past lt free))
        ]
      ]

-- The call reports a duplicate name, which is in the map, or it returns a map with the name in it.
abbrev pub Adds : ScopeMap → ℕ → ScopeEntry → Added → Type 0
Adds scope name entry result =
    ((result ≡ reported scope_duplicate_name)
      × ((e : ScopeEntry) × (scope_map_get scope name ≡ some e)))
    ⊎ ((new : ScopeMap) × (result ≡ filled new)
        × (scope_map_get scope name ≡ none)
        × (scope_map_get new name ≡ some entry)
        × (new.used ≡ (scope.used + 1) % 2 ^ 16)
        × IsSized new)

pub IsSized-write :
    (scope : ScopeMap) (f name : ℕ) (entry : ScopeEntry)
    → IsSized scope
    → IsSized (write_slot scope f name entry)
unfolding write_slot
IsSized-write scope f name entry z = record {
  exponent = z.exponent;
  power = z.power;
  occupied_size = length-set scope.occupied f true ∙ z.occupied_size;
  names_size = length-set scope.names f name ∙ z.names_size;
  entries_size = length-set scope.entries f entry ∙ z.entries_size;
}

Finds-Adds :
    (scope : ScopeMap) (name : ℕ) (entry : ScopeEntry)
    → IsSized scope
    → Finds scope name entry
        (initial_index scope.capacity name)
        scope.capacity
        (initial_index scope.capacity name)
    → Adds scope name entry (scope_map_add_nogrow true scope name entry)
unfolding scope_map_add_nogrow scope_map_get write_slot
Finds-Adds scope name entry z (inl (p, found)) = inl (rw p refl, found)
Finds-Adds scope name entry z (inr (f, p, h, free, q, r)) =
    inr (write_slot scope f name entry, rw p refl, q, r, refl, IsSized-write scope f name entry z)

-- What the walk of a name finds from its first slot, with a slot that is free.
pub start-Finds :
    (scope : ScopeMap) (name : ℕ) (entry : ScopeEntry) (i : ℕ)
    → IsSized scope
    → i < scope.capacity
    → is_occupied scope i ≡ false
    → Finds scope name entry
        (initial_index scope.capacity name)
        scope.capacity
        (initial_index scope.capacity name)
start-Finds scope name entry i z h free =
    let first = initial_index scope.capacity name in
    let start = initial_index-lt scope name z in
    let (s, below, onto) = walked_onto scope.capacity first i start h in
    let at_first : walked scope.capacity first 0 ≡ first = ground arith in
    rw at_first at (
      walk-Finds scope name entry first scope.capacity 0 s z start (omega arith) (omega arith) below
        (rw onto free))

-- With a slot that is free, `scope_map_add_nogrow` that checks for duplicates returns. It reports a
-- duplicate if `scope_map_get` finds the name before; otherwise `scope_map_get` finds the new
-- entry after, `used` is raised by one in a `u16`, and its arrays keep their sizes.
pub scope_map_add_nogrow-Adds :
    (scope : ScopeMap) (name : ℕ) (entry : ScopeEntry) (i : ℕ)
    → IsSized scope
    → i < scope.capacity
    → is_occupied scope i ≡ false
    → Adds scope name entry (scope_map_add_nogrow true scope name entry)
scope_map_add_nogrow-Adds scope name entry i z h free =
    Finds-Adds scope name entry z (start-Finds scope name entry i z h free)
