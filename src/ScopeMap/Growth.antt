-- ===== src/ScopeMap/Growth.antt =====
-- `scope_map_grow` of core/lexical_analyser.cpp.
use toy_language.Base.{
  Option, ap, drop, ◌%◌, Bool-cases, Option-cases, length, get_or, replicate, length-replicate,
  get_or-replicate, ℕ, zero, suc, ◌+◌, ◌*◌, ◌^◌, ◌≤◌, ◌<◌, ◌≡◌, refl, sym, ◌∙◌, inl, inr, Bool,
  true, false, none, some, List, [], ◌∷◌, arith,
}
use native.Mathlib.Decide.{ℕ_discrete}
use native.Mathlib.Nat.{one-le-pow, pow-suc}
use mathlib.Core.Bool.{true≢false}
use mathlib.Core.Path.{subst}
use toy_language.ScopeMap.{
  ScopeMap, ScopeMapKind, ScopeEntry, blank_entry, is_occupied, name_at, entry_at, scope_map_get,
  scope_map_alloc_sized, rehash, scope_map_grow,
}
use toy_language.ScopeMap.Insertion.{IsSized}
use toy_language.ScopeMap.Invariant.{count, IsMap, none≢some, get-slot}
use toy_language.ScopeMap.Extension.{Extends, add_unchecked}

-- The new map holds what is in the slots of the old one below `index`, and nothing else.
pub record Copies (old new : ScopeMap) (index : ℕ) : Type 0 where
  pub is_map : IsMap new
  pub capacity : new.capacity ≡ old.capacity * 2
  pub slots : count new.occupied ≤ index
  pub left : count new.occupied + count (drop index old.occupied) ≤ old.used
  pub copied :
      (i : ℕ)
      → i < index
      → is_occupied old i ≡ true
      → scope_map_get new (name_at old i) ≡ some (entry_at old i)
  pub only :
      (name : ℕ) (e : ScopeEntry)
      → scope_map_get new name ≡ some e
      → (i : ℕ) × (i < index) × (is_occupied old i ≡ true) × (name_at old i ≡ name)

count-drop :
    (bs : List Bool) (i : ℕ)
    → get_or bs i false ≡ true
    → count (drop i bs) ≡ suc (count (drop (suc i) bs))
count-drop [] i h = cc
count-drop (true ∷ bs) zero h = refl
count-drop (false ∷ bs) zero h = cc
count-drop (b ∷ bs) (suc i) h = count-drop bs i h

count-drop-le : (bs : List Bool) (i : ℕ) → count (drop (suc i) bs) ≤ count (drop i bs)
count-drop-le [] i = omega arith
count-drop-le (true ∷ bs) zero = omega arith
count-drop-le (false ∷ bs) zero = omega arith
count-drop-le (b ∷ bs) (suc i) = count-drop-le bs i

get_or-beyond : (bs : List Bool) (i : ℕ) → get_or bs i false ≡ true → i < length bs
get_or-beyond [] i h = cc
get_or-beyond (b ∷ bs) zero h = omega arith
get_or-beyond (b ∷ bs) (suc i) h = let k = get_or-beyond bs i h in omega arith

slot-lt :
    (scope : ScopeMap) (i : ℕ) → IsSized scope → is_occupied scope i ≡ true → i < scope.capacity
slot-lt scope i z o =
    let h = get_or-beyond scope.occupied i o in let k = z.occupied_size in omega arith

module _ (old : ScopeMap) (m : IsMap old) where
  Copies-skip :
      (new : ScopeMap) (index : ℕ)
      → is_occupied old index ≡ false
      → Copies old new index
      → Copies old new (suc index)
  Copies-skip new index free c = record {
    is_map = c.is_map;
    capacity = c.capacity;
    slots = let h = c.slots in omega arith;
    left = omega (arith, c.left, count-drop-le old.occupied index);
    copied = λ i k occupied. elim (ℕ_discrete i index) [
      | yes e ↦ absurd (true≢false (sym occupied ∙ rw e free))
      | no ne ↦ c.copied i (omega arith) occupied
    ];
    only = λ name e h. let (i, k, o, n) = c.only name e h in (i, omega arith, o, n);
  }

  -- The name of a later slot is not there yet.
  absent :
      (new : ScopeMap) (index : ℕ)
      → is_occupied old index ≡ true
      → Copies old new index
      → scope_map_get new (name_at old index) ≡ none
  absent new index occupied c = elim (Option-cases (scope_map_get new (name_at old index))) [
    | inl none_there ↦ none_there
    | inr (e, found) ↦
        let (i, k, o, n) = c.only (name_at old index) e found in
        let same : i ≡ index = m.distinct i index o occupied n in absurd (omega arith)
  ]

  Copies-add :
      (new bigger : ScopeMap) (index : ℕ)
      → is_occupied old index ≡ true
      → Copies old new index
      → Extends new bigger (name_at old index) (entry_at old index)
      → Copies old bigger (suc index)
  Copies-add new bigger index occupied c x = record {
    is_map = x.is_map;
    capacity = x.capacity ∙ c.capacity;
    slots = let h = c.slots in let k = x.slots in omega arith;
    left = omega (arith, c.left, x.slots, count-drop old.occupied index occupied);
    copied = λ i k o. elim (ℕ_discrete i index) [
      | yes e ↦ rw e x.found
      | no ne ↦
          x.others (name_at old i) (λ n. ne (m.distinct i index o occupied n))
          ∙ c.copied i (omega arith) o
    ];
    only = λ name e h. elim (ℕ_discrete name (name_at old index)) [
      | yes same ↦ (index, omega arith, occupied, sym same)
      | no ne ↦
          let (i, k, o, n) = c.only name e (sym (x.others name ne) ∙ h) in (i, omega arith, o, n)
    ];
  }

  rehash-Copies :
      (rounds index : ℕ) (new : ScopeMap)
      → index + rounds ≡ old.capacity
      → Copies old new index
      → (final : ScopeMap) × (rehash rounds index old new ≡ some final)
        × Copies old final old.capacity
  unfolding rehash
  rehash-Copies zero index new e c =
      (new, refl, subst (Copies old new) (let f : index ≡ old.capacity = omega arith in f) c)
  rehash-Copies (suc rounds) index new e c = elim (Bool-cases (is_occupied old index)) [
    | inr free ↦
        let (final, r, d) =
          rehash-Copies rounds (suc index) new (omega arith) (Copies-skip new index free c) in
        (final, rw free r, d)
    | inl occupied ↦
        let s = c.slots in
        let t = c.capacity in
        let few : new.used < 2 ^ 15 =
          omega
            (arith, c.left, m.limit, c.is_map.counted, count-drop old.occupied index occupied) in
        let (bigger, added, x) =
          add_unchecked new (name_at old index) (entry_at old index) c.is_map few (omega arith)
            (absent new index occupied c) in
        let (final, r, d) =
          rehash-Copies rounds (suc index) bigger (omega arith)
            (Copies-add new bigger index occupied c x) in
        (final, rw (occupied, added) r, d)
  ]

nothing :
    (kind : ScopeMapKind) (capacity i : ℕ)
    → is_occupied (scope_map_alloc_sized kind capacity) i ≡ false
unfolding scope_map_alloc_sized
nothing kind capacity i = get_or-replicate capacity i false

blank-IsSized :
    (kind : ScopeMapKind) (exponent : ℕ) → IsSized (scope_map_alloc_sized kind (2 ^ exponent * 2))
unfolding scope_map_alloc_sized
blank-IsSized kind exponent = record {
  exponent = suc exponent;
  power = omega (arith, pow-suc 2 exponent);
  occupied_size = length-replicate (2 ^ exponent * 2) false;
  names_size = length-replicate (2 ^ exponent * 2) 0;
  entries_size = length-replicate (2 ^ exponent * 2) blank_entry;
}

count-replicate : (n : ℕ) → count (replicate n false) ≡ 0
count-replicate zero = refl
count-replicate (suc n) = count-replicate n

blank-Copies :
    (old : ScopeMap) → IsMap old → Copies old (scope_map_alloc_sized old.kind (old.capacity * 2)) 0
unfolding scope_map_alloc_sized
blank-Copies old m =
    let kind = old.kind in
    let size = old.capacity * 2 in
    record {
      is_map = record {
        counted = count-replicate size;
        limit = omega arith;
        sized = rw m.sized.power (blank-IsSized kind m.sized.exponent);
        findable = λ i o. absurd (true≢false (sym o ∙ nothing kind size i));
        distinct = λ i j o p e. absurd (true≢false (sym o ∙ nothing kind size i));
      };
      capacity = refl;
      slots = let h = count-replicate size in omega arith;
      left = omega (arith, count-replicate size, m.counted);
      copied = λ i k o. absurd (omega arith);
      only = λ name e h.
          let (i, o, n) = get-slot (scope_map_alloc_sized kind size) name e h in
          absurd (true≢false (sym o ∙ nothing kind size i));
    }

Copies-same :
    (old new : ScopeMap) (name : ℕ)
    → IsMap old
    → Copies old new old.capacity
    → scope_map_get new name ≡ scope_map_get old name
Copies-same old new name m c = elim (Option-cases (scope_map_get new name)) [
  | inr (e, found) ↦
      let (i, k, o, n) = c.only name e found in
      subst (λ x. scope_map_get new x ≡ scope_map_get old x) n
        (c.copied i k o ∙ sym (m.findable i o))
  | inl missing ↦ elim (Option-cases (scope_map_get old name)) [
    | inl absent_too ↦ missing ∙ sym absent_too
    | inr (e, found) ↦
        let (i, o, n) = get-slot old name e found in
        absurd (none≢some (sym missing ∙ rw n at (c.copied i (slot-lt old i m.sized o) o)))
  ]
]

-- `scope_map_grow` of a map of at most 2 ^ 24 slots returns a map of twice the capacity and no more
-- entries, with slots that are free, in which every lookup gives what it gave before.
pub scope_map_grow-Keeps :
    (old : ScopeMap)
    → IsMap old
    → old.capacity ≤ 2 ^ 24
    → (new : ScopeMap) × (scope_map_grow old ≡ some new)
      × IsMap new
      × (new.capacity ≡ old.capacity * 2)
      × (new.used ≤ old.used)
      × (count new.occupied < new.capacity)
      × ((name : ℕ) → scope_map_get new name ≡ scope_map_get old name)
unfolding scope_map_grow
scope_map_grow-Keeps old m small =
    let unwrapped : old.capacity * 2 % 2 ^ 32 ≡ old.capacity * 2 = omega (arith, small) in
    let start : ℕ → Option ScopeMap =
      (λ n. rehash old.capacity 0 old (scope_map_alloc_sized old.kind n)) in
    let (new, r, c) =
      rehash-Copies old m old.capacity 0 (scope_map_alloc_sized old.kind (old.capacity * 2))
        (omega arith) (blank-Copies old m) in
    let positive = one-le-pow m.sized.exponent 2 (omega arith) in
    let power = m.sized.power in
    let slots = c.slots in
    let capacity = c.capacity in
    (
      new,
      ap start unwrapped ∙ r,
      c.is_map,
      c.capacity,
      omega (arith, c.left, c.is_map.counted),
      omega arith,
      (λ name. Copies-same old new name m c),
    )
