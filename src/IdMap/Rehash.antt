-- ===== src/IdMap/Rehash.antt =====
-- `reinsert_value_into_lookup` and `rehash` of infra/container/id_map.hpp: a table of twice the size
-- is filled with the values that the allocator has.
use toy_language.Base.{
  ==_ne, length, replicate, length-replicate, get_or-replicate, ℕ, suc, ◌+◌, ◌*◌, ◌%◌, ◌^◌, ◌≤◌,
  ◌<◌, ◌≡◌, refl, sym, ap, ◌≢◌, ◌⊎◌, inl, inr, Bool, true, List, [], ◌∷◌, ◌++◌, map, arith,
}
use mathlib.Core.List.{Perm, perm_middle, append-nil}
use mathlib.Core.List.Perm
use mathlib.Core.Bool.{true≢false}
use native.Mathlib.Nat.{one-le-pow, pow-suc}
use toy_language.Base.Bits.{bit_and_low}
use toy_language.Base.Ring.{gap}
use toy_language.IdMap.{
  LookupEntry, Outcome, returned, panicked, empty_lookup, create_lookup, first_slot, walk_fuel,
  reinsert_value_into_lookup, Alloc, IdMap, reinsert_all, rehash,
}
use toy_language.IdMap.Slots.{IsAt, Fits}
use toy_language.IdMap.Contents.{ids, ids-replicate, empty_slot, length-Perm}
use toy_language.IdMap.Placement.{Overfull, Places, reinsert_loop-Places}

pub first_slot-lt : (k h : ℕ) → first_slot (2 ^ k) h < 2 ^ k
unfolding first_slot
first_slot-lt k h = rw (bit_and_low k h) (omega (arith, one-le-pow k 2 (omega arith)))

pub create_lookup-IsAt :
    (k : ℕ) (hash : ℕ → ℕ) (lookups : List LookupEntry) (id : ℕ)
    → IsAt
        (2 ^ k)
        hash
        lookups
        (record (create_lookup (hash id)) { data_id = id })
        (first_slot (2 ^ k) (hash id))
unfolding create_lookup
create_lookup-IsAt k hash lookups id =
    let first = first_slot (2 ^ k) (hash id) in
    let below = first_slot-lt k (hash id) in
    record {
      print = refl;
      reach = omega arith;
      short = omega (arith, below);
      place = ground (arith, below);
      run = λ q h. absurd (omega arith);
    }

pub gap-lt_fuel : (commit i e : ℕ) → i < commit → e < commit → gap commit i e < walk_fuel commit
gap-lt_fuel commit i e h k = ground arith

-- On a table of 2 ^ k slots in which every entry stands in its place and a slot is empty,
-- `reinsert_value_into_lookup` of an id and its hash returns such a table with the id besides those
-- that were there; or it panics, and 65 slots in a row were taken.
pub reinsert_value_into_lookup-Places :
    (k : ℕ) (hash : ℕ → ℕ) (lookups : List LookupEntry) (id : ℕ)
    → Fits (2 ^ k) hash lookups
    → length (ids lookups) < 2 ^ k
    → Places (2 ^ k) hash lookups id (reinsert_value_into_lookup (2 ^ k) lookups id (hash id))
unfolding reinsert_value_into_lookup create_lookup
reinsert_value_into_lookup-Places k hash lookups id fits h =
    let (e, inside, empty) = empty_slot lookups (rw fits.size h) in
    let below : e < 2 ^ k = rw (sym fits.size) inside in
    let first = first_slot (2 ^ k) (hash id) in
    reinsert_loop-Places (first_slot-lt k) hash (walk_fuel (2 ^ k)) lookups first e
      (record (create_lookup (hash id)) { data_id = id }) fits (first_slot-lt k (hash id))
      (create_lookup-IsAt k hash lookups id) below empty
      (gap-lt_fuel (2 ^ k) first e (first_slot-lt k (hash id)) below)

-- The same for a size that is a power of two, and a hash.
pub reinserted-Places :
    (commit k : ℕ) (hash : ℕ → ℕ) (lookups : List LookupEntry) (id key_hash : ℕ)
    → commit ≡ 2 ^ k
    → hash id ≡ key_hash
    → Fits commit hash lookups
    → length (ids lookups) < commit
    → Places commit hash lookups id (reinsert_value_into_lookup commit lookups id key_hash)
reinserted-Places commit k hash lookups id key_hash power hashed fits h =
    rw (power, sym hashed)
      (reinsert_value_into_lookup-Places k hash lookups id (rw power at fits) (rw power at h))

-- The table has all of the values besides what it had, or 65 slots in a row were taken when one of
-- them was inserted.
abbrev pub PlacesAll : ℕ → (ℕ → ℕ) → List LookupEntry → List ℕ → Outcome (List LookupEntry) → Type 0
PlacesAll commit hash lookups values result =
    ((new : List LookupEntry) × (result ≡ returned new)
      × Fits commit hash new
      × Perm (ids new) (values ++ ids lookups))
    ⊎ ((result ≡ panicked)
        × ((before : List ℕ) × (after : List ℕ) × (old : List LookupEntry) × (values
              ≡ before ++ after)
            × Fits commit hash old
            × Perm (ids old) (before ++ ids lookups)
            × Overfull commit old))

module _ {K S : Type 0} (ops : Alloc K S) (mem_commit : ℕ → ℕ → Bool) where
  PlacesAll-later :
      (commit : ℕ) (hash : ℕ → ℕ) (lookups new : List LookupEntry) (id : ℕ) (values : List ℕ)
      (result : Outcome (List LookupEntry))
      → Perm (ids new) (id ∷ ids lookups)
      → PlacesAll commit hash new values result
      → PlacesAll commit hash lookups (id ∷ values) result
  PlacesAll-later commit hash lookups new id values result same (inl (more, e, fits, all)) = inl (
    more,
    e,
    fits,
    Perm.trans all (Perm.trans (Perm.append_left values same) (perm_middle values (ids lookups))),
  )
  PlacesAll-later commit hash lookups new id values result same
        (inr (e, (before, after, old, split, fits, some_of, full))) =
      inr (
        e,
        (
          id ∷ before,
          after,
          old,
          ap (λ xs. id ∷ xs) split,
          fits,
          Perm.trans some_of
              (Perm.trans (Perm.append_left before same) (perm_middle before (ids lookups))),
          full,
        ),
      )

  reinsert_all-later :
      (commit : ℕ) (s : S) (id : ℕ) (values : List ℕ) (lookups new : List LookupEntry)
      → reinsert_value_into_lookup commit lookups id (ops.hash s id) ≡ returned new
      → reinsert_all ops mem_commit commit s (id ∷ values) lookups
        ≡ reinsert_all ops mem_commit commit s values new
  unfolding reinsert_all
  reinsert_all-later commit s id values lookups new e = rw (reinsert_all, e) refl

  reinsert_all-panicked :
      (commit : ℕ) (s : S) (id : ℕ) (values : List ℕ) (lookups : List LookupEntry)
      → reinsert_value_into_lookup commit lookups id (ops.hash s id) ≡ panicked
      → reinsert_all ops mem_commit commit s (id ∷ values) lookups ≡ panicked
  unfolding reinsert_all
  reinsert_all-panicked commit s id values lookups e = rw (reinsert_all, e) refl

  reinsert_all-nil :
      (commit : ℕ) (s : S) (lookups : List LookupEntry)
      → reinsert_all ops mem_commit commit s [] lookups ≡ returned lookups
  unfolding reinsert_all
  reinsert_all-nil commit s lookups = refl

  reinsert_all-PlacesAll :
      (k : ℕ) (s : S) (values : List ℕ) (lookups : List LookupEntry)
      → Fits (2 ^ k) (ops.hash s) lookups
      → length values + length (ids lookups) ≤ 2 ^ k
      → PlacesAll
          (2 ^ k)
          (ops.hash s)
          lookups
          values
          (reinsert_all ops mem_commit (2 ^ k) s values lookups)
  reinsert_all-PlacesAll k s [] lookups fits h =
      inl (lookups, reinsert_all-nil (2 ^ k) s lookups, fits, Perm.refl (ids lookups))
  reinsert_all-PlacesAll k s (id ∷ values) lookups fits h =
      elim (reinsert_value_into_lookup-Places k (ops.hash s) lookups id fits (omega arith)) [
        | inr (e, full) ↦ inr (
          reinsert_all-panicked (2 ^ k) s id values lookups e,
          ([], id ∷ values, lookups, refl, fits, Perm.refl (ids lookups), full),
        )
        | inl (new, e, fits_new, same) ↦
            PlacesAll-later (2 ^ k) (ops.hash s) lookups new id values
              (reinsert_all ops mem_commit (2 ^ k) s (id ∷ values) lookups) same
              (rw (reinsert_all-later (2 ^ k) s id values lookups new e) (
                reinsert_all-PlacesAll k s values new fits_new
                  (omega (arith, h, length-Perm same))))
      ]

  pub Fits-blank : (commit : ℕ) (hash : ℕ → ℕ) → Fits commit hash (replicate commit empty_lookup)
  Fits-blank commit hash = record {
    size = length-replicate commit empty_lookup;
    at = λ j h taken. absurd (true≢false (rw (get_or-replicate commit j empty_lookup) at taken));
  }

  -- The map has a table of twice the size for the same allocator.
  abbrev pub Doubles : IdMap S → Outcome (IdMap S) → Type 0
  Doubles map result =
      ((new : List LookupEntry) × (result
          ≡ returned (record map { lookups = new; lookup_commit = map.lookup_commit * 2 }))
        × Fits (map.lookup_commit * 2) (ops.hash map.alloc) new
        × Perm (ids new) (ops.values map.alloc))
      ⊎ ((result ≡ panicked)
          × ((before : List ℕ) × (after : List ℕ) × (old : List LookupEntry) × (ops.values map.alloc
                ≡ before ++ after)
              × Fits (map.lookup_commit * 2) (ops.hash map.alloc) old
              × Perm (ids old) before
              × Overfull (map.lookup_commit * 2) old))

  -- `rehash` of a table whose size is a power of two below 2 ^ 29, that can grow and for which memory
  -- can be committed, with no more values than it is to have slots, returns a table of twice the size
  -- in which every value of the allocator has one entry, in its place; or it panics where a table of
  -- some of the values has 65 entries in a row.
  pub rehash-Doubles :
      (map : IdMap S) (k : ℕ)
      → map.lookup_commit ≡ 2 ^ k
      → map.lookup_commit < 2 ^ 29
      → map.lookup_commit ≢ map.lookup_capacity
      → mem_commit (map.lookup_commit * 8 % 2 ^ 32) (map.lookup_commit * 8 % 2 ^ 32) ≡ true
      → length (ops.values map.alloc) ≤ map.lookup_commit * 2
      → Doubles map (rehash ops mem_commit map)
  unfolding rehash
  rehash-Doubles map k power small room ok few =
      let commit = map.lookup_commit * 2 in
      let values = ops.values map.alloc in
      let blank = replicate commit empty_lookup in
      let doubled : commit ≡ 2 ^ suc k = omega (arith, power, pow-suc 2 k) in
      let none_yet = ids-replicate commit in
      let cases : PlacesAll commit (ops.hash map.alloc) blank values
          (reinsert_all ops mem_commit commit map.alloc values blank) =
        rw doubled (
          reinsert_all-PlacesAll (suc k) map.alloc values (replicate (2 ^ suc k) empty_lookup)
            (Fits-blank (2 ^ suc k) (ops.hash map.alloc))
            (rw (ids-replicate (2 ^ suc k), sym doubled) (omega arith))) in
      let bare : (xs : List ℕ) → xs ++ ids blank ≡ xs = (λ xs. rw none_yet (append-nil xs)) in
      let unwrapped : map.lookup_commit * 2 % 2 ^ 32 ≡ map.lookup_commit * 2 =
        omega (arith, small) in
      rw (==_ne map.lookup_commit map.lookup_capacity room, ok, unwrapped)
        (elim cases [
          | inl (new, e, fits, same) ↦
              let resized : ℕ → Outcome (IdMap S) =
                (λ c. returned (record map { lookups = new; lookup_commit = c })) in
              inl (new, rw e (ap resized unwrapped), fits, rw (bare values) at same)
          | inr (e, (before, after, old, split, fits, same, full)) ↦
              inr (rw e refl, (before, after, old, split, fits, rw (bare before) at same, full))
        ])
