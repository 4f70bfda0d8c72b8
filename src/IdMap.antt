-- ===== src/IdMap.antt =====
-- `IdMap` of infra/container/id_map.hpp, a hash table with robin hood hashing. The values are kept by
-- an allocator, which is an interface here as it is a template parameter there. `m_lookups` is a list
-- of its committed part.
pub mod Slots
pub mod Contents
pub mod Placement
pub mod Rehash
pub mod Equal
pub mod Lookup
pub mod Presence
pub mod Insertion
pub mod Valid
pub mod Identity
pub mod Used
use toy_language.Base.{
  [], ltb, ◌==◌, if◌then◌else◌, get_or, set, replicate, ℕ, zero, suc, ◌+◌, ◌-◌, ◌*◌, ◌/◌, ◌%◌, ◌^◌,
  bit_and, bit_or, Bool, ◌&&◌, ◌||◌, not, Option, none, some, List, ◌∷◌, map,
}

-- The bit fields of 24 and 8 bits, and the id.
pub record LookupEntry : Type 0 where
  pub hash_fingerprint : ℕ
  pub psl : ℕ
  pub data_id : ℕ

abbrev pub max_psl : ℕ
max_psl = 64

abbrev pub empty_lookup : LookupEntry
empty_lookup = record { hash_fingerprint = 0; psl = 0; data_id = 0 }

abbrev pub is_empty_lookup : LookupEntry → Bool
is_empty_lookup lookup = lookup.hash_fingerprint == 0

unfoldable pub create_lookup : ℕ → LookupEntry
create_lookup key_hash = record {
  hash_fingerprint = bit_or (key_hash / 2 ^ 8) 1;
  psl = 0;
  data_id = 0;
}

-- `V` and `Alloc`, for a state `S` of the allocator. A value is known by its id.
pub record Alloc (K S : Type 0) : Type 0 where
  pub is_equal_to_key : S → ℕ → K → ℕ → Bool
  pub hash : S → ℕ → ℕ
  pub values : S → List ℕ
  pub create_value : S → K → ℕ → ℕ × S
  pub dealloc : S → ℕ → S

pub record IdMap (S : Type 0) : Type 0 where
  pub lookups : List LookupEntry
  pub lookup_used : ℕ
  pub lookup_commit : ℕ
  pub lookup_capacity : ℕ
  pub alloc : S

-- A call returns, calls `panic`, or does not end within its fuel.
pub data Outcome (A : Type 0) : Type 0 where
  returned : A → Outcome A
  panicked : Outcome A
  unfinished : Outcome A

abbrev pub lookup_at : List LookupEntry → ℕ → LookupEntry
lookup_at lookups i = get_or lookups i empty_lookup

-- `i += 1`, back to 0 at the end.
unfoldable pub next_slot : ℕ → ℕ → ℕ
next_slot commit i = if i + 1 == commit then 0 else i + 1

abbrev pub further : LookupEntry → LookupEntry
further lookup = record lookup { psl = lookup.psl + 1 }

-- `hash & (m_lookup_commit - 1)`.
unfoldable pub first_slot : ℕ → ℕ → ℕ
first_slot commit key_hash = bit_and key_hash (commit - 1)

-- Every round of a loop that moves entries on raises the sum of their `psl` by one, which are at most
-- 64 each.
abbrev pub walk_fuel : ℕ → ℕ
walk_fuel commit = 65 * (commit + 1)

-- The loop of `reinsert_value_into_lookup`.
unfoldable pub reinsert_loop :
    ℕ → ℕ → List LookupEntry → ℕ → LookupEntry → Outcome (List LookupEntry)
unfolding next_slot
reinsert_loop zero commit lookups i wanted = unfinished
reinsert_loop (suc fuel) commit lookups i wanted =
    let curr = lookup_at lookups i in
    let next = next_slot commit i in
    let swap = reinsert_loop fuel commit (set lookups i wanted) next (further curr) in
    let pass = reinsert_loop fuel commit lookups next (further wanted) in
    if is_empty_lookup curr
    then returned (set lookups i wanted)
    else if ltb curr.psl wanted.psl
    then if curr.psl == max_psl then panicked else swap
    else if wanted.psl == max_psl
    then panicked
    else pass

unfoldable pub reinsert_value_into_lookup :
    ℕ → List LookupEntry → ℕ → ℕ → Outcome (List LookupEntry)
reinsert_value_into_lookup commit lookups data_id key_hash =
    reinsert_loop (walk_fuel commit) commit lookups (first_slot commit key_hash)
      (record (create_lookup key_hash) { data_id = data_id })

-- Whether a new value is still to be made, or its id.
pub data Phase : Type 0 where
  needs_allocation : Phase
  allocated : ℕ → Phase

-- Where the loop of `id_from` ends: at an empty slot, at the key, or at the greatest `psl`.
pub data Walk (S : Type 0) : Type 0 where
  filled : ℕ → S → List LookupEntry → Walk S
  present : ℕ → S → List LookupEntry → Walk S
  overflow : Phase → S → List LookupEntry → Walk S
  endless : Walk S

module _ {K S : Type 0} (ops : Alloc K S) (mem_commit : ℕ → ℕ → Bool) where
  abbrev pub is_equal_lookup : S → LookupEntry → LookupEntry → K → ℕ → Bool
  is_equal_lookup s existing to_insert key key_hash =
      existing.hash_fingerprint == to_insert.hash_fingerprint
      && (existing.psl == to_insert.psl && ops.is_equal_to_key s existing.data_id key key_hash)

  -- The entry to write, with the value that it needs.
  abbrev pub allocate : Phase → S → LookupEntry → K → ℕ → ℕ × S × LookupEntry
  allocate needs_allocation s to_insert key key_hash =
      let (id, after) = ops.create_value s key key_hash in
      (id, after, record to_insert { data_id = id })
  allocate (allocated id) s to_insert key key_hash = (id, s, to_insert)

  -- The loop of `id_from`.
  unfoldable pub insert_loop :
      K → ℕ → ℕ → ℕ → S → List LookupEntry → ℕ → LookupEntry → Phase → Walk S
  unfolding next_slot
  insert_loop key key_hash zero commit s lookups i to_insert phase = endless
  insert_loop key key_hash (suc fuel) commit s lookups i to_insert phase =
      let existing = lookup_at lookups i in
      let next = next_slot commit i in
      let (id, after, entry) = allocate phase s to_insert key key_hash in
      let swapped =
        insert_loop key key_hash fuel commit after (set lookups i entry) next (further existing)
          (allocated id) in
      let passed = insert_loop key key_hash fuel commit s lookups next (further to_insert) phase in
      if is_empty_lookup existing
      then filled id after (set lookups i entry)
      else if is_equal_lookup s existing to_insert key key_hash
      then present existing.data_id s lookups
      else if ltb existing.psl to_insert.psl
      then if existing.psl == max_psl
        then overflow (allocated id) after (set lookups i entry)
        else swapped
      else if to_insert.psl == max_psl
      then overflow phase s lookups
      else passed

  -- The loop of `rehash` over the values.
  unfoldable pub reinsert_all : ℕ → S → List ℕ → List LookupEntry → Outcome (List LookupEntry)
  reinsert_all commit s [] lookups = returned lookups
  reinsert_all commit s (id ∷ ids) lookups =
      elim (reinsert_value_into_lookup commit lookups id (ops.hash s id)) [
        | returned more ↦ reinsert_all commit s ids more
        | panicked ↦ panicked
        | unfinished ↦ unfinished
      ]

  abbrev pub with_lookups : IdMap S → Outcome (List LookupEntry) → Outcome (IdMap S)
  with_lookups map (returned lookups) =
      returned (record map { lookups = lookups; lookup_commit = map.lookup_commit * 2 % 2 ^ 32 })
  with_lookups map panicked = panicked
  with_lookups map unfinished = unfinished

  -- Memory that is committed is 0, as is the part that is cleared. The sizes are `u32`: from 2 ^ 29
  -- slots on no memory is committed, and the table here is not one that the source has.
  unfoldable pub rehash : IdMap S → Outcome (IdMap S)
  rehash map =
      if map.lookup_commit == map.lookup_capacity
      then panicked
      else if not (mem_commit (map.lookup_commit * 8 % 2 ^ 32) (map.lookup_commit * 8 % 2 ^ 32))
      then panicked
      else with_lookups map (
          reinsert_all (map.lookup_commit * 2 % 2 ^ 32) map.alloc (ops.values map.alloc)
            (replicate (map.lookup_commit * 2 % 2 ^ 32) empty_lookup))

  -- `init`, of memory of that many bytes.
  unfoldable pub init : ℕ → ℕ → S → Outcome (IdMap S)
  init memory_bytes lookup_commit alloc =
      if not (mem_commit 0 (lookup_commit * 8))
      then panicked
      else returned (record {
        lookups = replicate lookup_commit empty_lookup;
        lookup_used = 0;
        lookup_commit = lookup_commit;
        lookup_capacity = memory_bytes / 8 % 2 ^ 32;
        alloc = alloc;
      })

  -- `m_lookup_used * 4 > m_lookup_commit * 3`, in `u32`.
  unfoldable pub needs_rehash : IdMap S → Bool
  needs_rehash map = ltb (map.lookup_commit * 3 % 2 ^ 32) (map.lookup_used * 4 % 2 ^ 32)

  abbrev pub walk_from : IdMap S → K → ℕ → Walk S
  walk_from map key key_hash =
      insert_loop key key_hash (walk_fuel map.lookup_commit) map.lookup_commit map.alloc map.lookups
        (first_slot map.lookup_commit key_hash) (create_lookup key_hash) needs_allocation

  abbrev pub return_id : ℕ → Outcome (IdMap S) → Outcome (ℕ × IdMap S)
  return_id id (returned map) = returned (id, map)
  return_id id panicked = panicked
  return_id id unfinished = unfinished

  -- `id_from`, with one round for every time that the table can double.
  unfoldable pub id_from_within : ℕ → Outcome (IdMap S) → K → ℕ → Outcome (ℕ × IdMap S)
  id_from_within zero map key key_hash = unfinished
  id_from_within (suc rounds) panicked key key_hash = panicked
  id_from_within (suc rounds) unfinished key key_hash = unfinished
  id_from_within (suc rounds) (returned map) key key_hash =
      elim (if needs_rehash map then rehash map else returned map) [
        | panicked ↦ panicked
        | unfinished ↦ unfinished
        | returned ready ↦ elim (walk_from ready key key_hash) [
          | filled id s lookups ↦ returned (id, record ready { lookups = lookups; alloc = s })
          | present id s lookups ↦ returned (id, record ready { lookups = lookups; alloc = s })
          | overflow needs_allocation s lookups ↦
              id_from_within rounds (rehash (record ready { lookups = lookups; alloc = s })) key
                key_hash
          | overflow (allocated id) s lookups ↦
              return_id id (rehash (record ready { lookups = lookups; alloc = s }))
          | endless ↦ unfinished
        ]
      ]

  unfoldable pub id_from : IdMap S → K → ℕ → Outcome (ℕ × IdMap S)
  id_from map key key_hash = id_from_within 33 (returned map) key key_hash

  -- The loop of `find_by_key`, with rounds for every `psl`: the slot of the key.
  unfoldable pub find_loop : K → ℕ → ℕ → ℕ → S → List LookupEntry → ℕ → LookupEntry → Option ℕ
  unfolding next_slot
  find_loop key key_hash zero commit s lookups i to_find = none
  find_loop key key_hash (suc rounds) commit s lookups i to_find =
      let existing = lookup_at lookups i in
      let rest =
        find_loop key key_hash rounds commit s lookups (next_slot commit i) (further to_find) in
      if is_empty_lookup existing || ltb existing.psl to_find.psl
      then none
      else if is_equal_lookup s existing to_find key key_hash
      then some i
      else if to_find.psl == max_psl
      then none
      else rest

  unfoldable pub find_by_key : IdMap S → K → ℕ → Option ℕ
  find_by_key map key key_hash =
      find_loop key key_hash 65 map.lookup_commit map.alloc map.lookups
        (first_slot map.lookup_commit key_hash) (create_lookup key_hash)

  unfoldable pub try_id_from : IdMap S → K → ℕ → Option ℕ
  try_id_from map key key_hash = elim (find_by_key map key key_hash) [
    | none ↦ none
    | some i ↦ some (lookup_at map.lookups i).data_id
  ]

  -- The loop of `remove_from_lookups`: what follows moves back by one.
  unfoldable pub shift_loop : ℕ → ℕ → List LookupEntry → ℕ → ℕ → List LookupEntry
  unfolding next_slot
  shift_loop zero commit lookups prev_i curr_i = set lookups prev_i empty_lookup
  shift_loop (suc rounds) commit lookups prev_i curr_i =
      let curr = lookup_at lookups curr_i in
      let rest =
        shift_loop rounds commit (set lookups prev_i (record curr { psl = curr.psl - 1 })) curr_i
          (next_slot commit curr_i) in
      if curr.psl == 0 then set lookups prev_i empty_lookup else rest

  unfoldable pub remove_from_lookups : IdMap S → ℕ → IdMap S
  remove_from_lookups map i =
      let mask = map.lookup_commit - 1 in
      let prev_i = bit_and i mask in
      record map {
        lookup_used = (map.lookup_used + (2 ^ 32 - 1)) % 2 ^ 32;
        lookups =
            shift_loop map.lookup_commit map.lookup_commit map.lookups prev_i
              (bit_and (prev_i + 1) mask);
      }

  unfoldable pub try_remove : IdMap S → K → ℕ → Option (IdMap S)
  try_remove map key key_hash = elim (find_by_key map key key_hash) [
    | none ↦ none
    | some i ↦ some (
        remove_from_lookups
          (record map { alloc = ops.dealloc map.alloc (lookup_at map.lookups i).data_id }) i)
  ]
