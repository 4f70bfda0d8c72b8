-- ===== src/IdentifierPool.antt =====
-- core/identifier_pool.cpp: the names of identifiers. `core->identifiers.entries` is the list of its
-- entries in the order of their addresses; an id is an address in units of 8 bytes, of which the first
-- is left free.
pub mod Entries
pub mod Names
use toy_language.Base.{
  [], ltb, leb, ◌*◌, ◌==◌, if◌then◌else◌, length, take, ℕ, ◌+◌, ◌-◌, ◌/◌, ◌%◌, ◌^◌, Bool, true,
  false, ◌&&◌, Option, none, some, List, ◌∷◌, ◌++◌,
}
use toy_language.Hash.{fnv1a}
use toy_language.IdMap.{Alloc, IdMap, Outcome, returned, panicked, unfinished, id_from}

pub record IdentifierEntry : Type 0 where
  pub hash : ℕ
  pub count : ℕ
  pub attachment : ℕ
  pub chars : List ℕ

-- The bytes of a name. The length of an entry is stored in 16 bits: what is here of the sizes and ends
-- of entries is about names of fewer than 2 ^ 16 bytes.
abbrev pub Identifier : Type 0
Identifier = List ℕ

-- `memcmp(…) == 0`.
abbrev pub same_chars : List ℕ → List ℕ → Bool
same_chars [] [] = true
same_chars [] (y ∷ ys) = false
same_chars (x ∷ xs) [] = false
same_chars (x ∷ xs) (y ∷ ys) = let rest = same_chars xs ys in if x == y then rest else false

abbrev pub is_equal_to_key : IdentifierEntry → Identifier → ℕ → Bool
is_equal_to_key entry key key_hash =
    entry.hash == key_hash
    && (length key == entry.count && same_chars key (take entry.count entry.chars))

-- The size of an entry: 7 bytes and its characters, rounded up to units.
abbrev pub units : IdentifierEntry → ℕ
units entry = (7 + entry.count + 8 - 1) / 8

-- `IdentifierIterator`, from a unit on.
abbrev pub values_from : ℕ → List IdentifierEntry → List ℕ
values_from curr [] = []
values_from curr (entry ∷ entries) = curr ∷ values_from (curr + units entry) entries

abbrev pub end_from : ℕ → List IdentifierEntry → ℕ
end_from curr [] = curr
end_from curr (entry ∷ entries) = end_from (curr + units entry) entries

-- `value_from_id`, of an id that may have no entry.
abbrev pub entry_from : ℕ → List IdentifierEntry → ℕ → Option IdentifierEntry
entry_from curr [] id = none
entry_from curr (entry ∷ entries) id =
    let rest = entry_from (curr + units entry) entries id in if id == curr then some entry else rest

abbrev pub value_from_id : List IdentifierEntry → ℕ → Option IdentifierEntry
value_from_id entries id = entry_from 1 entries id

abbrev pub new_entry : Identifier → ℕ → IdentifierEntry
new_entry key key_hash = record {
  hash = key_hash;
  count = length key % 2 ^ 16;
  attachment = 0;
  chars = key;
}

abbrev pub hash_of : Option IdentifierEntry → ℕ
hash_of none = 0
hash_of (some entry) = entry.hash

abbrev pub entry_is_equal : Option IdentifierEntry → Identifier → ℕ → Bool
entry_is_equal none key key_hash = false
entry_is_equal (some entry) key key_hash = is_equal_to_key entry key key_hash

-- `IdentifierAlloc`, whose `dealloc` is not to be called.
abbrev pub identifier_alloc : Alloc Identifier (List IdentifierEntry)
identifier_alloc = record {
  is_equal_to_key =
      λ entries id key key_hash. entry_is_equal (value_from_id entries id) key key_hash;
  hash = λ entries id. hash_of (value_from_id entries id);
  values = λ entries. values_from 1 entries;
  create_value =
      λ entries key key_hash. (end_from 1 entries, entries ++ (new_entry key key_hash ∷ []));
  dealloc = λ entries id. entries;
}

abbrev pub IdentifierPool : Type 0
IdentifierPool = IdMap (List IdentifierEntry)

abbrev pub first_natural : ℕ
first_natural = 65536

-- The memory of the entries that is committed for so many bytes: `next_multiple` of
-- `IDENTIFIER_ENTRY_COMMIT_INCREMENT_COUNT`.
abbrev pub committed : ℕ → ℕ
committed used = (used + 2 ^ 21 - 1) / 2 ^ 21 * 2 ^ 21

-- Whether `entries.reserve` of the memory from `used` to `required` bytes returns: it panics past
-- `IDENTIFIER_ENTRY_RESERVE`, and where the memory cannot be committed.
abbrev pub has_memory : (ℕ → ℕ → Bool) → ℕ → ℕ → Bool
has_memory entries_commit used required =
    if leb required (committed used)
    then true
    else if ltb (2 ^ 25) required
    then false
    else entries_commit (committed used) (committed required - committed used)

abbrev pub can_reserve : (ℕ → ℕ → Bool) → List IdentifierEntry → List IdentifierEntry → Bool
can_reserve entries_commit old new =
    has_memory entries_commit (8 * end_from 1 old) (8 * end_from 1 new)

-- The panic of `create_value` is taken with the others of the call: the entries are only added to.
abbrev pub natural_id :
    (ℕ → ℕ → Bool)
    → List IdentifierEntry
    → Outcome (ℕ × IdentifierPool)
    → Outcome (ℕ × IdentifierPool)
natural_id entries_commit old (returned (id, pool)) =
    if can_reserve entries_commit old pool.alloc
    then returned (id + first_natural, pool)
    else panicked
natural_id entries_commit old panicked = panicked
natural_id entries_commit old unfinished = unfinished

-- `mem_commit` is about the memory of the table, `entries_commit` about that of the entries.
unfoldable pub id_from_identifier :
    (ℕ → ℕ → Bool) → (ℕ → ℕ → Bool) → IdentifierPool → Identifier → Outcome (ℕ × IdentifierPool)
id_from_identifier mem_commit entries_commit pool identifier =
    natural_id entries_commit pool.alloc
      (id_from identifier_alloc mem_commit pool identifier (fnv1a identifier))

abbrev pub name_of : Option IdentifierEntry → Option (List ℕ)
name_of none = none
name_of (some entry) = some (take entry.count entry.chars)

unfoldable pub identifier_name_from_id : IdentifierPool → ℕ → Option (List ℕ)
identifier_name_from_id pool id = name_of (value_from_id pool.alloc (id - first_natural))
