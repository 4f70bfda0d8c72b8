-- ===== src/Tests/IdMap.antt =====
-- infra/container/id_map.hpp at concrete values: the values are numbers, each its own hash and id.
use toy_language.Base.{◌==◌, ==_iff, replicate, ℕ, ◌≡◌, refl, Bool, true, List, [], ◌∷◌, arith}
use mathlib.Core.List.Perm
use toy_language.IdMap.{
  init, returned, id_from_within, insert_loop, create_lookup, first_slot, next_slot, empty_lookup,
  Alloc, IdMap, id_from, find_by_key, rehash, needs_rehash, remove_from_lookups,
}
use toy_language.IdMap.Rehash.{Fits-blank, Doubles, rehash-Doubles}
use toy_language.IdMap.Lookup.{EqualHash, Finds, find_by_key-Finds}
use toy_language.IdMap.Identity.{Identifies, id_from-Identifies}
use toy_language.IdMap.Valid.{IsAlloc, IsValid}
use toy_language.IdMap.Used.{insert_all, remove_from_lookups-overdue}

abbrev numbers : Alloc ℕ (List ℕ)
numbers = record {
  is_equal_to_key = λ s id key key_hash. id == key_hash;
  hash = λ s id. id;
  values = λ s. s;
  create_value = λ s key key_hash. (key_hash, key_hash ∷ s);
  dealloc = λ s id. s;
}

abbrev commits : ℕ → ℕ → Bool
commits from size = true

numbers-EqualHash : (s : List ℕ) → EqualHash numbers commits s
numbers-EqualHash s id key key_hash equal = (==_iff id key_hash).0 equal

numbers-IsAlloc : IsAlloc numbers commits 7
numbers-IsAlloc = record {
  equal_hash = numbers-EqualHash;
  created_equal = λ s key_hash. (==_iff key_hash key_hash).1 refl;
  created_values = λ s key_hash. Perm.refl (key_hash ∷ s);
  kept_hash = λ s key_hash id m. refl;
  kept_equal = λ s key_hash id m. refl;
}

abbrev blank_map : IdMap (List ℕ)
blank_map = record {
  lookups = replicate 4 empty_lookup;
  lookup_used = 0;
  lookup_commit = 4;
  lookup_capacity = 16;
  alloc = [];
}

blank_map-IsValid : IsValid numbers commits blank_map
blank_map-IsValid = record {
  exponent = 2;
  power = refl;
  fits = Fits-blank numbers commits 4 (λ id. id);
  contents = Perm.refl [];
}

id_from-Identifies_example :
    Identifies numbers commits 7 numbers-IsAlloc blank_map blank_map-IsValid 7
      (id_from numbers commits blank_map 7 7)
unfolding needs_rehash
id_from-Identifies_example =
    id_from-Identifies numbers commits 7 numbers-IsAlloc blank_map blank_map-IsValid 7 refl
      (omega arith)

-- Of the same table, which was not rehashed yet, with a value that the allocator has.
rehash-Doubles_example :
    Doubles numbers commits
      (record blank_map { alloc = 3 ∷ 7 ∷ [] })
      (rehash numbers commits (record blank_map { alloc = 3 ∷ 7 ∷ [] }))
rehash-Doubles_example =
    rehash-Doubles numbers commits (record blank_map { alloc = 3 ∷ 7 ∷ [] }) 2 refl (omega arith)
      (λ e. omega (arith, e)) refl (omega arith)

find_by_key-Finds_example :
    Finds numbers commits [] 4
      (replicate 4 empty_lookup)
      7
      7
      (find_by_key numbers commits blank_map 7 7)
find_by_key-Finds_example =
    find_by_key-Finds numbers commits blank_map 2 7 7 (numbers-EqualHash []) refl
      (Fits-blank numbers commits 4 (λ id. id))

-- The map after `init` of four slots, and after a call of `id_from`.
abbrev one_value : IdMap (List ℕ)
one_value = record blank_map {
  lookups =
      empty_lookup
      ∷ empty_lookup
      ∷ empty_lookup
      ∷ record { hash_fingerprint = 1; psl = 0; data_id = 7 }
      ∷ [];
  alloc = 7 ∷ [];
}

begun : init numbers commits 128 4 [] ≡ returned blank_map
unfolding init
begun = refl

inserted : insert_all numbers commits ((7, 7) ∷ []) blank_map ≡ returned one_value
unfolding id_from id_from_within needs_rehash insert_loop create_lookup first_slot next_slot
inserted = refl

remove_from_lookups-overdue_example :
    needs_rehash numbers commits (remove_from_lookups numbers commits one_value 3) ≡ true
remove_from_lookups-overdue_example =
    remove_from_lookups-overdue numbers commits 128 4 3 [] ((7, 7) ∷ []) blank_map one_value begun
      inserted (omega arith)
