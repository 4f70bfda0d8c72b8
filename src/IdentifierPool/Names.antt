-- ===== src/IdentifierPool/Names.antt =====
-- `id_from_identifier` and `identifier_name_from_id` of core/identifier_pool.cpp.
use toy_language.Base.{
  ◌≤◌, le→leb, ◌*◌, ◌++◌, [], ◌∷◌, Option-cases, length, ℕ, ◌+◌, ◌-◌, ◌%◌, ◌^◌, ◌<◌, ◌≡◌, refl, ap,
  ◌∙◌, ◌⊎◌, inl, inr, Bool, true, false, some, List, arith,
}
use native.Mathlib.Nat.{mod-eq_of_lt}
use toy_language.Hash.{fnv1a}
use toy_language.IdMap.{returned, lookup_at, id_from, needs_rehash, try_id_from}
use toy_language.IdMap.Lookup.{find_by_key-Finds}
use toy_language.IdMap.Placement.{Overfull}
use toy_language.IdMap.Valid.{IsValid}
use toy_language.IdMap.Identity.{id_from-Identifies}
use toy_language.IdentifierPool.{
  IdentifierEntry, Identifier, IdentifierPool, value_from_id, new_entry, entry_is_equal,
  identifier_alloc, first_natural, name_of, can_reserve, committed, end_from, id_from_identifier,
  identifier_name_from_id,
}
use toy_language.IdentifierPool.Entries.{
  equal_entry, take_all, entry_from-new, identifier_alloc-IsAlloc,
}

-- The name of an entry that is equal to a key, and of a new one.
equal-name :
    (entries : List IdentifierEntry) (id : ℕ) (key : Identifier) (key_hash : ℕ)
    → entry_is_equal (value_from_id entries id) key key_hash ≡ true
    → name_of (value_from_id entries id) ≡ some key
equal-name entries id key key_hash equal = elim (Option-cases (value_from_id entries id)) [
  | inl missing ↦ cc (rw missing at equal)
  | inr (entry, found) ↦ rw found (ap some ((equal_entry entry key key_hash (rw found at equal)).1))
]

new_entry-name :
    (key : Identifier) (key_hash : ℕ)
    → length key < 2 ^ 16
    → name_of (some (new_entry key key_hash)) ≡ some key
new_entry-name key key_hash short =
    let count : length key % 2 ^ 16 ≡ length key = mod-eq_of_lt short in
    rw count (ap some (take_all key))

module _ (mem_commit entries_commit : ℕ → ℕ → Bool) (pool : IdentifierPool)
    (valid : IsValid identifier_alloc mem_commit pool) (key : Identifier) where
  -- An id by which the name is found, and which is found for the name.
  abbrev pub Names : IdentifierPool → ℕ → Type 0
  Names new id =
      IsValid identifier_alloc mem_commit new
      × (identifier_name_from_id new (id + first_natural) ≡ some key)
      × (try_id_from identifier_alloc mem_commit new key (fnv1a key) ≡ some id)

  named :
      (id : ℕ) (new : IdentifierPool)
      → can_reserve entries_commit pool.alloc new.alloc ≡ true
      → id_from identifier_alloc mem_commit pool key (fnv1a key) ≡ returned (id, new)
      → id_from_identifier mem_commit entries_commit pool key ≡ returned (id + first_natural, new)
  unfolding id_from_identifier
  named id new room e = rw (e, room) refl

  -- Nothing is to be reserved for a name that is there.
  same_memory : can_reserve entries_commit pool.alloc pool.alloc ≡ true
  same_memory =
      let used = 8 * end_from 1 pool.alloc in
      let inside : used ≤ committed used = omega arith in
      rw (le→leb used (committed used) inside) refl

  natural_name :
      (new : IdentifierPool) (id : ℕ)
      → identifier_name_from_id new (id + first_natural) ≡ name_of (value_from_id new.alloc id)
  unfolding identifier_name_from_id
  natural_name new id =
      let back : id + first_natural - first_natural ≡ id = omega arith in rw back refl

  -- `id_from_identifier`, for a name of fewer than 2 ^ 16 bytes and a pool that is valid, is not full,
  -- for which no rehash is due and whose entries have memory for one more of that name, returns an id
  -- and a pool that is valid: the name of the id in that pool is that of the identifier, and the id is
  -- found for it; unless 65 slots in a row are taken.
  pub id_from_identifier-Names :
      length key < 2 ^ 16
      → needs_rehash identifier_alloc mem_commit pool ≡ false
      → length (identifier_alloc.values pool.alloc) < pool.lookup_commit
      → can_reserve entries_commit pool.alloc (pool.alloc ++ (new_entry key (fnv1a key) ∷ []))
        ≡ true
      → ((id : ℕ) × (new : IdentifierPool) × (id_from_identifier mem_commit entries_commit pool key
            ≡ returned (id + first_natural, new))
          × Names new id)
        ⊎ Overfull pool.lookup_commit pool.lookups
  unfolding try_id_from
  id_from_identifier-Names short ready few room =
      let law = identifier_alloc-IsAlloc mem_commit key short in
      let key_hash = fnv1a key in
      elim (id_from-Identifies identifier_alloc mem_commit key law pool valid key_hash ready few) [
        | inl (i, found, e) ↦
            elim (find_by_key-Finds identifier_alloc mem_commit pool valid.exponent key key_hash
              (law.equal_hash pool.alloc) valid.power valid.fits) [
                | inr (missing, absent) ↦ cc
                | inl (j, also, below, taken, equal) ↦
                    let id = (lookup_at pool.lookups j).data_id in
                    let same : i ≡ j = cc in
                    let result = rw same at e in
                    inl (
                      id,
                      pool,
                      named id pool same_memory result,
                      (
                        valid,
                        natural_name pool id ∙ equal-name pool.alloc id key key_hash equal,
                        rw (try_id_from, also) refl,
                      ),
                    )
              ]
        | inr (inl (missing, (new, e, kept, new_valid, again))) ↦
            let (id, after) = identifier_alloc.create_value pool.alloc key key_hash in
            inl (
              id,
              new,
              named id new (rw kept room) e,
              (
                new_valid,
                natural_name new id
                    ∙ ap (λ (entries : List IdentifierEntry). name_of (value_from_id entries id))
                        kept
                    ∙ ap name_of (entry_from-new 1 pool.alloc (new_entry key key_hash))
                    ∙ new_entry-name key key_hash short,
                again,
              ),
            )
        | inr (inr full) ↦ inr full
      ]
