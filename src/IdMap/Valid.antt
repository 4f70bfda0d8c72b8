-- ===== src/IdMap/Valid.antt =====
-- What an allocator promises to `IdMap` of infra/container/id_map.hpp, and what a map is between
-- its operations.
use toy_language.Base.{replicate, ℕ, ◌*◌, ◌/◌, ◌%◌, ◌^◌, ◌≡◌, refl, Bool, true, List, [], ◌∷◌}
use mathlib.Core.List.{Perm, Mem}
use mathlib.Core.List.Perm
use toy_language.IdMap.{init, empty_lookup}
use toy_language.IdMap.{LookupEntry, returned, lookup_at, Alloc, IdMap}
use toy_language.IdMap.Slots.{Fits}
use toy_language.IdMap.Contents.{ids, ids-replicate, slot-Mem}
use toy_language.IdMap.Rehash.{Fits-blank}
use toy_language.IdMap.Lookup.{EqualHash}

module _ {K S : Type 0} (ops : Alloc K S) (mem_commit : ℕ → ℕ → Bool) where
  -- What the table relies on for a key: a new value is equal to it, is added to the others, and changes
  -- neither their hashes nor whether they are equal to it.
  pub record IsAlloc (key : K) : Type 0 where
    pub equal_hash : (s : S) → EqualHash ops mem_commit s
    pub created_equal :
        (s : S) (key_hash : ℕ)
        → ops.is_equal_to_key
            (ops.create_value s key key_hash).1
            (ops.create_value s key key_hash).0
            key
            key_hash
          ≡ true
    pub created_values :
        (s : S) (key_hash : ℕ)
        → Perm
            (ops.values (ops.create_value s key key_hash).1)
            ((ops.create_value s key key_hash).0 ∷ ops.values s)
    pub kept_hash :
        (s : S) (key_hash id : ℕ)
        → Mem id (ops.values s)
        → ops.hash (ops.create_value s key key_hash).1 id ≡ ops.hash s id
    pub kept_equal :
        (s : S) (key_hash id : ℕ)
        → Mem id (ops.values s)
        → ops.is_equal_to_key (ops.create_value s key key_hash).1 id key key_hash
          ≡ ops.is_equal_to_key s id key key_hash

  -- Every value has one entry, in its place, and the size is a power of two.
  pub record IsValid (map : IdMap S) : Type 0 where
    pub exponent : ℕ
    pub power : map.lookup_commit ≡ 2 ^ exponent
    pub fits : Fits map.lookup_commit (ops.hash map.alloc) map.lookups
    pub contents : Perm (ids map.lookups) (ops.values map.alloc)

  -- Places depend on the hashes of the values in the table only.
  pub Fits-cong :
      {commit : ℕ} {hash other : ℕ → ℕ} (lookups : List LookupEntry)
      → ((id : ℕ) → Mem id (ids lookups) → other id ≡ hash id)
      → Fits commit hash lookups
      → Fits commit other lookups
  Fits-cong {commit} {hash} {other} lookups same fits = record {
    size = fits.size;
    at = λ j h taken.
        let at = fits.at j h taken in
        let id = (lookup_at lookups j).data_id in
        let e : other id ≡ hash id = same id (slot-Mem lookups j (rw fits.size h) taken) in
        record {
          print = rw e at.print;
          reach = at.reach;
          short = at.short;
          place = rw e at.place;
          run = rw e at.run;
        };
  }

  -- A map that `init` returns, for an allocator without values.
  pub init-IsValid :
      (memory_bytes k : ℕ) (alloc : S)
      → ops.values alloc ≡ []
      → mem_commit 0 (2 ^ k * 8) ≡ true
      → (map : IdMap S) × (init ops mem_commit memory_bytes (2 ^ k) alloc ≡ returned map)
        × IsValid map
  unfolding init
  init-IsValid memory_bytes k alloc fresh ok =
      let map : IdMap S = record {
        lookups = replicate (2 ^ k) empty_lookup;
        lookup_used = 0;
        lookup_commit = 2 ^ k;
        lookup_capacity = memory_bytes / 8 % 2 ^ 32;
        alloc = alloc;
      } in
      (
        map,
        rw ok refl,
        record {
          exponent = k;
          power = refl;
          fits = Fits-blank ops mem_commit (2 ^ k) (ops.hash alloc);
          contents = rw (ids-replicate (2 ^ k), fresh) (Perm.refl []);
        },
      )
