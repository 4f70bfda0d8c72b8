-- ===== src/IdMap/Identity.antt =====
-- `id_from` and `try_id_from` of infra/container/id_map.hpp, for an allocator that keeps the values
-- that it has.
use toy_language.Base.{
  length, ℕ, ◌<◌, ◌≡◌, refl, sym, ap, ◌∙◌, ◌⊎◌, inl, inr, Bool, true, false, none, some, List, ◌∷◌,
  arith,
}
use mathlib.Core.Bool.{true≢false}
use mathlib.Core.List.{Perm, Mem}
use mathlib.Core.List.Perm
use mathlib.Core.List.{eq-or-mem_of_mem-cons}
use mathlib.Core.Logic.Or
use native.Mathlib.Nat.{ℕ_set}
use toy_language.IdMap.{find_by_key, try_id_from}
use toy_language.IdMap.{
  LookupEntry, Outcome, returned, is_empty_lookup, create_lookup, lookup_at, first_slot, Alloc,
  IdMap, Walk, filled, present, walk_fuel, walk_from, id_from, id_from_within, needs_rehash,
  reinsert_value_into_lookup,
}
use toy_language.IdMap.Slots.{Fits}
use mathlib.Core.List.{mem-cons_self}
use toy_language.IdMap.Contents.{ids, empty_slot, slot-Mem, Mem-slots, length-Perm}
use toy_language.IdMap.Placement.{Overfull, Places}
use toy_language.IdMap.Rehash.{first_slot-lt, gap-lt_fuel, reinserted-Places}
use toy_language.IdMap.Lookup.{find_by_key-Finds}
use toy_language.IdMap.Presence.{find_loop-present}
use toy_language.IdMap.Insertion.{Matches, needs-Matches}
use toy_language.IdMap.Valid.{IsAlloc, IsValid, Fits-cong}

module _ {K S : Type 0} (ops : Alloc K S) (mem_commit : ℕ → ℕ → Bool) where
  -- The walk of a new key fills a slot, or 65 slots in a row are taken.
  abbrev Adds : ℕ → S → ℕ → List LookupEntry → Walk S → Type 0
  Adds id after commit lookups walk =
      ((new : List LookupEntry) × (walk ≡ filled id after new)
        × Fits commit (ops.hash after) new
        × Perm (ids new) (id ∷ ids lookups))
      ⊎ Overfull commit lookups

  Adds-both :
      (id : ℕ) (after : S) (commit : ℕ) (lookups : List LookupEntry) (walk : Walk S)
      (reinserted : Outcome (List LookupEntry))
      → Matches ops mem_commit id after walk reinserted
      → Places commit (ops.hash after) lookups id reinserted
      → Adds id after commit lookups walk
  Adds-both id after commit lookups walk reinserted (inl (new, w, r)) (inl (other, e, fits, same)) =
      let equal : other ≡ new = cc in inl (new, w, rw equal at fits, rw equal at same)
  Adds-both id after commit lookups walk reinserted (inr (phase, s, more, w, r))
        (inl (other, e, fits, same)) =
      cc
  Adds-both id after commit lookups walk reinserted matches (inr (e, full)) = inr full

  module _ (key : K) (law : IsAlloc ops mem_commit key) (map : IdMap S)
      (valid : IsValid ops mem_commit map) (key_hash : ℕ) where
    abbrev Absent : S → Type 0
    Absent s =
        (j : ℕ)
        → j < map.lookup_commit
        → is_empty_lookup (lookup_at map.lookups j) ≡ false
        → ops.is_equal_to_key s (lookup_at map.lookups j).data_id key key_hash ≡ false

    is_value : (id : ℕ) → Mem id (ids map.lookups) → Mem id (ops.values map.alloc)
    is_value id m = Perm.subset valid.contents id m

    after-Fits :
        Fits map.lookup_commit (ops.hash (ops.create_value map.alloc key key_hash).1) map.lookups
    after-Fits =
        Fits-cong ops mem_commit map.lookups
          (λ id m. law.kept_hash map.alloc key_hash id (is_value id m)) valid.fits

    after-Absent : Absent map.alloc → Absent (ops.create_value map.alloc key key_hash).1
    after-Absent absent j h taken =
        let id = (lookup_at map.lookups j).data_id in
        law.kept_equal map.alloc key_hash id
          (is_value id (slot-Mem map.lookups j (rw valid.fits.size h) taken))
        ∙ absent j h taken

    new_hash :
        ops.hash
          (ops.create_value map.alloc key key_hash).1
          (ops.create_value map.alloc key key_hash).0
        ≡ key_hash
    new_hash =
        let (id, after) = ops.create_value map.alloc key key_hash in
        law.equal_hash after id key key_hash (law.created_equal map.alloc key_hash)

    walk_from-Adds :
        length (ops.values map.alloc) < map.lookup_commit
        → Absent map.alloc
        → Adds
            (ops.create_value map.alloc key key_hash).0
            (ops.create_value map.alloc key key_hash).1
            map.lookup_commit
            map.lookups
            (walk_from ops mem_commit map key key_hash)
    unfolding reinsert_value_into_lookup
    walk_from-Adds few absent =
        let (id, after) = ops.create_value map.alloc key key_hash in
        let commit = map.lookup_commit in
        let count = length-Perm valid.contents in
        let (e, inside, empty) = empty_slot map.lookups (rw (count, valid.fits.size) few) in
        let below : e < commit = rw (sym valid.fits.size) inside in
        let first = first_slot commit key_hash in
        let start : first < commit = rw valid.power (first_slot-lt valid.exponent key_hash) in
        let places : Places commit (ops.hash after) map.lookups id
            (reinsert_value_into_lookup commit map.lookups id key_hash) =
          reinserted-Places commit valid.exponent (ops.hash after) map.lookups id key_hash
            valid.power new_hash after-Fits (rw count few) in
        Adds-both id after commit map.lookups (walk_from ops mem_commit map key key_hash)
          (reinsert_value_into_lookup commit map.lookups id key_hash)
          (needs-Matches ops mem_commit key key_hash commit map.alloc (walk_fuel commit) map.lookups
            first e (create_lookup key_hash) start below empty
            (gap-lt_fuel commit first e start below) (λ j h near taken. absent j h taken)
            (λ j h near taken. after-Absent absent j h taken))
          places

    id_from-filled :
        (id : ℕ) (after : S) (new : List LookupEntry)
        → needs_rehash ops mem_commit map ≡ false
        → walk_from ops mem_commit map key key_hash ≡ filled id after new
        → id_from ops mem_commit map key key_hash
          ≡ returned (id, record map { lookups = new; alloc = after })
    unfolding id_from id_from_within
    id_from-filled id after new ready walked = rw (id_from, id_from_within, ready, walked) refl

    id_from-present :
        (id : ℕ)
        → needs_rehash ops mem_commit map ≡ false
        → walk_from ops mem_commit map key key_hash ≡ present id map.alloc map.lookups
        → id_from ops mem_commit map key key_hash ≡ returned (id, map)
    unfolding id_from id_from_within
    id_from-present id ready walked = rw (id_from, id_from_within, ready, walked) refl

    -- What the new map finds for the key is its new id.
    new_id :
        (new : List LookupEntry)
        → Absent map.alloc
        → Perm (ids new) ((ops.create_value map.alloc key key_hash).0 ∷ ids map.lookups)
        → (id : ℕ) → Mem id (ids new)
        → ops.is_equal_to_key (ops.create_value map.alloc key key_hash).1 id key key_hash ≡ true
        → id ≡ (ops.create_value map.alloc key key_hash).0
    new_id new absent same id inside equal =
        Or.elim (ℕ_set id (ops.create_value map.alloc key key_hash).0)
          (eq-or-mem_of_mem-cons (Perm.subset same id inside)) (λ here. here)
          (λ old. absurd (
            true≢false (
              sym equal
              ∙ Mem-slots
                  (λ x.
                    ops.is_equal_to_key (ops.create_value map.alloc key key_hash).1 x key key_hash)
                  map.lookups
                  (λ j h taken. after-Absent absent j (rw (sym valid.fits.size) h) taken) id old)))

    -- The id of a key that is in the table, or of a value that is new, for which the table is valid
    -- and finds it; or 65 slots in a row are taken.
    abbrev pub Identifies : Outcome (ℕ × IdMap S) → Type 0
    Identifies result =
        ((i : ℕ) × (find_by_key ops mem_commit map key key_hash ≡ some i)
          × (result ≡ returned ((lookup_at map.lookups i).data_id, map)))
        ⊎ ((find_by_key ops mem_commit map key key_hash ≡ none)
            × ((new : IdMap S) × (result
                  ≡ returned ((ops.create_value map.alloc key key_hash).0, new))
                × (new.alloc ≡ (ops.create_value map.alloc key key_hash).1)
                × IsValid ops mem_commit new
                × (try_id_from ops mem_commit new key key_hash
                    ≡ some (ops.create_value map.alloc key key_hash).0)))
        ⊎ Overfull map.lookup_commit map.lookups

    IsValid-new :
        (new : List LookupEntry)
        → Fits map.lookup_commit (ops.hash (ops.create_value map.alloc key key_hash).1) new
        → Perm (ids new) ((ops.create_value map.alloc key key_hash).0 ∷ ids map.lookups)
        → IsValid ops mem_commit
            (record map { lookups = new; alloc = (ops.create_value map.alloc key key_hash).1 })
    IsValid-new new fits same = record {
      exponent = valid.exponent;
      power = valid.power;
      fits = fits;
      contents = Perm.trans same (
          Perm.trans (Perm.cons (ops.create_value map.alloc key key_hash).0 valid.contents)
            (Perm.symm (law.created_values map.alloc key_hash)));
    }

    try_id_from-new :
        (new : List LookupEntry)
        → Absent map.alloc
        → Fits map.lookup_commit (ops.hash (ops.create_value map.alloc key key_hash).1) new
        → Perm (ids new) ((ops.create_value map.alloc key key_hash).0 ∷ ids map.lookups)
        → try_id_from ops mem_commit
            (record map { lookups = new; alloc = (ops.create_value map.alloc key key_hash).1 })
            key
            key_hash
          ≡ some (ops.create_value map.alloc key key_hash).0
    unfolding try_id_from
    try_id_from-new new absent fits same =
        let (id, after) = ops.create_value map.alloc key key_hash in
        let next : IdMap S = record map { lookups = new; alloc = after } in
        elim (find_by_key-Finds ops mem_commit next valid.exponent key key_hash
          (law.equal_hash after) valid.power fits) [
            | inl (i, e, below, taken, equal) ↦
                rw (try_id_from, e)
                  (ap some (
                    new_id new absent same (lookup_at new i).data_id
                      (slot-Mem new i (rw fits.size below) taken) equal))
            | inr (e, missing) ↦ absurd (
                true≢false (
                  sym (law.created_equal map.alloc key_hash)
                  ∙ Mem-slots (λ x. ops.is_equal_to_key after x key key_hash) new
                      (λ j h taken. missing j (rw (sym fits.size) h) taken) id
                      ((Perm.mem_iff same).1 mem-cons_self)))
          ]

    -- `id_from` on a table where every value has one entry in its place, that is not full and for which
    -- no rehash is due: it returns the id of the key's value and leaves the map as it is; or, when the
    -- table has no such value, it creates one, and the new map is valid again and finds the new id for
    -- the key; unless 65 slots in a row are taken.
    pub id_from-Identifies :
        needs_rehash ops mem_commit map ≡ false
        → length (ops.values map.alloc) < map.lookup_commit
        → Identifies (id_from ops mem_commit map key key_hash)
    unfolding find_by_key
    id_from-Identifies ready few =
        let (id, after) = ops.create_value map.alloc key key_hash in
        let commit = map.lookup_commit in
        elim (find_by_key-Finds ops mem_commit map valid.exponent key key_hash
          (law.equal_hash map.alloc) valid.power valid.fits) [
            | inl (i, e, below, taken, equal) ↦
                let first = first_slot commit key_hash in
                let walked =
                  find_loop-present ops mem_commit key key_hash commit map.alloc map.lookups 65
                    (walk_fuel commit) first i (create_lookup key_hash) (omega arith) e in
                inl (i, e, id_from-present (lookup_at map.lookups i).data_id ready walked)
            | inr (e, absent) ↦ elim (walk_from-Adds few absent) [
              | inr full ↦ inr (inr full)
              | inl (new, walked, fits, same) ↦
                  let next : IdMap S = record map { lookups = new; alloc = after } in
                  inr (
                    inl (
                      e,
                      (
                        next,
                        id_from-filled id after new ready walked,
                        refl,
                        IsValid-new new fits same,
                        try_id_from-new new absent fits same,
                      ),
                    ))
            ]
          ]
