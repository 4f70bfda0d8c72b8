-- ===== src/IdMap/Used.antt =====
-- `m_lookup_used` of infra/container/id_map.hpp, which removals lower and nothing raises.
use toy_language.Base.{
  ◌==◌, not, if◌then◌else◌, ℕ, zero, suc, ◌*◌, ◌%◌, ◌^◌, ◌≤◌, ◌≡◌, refl, ◌⊎◌, inl, inr, Bool, true,
  false, List, [], ◌∷◌, map, arith,
}
use mathlib.Core.Path.{subst}
use toy_language.IdMap.{
  LookupEntry, Outcome, returned, panicked, unfinished, needs_allocation, allocated, Walk, filled,
  present, overflow, endless, Alloc, IdMap, init, rehash, with_lookups, return_id, walk_from,
  id_from_within, id_from, needs_rehash, remove_from_lookups,
}

module _ {K S : Type 0} (ops : Alloc K S) (mem_commit : ℕ → ℕ → Bool) where
  -- A map that is returned has this count of used slots.
  abbrev Uses : ℕ → Outcome (IdMap S) → Type 0
  Uses n (returned map) = map.lookup_used ≡ n
  Uses n panicked = Unit {0}
  Uses n unfinished = Unit {0}

  abbrev UsesWith : ℕ → Outcome (ℕ × IdMap S) → Type 0
  UsesWith n (returned (id, map)) = map.lookup_used ≡ n
  UsesWith n panicked = Unit {0}
  UsesWith n unfinished = Unit {0}

  Uses-if :
      (n : ℕ) (b : Bool) (x y : Outcome (IdMap S))
      → Uses n x
      → Uses n y
      → Uses n (if b then x else y)
  Uses-if n true x y h k = h
  Uses-if n false x y h k = k

  Uses-with_lookups :
      (map : IdMap S) (result : Outcome (List LookupEntry))
      → Uses map.lookup_used (with_lookups ops mem_commit map result)
  Uses-with_lookups map (returned lookups) = refl
  Uses-with_lookups map panicked = tt
  Uses-with_lookups map unfinished = tt

  rehash-Uses : (map : IdMap S) → Uses map.lookup_used (rehash ops mem_commit map)
  unfolding rehash
  rehash-Uses map =
      Uses-if map.lookup_used (map.lookup_commit == map.lookup_capacity) panicked _ tt (
        Uses-if map.lookup_used
          (not (mem_commit (map.lookup_commit * 8 % 2 ^ 32) (map.lookup_commit * 8 % 2 ^ 32)))
          panicked _ tt (Uses-with_lookups map _))

  rehash-Uses_of :
      (n : ℕ) (map : IdMap S) → map.lookup_used ≡ n → Uses n (rehash ops mem_commit map)
  rehash-Uses_of n map h = subst (λ m. Uses m (rehash ops mem_commit map)) h (rehash-Uses map)

  UsesWith-return_id :
      (n id : ℕ) (x : Outcome (IdMap S)) → Uses n x → UsesWith n (return_id ops mem_commit id x)
  UsesWith-return_id n id (returned map) h = h
  UsesWith-return_id n id panicked h = tt
  UsesWith-return_id n id unfinished h = tt

  outcome-cases :
      (x : Outcome (IdMap S))
      → (x ≡ panicked) ⊎ (x ≡ unfinished) ⊎ ((map : IdMap S) × (x ≡ returned map))
  outcome-cases (returned map) = inr (inr (map, refl))
  outcome-cases panicked = inl refl
  outcome-cases unfinished = inr (inl refl)

  -- A walk ends with an id, or with an entry that does not fit, or not at all.
  walk-cases :
      (w : Walk S)
      → ((id : ℕ) × (s : S) × (lookups : List LookupEntry) × ((w ≡ filled id s lookups)
            ⊎ (w ≡ present id s lookups)
            ⊎ (w ≡ overflow (allocated id) s lookups)))
        ⊎ ((s : S) × (lookups : List LookupEntry) × (w ≡ overflow needs_allocation s lookups))
        ⊎ (w ≡ endless)
  walk-cases (filled id s lookups) = inl (id, s, lookups, inl refl)
  walk-cases (present id s lookups) = inl (id, s, lookups, inr (inl refl))
  walk-cases (overflow needs_allocation s lookups) = inr (inl (s, lookups, refl))
  walk-cases (overflow (allocated id) s lookups) = inl (id, s, lookups, inr (inr refl))
  walk-cases endless = inr (inr refl)

  id_from_within-UsesWith :
      (rounds n : ℕ) (start : Outcome (IdMap S)) (key : K) (key_hash : ℕ)
      → Uses n start
      → UsesWith n (id_from_within ops mem_commit rounds start key key_hash)
  unfolding id_from_within
  id_from_within-UsesWith zero n start key key_hash h = tt
  id_from_within-UsesWith (suc rounds) n panicked key key_hash h = tt
  id_from_within-UsesWith (suc rounds) n unfinished key key_hash h = tt
  id_from_within-UsesWith (suc rounds) n (returned map) key key_hash h =
      let x =
        (if needs_rehash ops mem_commit map then rehash ops mem_commit map else returned map) in
      let uses : Uses n x =
        Uses-if n (needs_rehash ops mem_commit map) (rehash ops mem_commit map) (returned map)
          (rehash-Uses_of n map h) h in
      elim (outcome-cases x) [
        | inl e ↦ rw (id_from_within, e) tt
        | inr (inl e) ↦ rw (id_from_within, e) tt
        | inr (inr (ready, e)) ↦
            let kept : ready.lookup_used ≡ n = rw e at uses in
            let again : (s : S) (lookups : List LookupEntry)
                → Uses n (rehash ops mem_commit (record ready { lookups = lookups; alloc = s })) =
              (λ s lookups.
                rehash-Uses_of n (record ready { lookups = lookups; alloc = s }) kept) in
            elim (walk-cases (walk_from ops mem_commit ready key key_hash)) [
              | inl (id, s, lookups, inl w) ↦ rw (id_from_within, e, w) kept
              | inl (id, s, lookups, inr (inl w)) ↦ rw (id_from_within, e, w) kept
              | inl (id, s, lookups, inr (inr w)) ↦
                  rw (id_from_within, e, w) (UsesWith-return_id n id _ (again s lookups))
              | inr (inl (s, lookups, w)) ↦
                  rw (id_from_within, e, w)
                    (id_from_within-UsesWith rounds n _ key key_hash (again s lookups))
              | inr (inr w) ↦ rw (id_from_within, e, w) tt
            ]
      ]

  -- The map after calls of `id_from`, each of a key and its hash.
  abbrev pub insert_all : List (K × ℕ) → IdMap S → Outcome (IdMap S)
  insert_all [] map = returned map
  insert_all ((key, key_hash) ∷ calls) map = elim (id_from ops mem_commit map key key_hash) [
    | returned (id, later) ↦ insert_all calls later
    | panicked ↦ panicked
    | unfinished ↦ unfinished
  ]

  result-cases :
      (x : Outcome (ℕ × IdMap S))
      → (x ≡ panicked) ⊎ (x ≡ unfinished) ⊎ ((id : ℕ) × (map : IdMap S) × (x ≡ returned (id, map)))
  result-cases (returned (id, map)) = inr (inr (id, map, refl))
  result-cases panicked = inl refl
  result-cases unfinished = inr (inl refl)

  id_from-UsesWith :
      (n : ℕ) (map : IdMap S) (key : K) (key_hash : ℕ)
      → map.lookup_used ≡ n
      → UsesWith n (id_from ops mem_commit map key key_hash)
  unfolding id_from
  id_from-UsesWith n map key key_hash h = id_from_within-UsesWith 33 n (returned map) key key_hash h

  insert_all-Uses :
      (calls : List (K × ℕ)) (n : ℕ) (map : IdMap S)
      → map.lookup_used ≡ n
      → Uses n (insert_all calls map)
  insert_all-Uses [] n map h = h
  insert_all-Uses ((key, key_hash) ∷ calls) n map h =
      let kept = id_from-UsesWith n map key key_hash h in
      elim (result-cases (id_from ops mem_commit map key key_hash)) [
        | inl e ↦ rw (insert_all, e) tt
        | inr (inl e) ↦ rw (insert_all, e) tt
        | inr (inr (id, later, e)) ↦
            rw (insert_all, e) (insert_all-Uses calls n later (rw e at kept))
      ]

  init-Uses :
      (memory_bytes commit : ℕ) (alloc : S) → Uses 0 (init ops mem_commit memory_bytes commit alloc)
  unfolding init
  init-Uses memory_bytes commit alloc =
      Uses-if 0 (not (mem_commit 0 (commit * 8))) panicked _ tt refl

  -- After `init` and any calls of `id_from` that all return, a removal from the table makes a rehash
  -- due, whatever its size, up to 2 ^ 30 slots, and however few of them are taken: `id_from` does not
  -- count the slots that it takes.
  pub remove_from_lookups-overdue :
      (memory_bytes commit i : ℕ) (alloc : S) (calls : List (K × ℕ)) (start map : IdMap S)
      → init ops mem_commit memory_bytes commit alloc ≡ returned start
      → insert_all calls start ≡ returned map
      → map.lookup_commit ≤ 2 ^ 30
      → needs_rehash ops mem_commit (remove_from_lookups ops mem_commit map i) ≡ true
  unfolding needs_rehash remove_from_lookups
  remove_from_lookups-overdue memory_bytes commit i alloc calls start map begun filled_up small =
      let none_used : start.lookup_used ≡ 0 = rw begun at (init-Uses memory_bytes commit alloc) in
      let unused : map.lookup_used ≡ 0 =
        rw filled_up at (insert_all-Uses calls 0 start none_used) in
      rw unused (ground arith)
