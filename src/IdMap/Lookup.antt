-- ===== src/IdMap/Lookup.antt =====
-- `find_by_key` of infra/container/id_map.hpp.
use toy_language.Base.{
  ltb, ==_ne, ltb→lt, ltb→le, ==_iff, Bool-cases, ℕ, zero, suc, ◌+◌, ◌^◌, ◌≤◌, ◌<◌, ◌≡◌, refl, sym,
  ap, ◌∙◌, ◌⊎◌, inl, inr, Bool, true, false, Option, none, some, List, map, arith,
}
use mathlib.Core.Bool.{true≢false}
use toy_language.Base.Ring.{walked}
use native.Mathlib.Decide.{ℕ_discrete}
use toy_language.IdMap.{
  LookupEntry, max_psl, is_empty_lookup, create_lookup, lookup_at, next_slot, further, first_slot,
  Alloc, IdMap, is_equal_lookup, find_loop, find_by_key,
}
use toy_language.IdMap.Slots.{Fits, next_slot-lt, next_slot-walked}
use toy_language.IdMap.Rehash.{first_slot-lt}
use toy_language.IdMap.Equal.{is_equal_lookup_cases, is_equal_lookup-true}

module _ {K S : Type 0} (ops : Alloc K S) (mem_commit : ℕ → ℕ → Bool) where
  -- What is equal to a key has its hash.
  abbrev pub EqualHash : S → Type 0
  EqualHash s =
      (id : ℕ) (key : K) (key_hash : ℕ)
      → ops.is_equal_to_key s id key key_hash ≡ true
      → ops.hash s id ≡ key_hash

  -- A slot whose value is equal to the key, or none has one.
  abbrev pub Finds : S → ℕ → List LookupEntry → K → ℕ → Option ℕ → Type 0
  Finds s commit lookups key key_hash result =
      ((i : ℕ) × (result ≡ some i)
        × (i < commit)
        × (is_empty_lookup (lookup_at lookups i) ≡ false)
        × (ops.is_equal_to_key s (lookup_at lookups i).data_id key key_hash ≡ true))
      ⊎ ((result ≡ none)
          × ((j : ℕ)
              → j < commit
              → is_empty_lookup (lookup_at lookups j) ≡ false
              → ops.is_equal_to_key s (lookup_at lookups j).data_id key key_hash ≡ false))

  module _ (s : S) (commit : ℕ) (lookups : List LookupEntry) (key : K) (key_hash : ℕ) where
    -- No slot has a value equal to the key that is `t` slots or more from that of its hash.
    abbrev Absent : ℕ → Type 0
    Absent t =
        (j : ℕ)
        → j < commit
        → is_empty_lookup (lookup_at lookups j) ≡ false
        → ops.is_equal_to_key s (lookup_at lookups j).data_id key key_hash ≡ true
        → t ≤ (lookup_at lookups j).psl
        → ⊥

    equal_place :
        EqualHash s
        → Fits commit (ops.hash s) lookups
        → (j : ℕ) → j < commit
        → is_empty_lookup (lookup_at lookups j) ≡ false
        → ops.is_equal_to_key s (lookup_at lookups j).data_id key key_hash ≡ true
        → j ≡ walked commit (first_slot commit key_hash) (lookup_at lookups j).psl
    equal_place law fits j h taken equal =
        let hashed = law (lookup_at lookups j).data_id key key_hash equal in
        rw hashed at (fits.at j h taken).place

    equal_print :
        EqualHash s
        → Fits commit (ops.hash s) lookups
        → (j : ℕ) → j < commit
        → is_empty_lookup (lookup_at lookups j) ≡ false
        → ops.is_equal_to_key s (lookup_at lookups j).data_id key key_hash ≡ true
        → (lookup_at lookups j).hash_fingerprint ≡ (create_lookup key_hash).hash_fingerprint
    equal_print law fits j h taken equal =
        let hashed = law (lookup_at lookups j).data_id key key_hash equal in
        rw hashed at (fits.at j h taken).print

    -- The state of the loop after `t` rounds.
    abbrev At : ℕ → LookupEntry → ℕ → Type 0
    At i to_find t =
        (to_find.psl ≡ t)
        × (to_find.hash_fingerprint ≡ (create_lookup key_hash).hash_fingerprint)
        × (i < commit)
        × (i ≡ walked commit (first_slot commit key_hash) t)

    -- An entry that is equal but is not found here is farther from the slot of its hash.
    equal_later :
        EqualHash s
        → Fits commit (ops.hash s) lookups
        → (i t : ℕ) (to_find : LookupEntry) → At i to_find t
        → is_equal_lookup ops mem_commit s (lookup_at lookups i) to_find key key_hash ≡ false
        → Absent (t + 1)
        → Absent t
    equal_later law fits i t to_find (near, print, below, place) other rest j h taken equal far =
        elim (ℕ_discrete (lookup_at lookups j).psl t) [
          | no more ↦ rest j h taken equal (omega arith)
          | yes same ↦
              let here : j ≡ i = equal_place law fits j h taken equal ∙ rw same (sym place) in
              let fp = equal_print law fits j h taken equal ∙ sym print in
              true≢false (
                sym (
                  is_equal_lookup-true ops mem_commit s (lookup_at lookups j) to_find key key_hash
                    fp (same ∙ sym near) equal)
                ∙ rw (sym here) at other)
        ]

    -- Where the walk meets an empty slot, or an entry nearer to its own, there is no equal one ahead.
    Absent-past :
        EqualHash s
        → Fits commit (ops.hash s) lookups
        → (i t : ℕ) (to_find : LookupEntry) → At i to_find t
        → (is_empty_lookup (lookup_at lookups i) ≡ true) ⊎ ((lookup_at lookups i).psl < t)
        → Absent t
    Absent-past law fits i t to_find (near, print, below, place) stop j h taken equal far =
        let hashed = law (lookup_at lookups j).data_id key key_hash equal in
        let at = fits.at j h taken in
        let full : (is_empty_lookup (lookup_at lookups i) ≡ false)
            × (t ≤ (lookup_at lookups i).psl) =
          elim (ℕ_discrete (lookup_at lookups j).psl t) [
            | yes same ↦
                let here : j ≡ i = equal_place law fits j h taken equal ∙ rw same (sym place) in
                let found : (is_empty_lookup (lookup_at lookups j) ≡ false)
                    × (t ≤ (lookup_at lookups j).psl) =
                  (taken, far) in
                rw here at found
            | no more ↦ rw (sym place) at (rw hashed at at.run t (omega arith))
          ] in
        elim stop [
          | inl empty ↦ true≢false (sym empty ∙ full.0)
          | inr nearer ↦ let least = full.1 in absurd (omega arith)
        ]

    -- The loop finds an equal entry, or there is none from here on.
    abbrev FindsFrom : ℕ → Option ℕ → Type 0
    FindsFrom t result =
        ((i : ℕ) × (result ≡ some i)
          × (i < commit)
          × (is_empty_lookup (lookup_at lookups i) ≡ false)
          × (ops.is_equal_to_key s (lookup_at lookups i).data_id key key_hash ≡ true))
        ⊎ ((result ≡ none) × Absent t)

    FindsFrom-later :
        (t : ℕ) (result : Option ℕ)
        → (Absent (t + 1) → Absent t)
        → FindsFrom (t + 1) result
        → FindsFrom t result
    FindsFrom-later t result back (inl found) = inl found
    FindsFrom-later t result back (inr (e, rest)) = inr (e, back rest)

    find_loop-FindsFrom :
        EqualHash s
        → first_slot commit key_hash < commit
        → Fits commit (ops.hash s) lookups
        → (rounds i t : ℕ) (to_find : LookupEntry) → At i to_find t
        → rounds + t ≡ max_psl + 1
        → t ≤ max_psl
        → FindsFrom t (find_loop ops mem_commit key key_hash rounds commit s lookups i to_find)
    unfolding find_loop
    find_loop-FindsFrom law started fits zero i t to_find at count low = absurd (omega arith)
    find_loop-FindsFrom law started fits (suc rounds) i t to_find at count low =
        let existing = lookup_at lookups i in
        let (near, print, below, place) = at in
        elim (Bool-cases (is_empty_lookup existing)) [
          | inl empty ↦ inr (rw empty refl, Absent-past law fits i t to_find at (inl empty))
          | inr taken ↦ elim (Bool-cases (ltb existing.psl to_find.psl)) [
            | inl nearer ↦
                let before = ltb→lt existing.psl to_find.psl nearer in
                inr (
                  rw (taken, nearer) refl,
                  Absent-past law fits i t to_find at (inr (rw near at before)),
                )
            | inr far ↦
                elim (is_equal_lookup_cases ops mem_commit s existing to_find key key_hash) [
                  | inr (equal, same) ↦ inl (i, rw (taken, far, equal) refl, below, taken, same)
                  | inl other ↦
                      let short = (fits.at i below taken).short in
                      let farther = ltb→le existing.psl to_find.psl far in
                      elim (ℕ_discrete to_find.psl max_psl) [
                        | yes last ↦ inr (
                          rw (taken, far, other, (==_iff to_find.psl max_psl).1 last) refl,
                          equal_later law fits i t to_find at other (λ j h full equal beyond.
                              let reach = (fits.at j h full).reach in
                              absurd (omega (arith, reach, beyond, last, near))),
                        )
                        | no more ↦
                            rw (taken, far, other, ==_ne to_find.psl max_psl more)
                              (FindsFrom-later t
                                (find_loop ops mem_commit key key_hash rounds commit s lookups
                                  (next_slot commit i) (further to_find))
                                (equal_later law fits i t to_find at other)
                                (find_loop-FindsFrom law started fits rounds (next_slot commit i)
                                  (t + 1) (further to_find)
                                  (
                                    ap (λ n. n + 1) near,
                                    print,
                                    next_slot-lt commit i below,
                                    rw place (
                                        next_slot-walked commit (first_slot commit key_hash) t
                                          started (omega (arith, near, farther, short))),
                                  )
                                  (omega arith) (omega (arith, near, more, low))))
                      ]
                ]
          ]
        ]

  -- `find_by_key` finds a value that is equal to the key, or there is none in the table, where every
  -- entry stands in its place, the size is a power of two, and equal values have equal hashes.
  pub find_by_key-Finds :
      (map : IdMap S) (k : ℕ) (key : K) (key_hash : ℕ)
      → EqualHash map.alloc
      → map.lookup_commit ≡ 2 ^ k
      → Fits map.lookup_commit (ops.hash map.alloc) map.lookups
      → Finds map.alloc map.lookup_commit map.lookups key key_hash
          (find_by_key ops mem_commit map key key_hash)
  unfolding find_by_key create_lookup
  find_by_key-Finds map k key key_hash law power fits =
      let commit = map.lookup_commit in
      let first = first_slot commit key_hash in
      let below : first < commit = rw power (first_slot-lt k key_hash) in
      elim (find_loop-FindsFrom map.alloc commit map.lookups key key_hash law below fits 65 first 0
        (create_lookup key_hash) (refl, refl, below, ground arith) refl (omega arith)) [
          | inl found ↦ inl found
          | inr (e, absent) ↦ inr (
            e,
            λ j h taken.
                elim (Bool-cases
                  (ops.is_equal_to_key map.alloc (lookup_at map.lookups j).data_id key key_hash)) [
                    | inr other ↦ other
                    | inl equal ↦ absurd (absent j h taken equal (omega arith))
                  ],
          )
        ]
