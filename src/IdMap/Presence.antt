-- ===== src/IdMap/Presence.antt =====
-- `find_by_key` and the loop of `id_from`, of infra/container/id_map.hpp.
use toy_language.Base.{
  ltb, ==_ne, ==_iff, Bool-cases, ℕ, zero, suc, ◌≤◌, ◌≡◌, ap, inl, inr, Bool, some, List, arith,
}
use native.Mathlib.Decide.{ℕ_discrete}
use toy_language.IdMap.{
  LookupEntry, max_psl, is_empty_lookup, lookup_at, next_slot, further, Alloc, is_equal_lookup,
  needs_allocation, Walk, present, insert_loop, find_loop,
}

module _ {K S : Type 0} (ops : Alloc K S) (mem_commit : ℕ → ℕ → Bool) where
  module _ (key : K) (key_hash commit : ℕ) where
    -- What `find_by_key` finds, the walk of `id_from` meets.
    pub find_loop-present :
        (s : S) (lookups : List LookupEntry) (rounds fuel i j : ℕ) (wanted : LookupEntry)
        → rounds ≤ fuel
        → find_loop ops mem_commit key key_hash rounds commit s lookups i wanted ≡ some j
        → insert_loop ops mem_commit key key_hash fuel commit s lookups i wanted needs_allocation
          ≡ present (lookup_at lookups j).data_id s lookups
    unfolding find_loop insert_loop
    find_loop-present s lookups zero fuel i j wanted h found = cc
    find_loop-present s lookups (suc rounds) zero i j wanted h found = absurd (omega arith)
    find_loop-present s lookups (suc rounds) (suc fuel) i j wanted h found =
        let existing = lookup_at lookups i in
        elim (Bool-cases (is_empty_lookup existing)) [
          | inl vacant ↦ cc (rw vacant at found)
          | inr taken ↦ elim (Bool-cases (ltb existing.psl wanted.psl)) [
            | inl nearer ↦ cc (rw (taken, nearer) at found)
            | inr far ↦
                elim (Bool-cases (is_equal_lookup ops mem_commit s existing wanted key key_hash)) [
                  | inl equal ↦
                      let here = rw (taken, far, equal) at found in
                      let same : i ≡ j = cc in
                      let met : ℕ → Walk S =
                        (λ n. present (lookup_at lookups n).data_id s lookups) in
                      rw (taken, equal) (ap met same)
                  | inr other ↦ elim (ℕ_discrete wanted.psl max_psl) [
                    | yes last ↦
                        cc (rw (taken, far, other, (==_iff wanted.psl max_psl).1 last) at found)
                    | no more ↦
                        let on = ==_ne wanted.psl max_psl more in
                        rw (taken, other, far, on)
                          (find_loop-present s lookups rounds fuel (next_slot commit i) j
                            (further wanted) (omega arith) (rw (taken, far, other, on) at found))
                  ]
                ]
          ]
        ]
