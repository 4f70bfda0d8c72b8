-- ===== src/IdMap/Insertion.antt =====
-- The loop of `id_from` of infra/container/id_map.hpp, beside the loops of `find_by_key` and of
-- `reinsert_value_into_lookup`.
use toy_language.Base.{
  ltb, ◌==◌, ==_ne, ==_iff, Bool-cases, set, get_or-set_ne, ℕ, zero, suc, ◌≤◌, ◌<◌, ◌≡◌, refl, sym,
  ap, ◌∙◌, ◌≢◌, ◌⊎◌, inl, inr, Bool, true, false, List, arith,
}
use mathlib.Core.Bool.{true≢false}
use toy_language.Base.Ring.{gap}
use native.Mathlib.Decide.{ℕ_discrete}
use toy_language.IdMap.{
  LookupEntry, Outcome, returned, panicked, max_psl, empty_lookup, is_empty_lookup, lookup_at,
  next_slot, further, reinsert_loop, Alloc, is_equal_lookup, Phase, needs_allocation, allocated,
  Walk, filled, overflow, insert_loop,
}
use toy_language.IdMap.Slots.{next_slot-lt, gap-next_slot}
use toy_language.IdMap.Equal.{is_equal_lookup_cases}

module _ {K S : Type 0} (ops : Alloc K S) (mem_commit : ℕ → ℕ → Bool) where
  -- The walk fills a slot, with the table that a reinsertion returns, or the reinsertion panics.
  abbrev pub Matches : ℕ → S → Walk S → Outcome (List LookupEntry) → Type 0
  Matches id after walk reinserted =
      ((new : List LookupEntry) × (walk ≡ filled id after new) × (reinserted ≡ returned new))
      ⊎ ((phase : Phase) × (s : S) × (lookups : List LookupEntry) × (walk
            ≡ overflow phase s lookups)
          × (reinserted ≡ panicked))

  -- What is not the key's fails the test of the loop.
  not_equal :
      (s : S) (existing wanted : LookupEntry) (key : K) (key_hash : ℕ)
      → ops.is_equal_to_key s existing.data_id key key_hash ≡ false
      → is_equal_lookup ops mem_commit s existing wanted key key_hash ≡ false
  not_equal s existing wanted key key_hash other =
      elim (is_equal_lookup_cases ops mem_commit s existing wanted key key_hash) [
        | inl e ↦ e
        | inr (e, equal) ↦ absurd (true≢false (sym equal ∙ other))
      ]

  nearer-not_equal :
      (s : S) (existing wanted : LookupEntry) (key : K) (key_hash : ℕ)
      → existing.psl < wanted.psl
      → is_equal_lookup ops mem_commit s existing wanted key key_hash ≡ false
  nearer-not_equal s existing wanted key key_hash nearer =
      let apart : (existing.psl == wanted.psl) ≡ false = ground arith in
      elim (Bool-cases (existing.hash_fingerprint == wanted.hash_fingerprint)) [
        | inl print ↦ rw (print, apart) refl
        | inr other ↦ rw other refl
      ]

  module _ (key : K) (key_hash commit : ℕ) where
    -- Nothing from `i` on to `e` is equal to the key.
    abbrev pub Clear : S → List LookupEntry → ℕ → ℕ → Type 0
    Clear s lookups i e =
        (j : ℕ)
        → j < commit
        → gap commit j e ≤ gap commit i e
        → is_empty_lookup (lookup_at lookups j) ≡ false
        → ops.is_equal_to_key s (lookup_at lookups j).data_id key key_hash ≡ false

    Clear-next :
        (s : S) (lookups : List LookupEntry) (i e : ℕ)
        → i < commit
        → e < commit
        → i ≢ e
        → Clear s lookups i e
        → Clear s lookups (next_slot commit i) e
    Clear-next s lookups i e h below apart clear j inside near taken =
        let step = gap-next_slot commit i e h below apart in
        clear j inside (omega (arith, step, near)) taken

    Clear-set :
        (s : S) (lookups : List LookupEntry) (i e : ℕ) (entry : LookupEntry)
        → i < commit
        → e < commit
        → i ≢ e
        → Clear s lookups i e
        → Clear s (set lookups i entry) (next_slot commit i) e
    Clear-set s lookups i e entry h below apart clear j inside near taken =
        let step = gap-next_slot commit i e h below apart in
        let other : i ≢ j = (λ same.
          let close : gap commit j e ≡ gap commit i e = ap (λ t. gap commit t e) (sym same) in
          absurd (omega (arith, step, near, close))) in
        let kept = get_or-set_ne lookups i j entry empty_lookup other in
        rw kept (clear j inside (omega (arith, step, near)) (rw kept at taken))

    allocated-Matches :
        (id : ℕ) (s : S) (fuel : ℕ) (lookups : List LookupEntry) (i e : ℕ) (wanted : LookupEntry)
        → i < commit
        → e < commit
        → is_empty_lookup (lookup_at lookups e) ≡ true
        → gap commit i e < fuel
        → Clear s lookups i e
        → Matches id s
            (insert_loop ops mem_commit key key_hash fuel commit s lookups i wanted (allocated id))
            (reinsert_loop fuel commit lookups i wanted)
    unfolding insert_loop reinsert_loop
    allocated-Matches id s zero lookups i e wanted h below empty enough clear = absurd (omega arith)
    allocated-Matches id s (suc fuel) lookups i e wanted h below empty enough clear =
        let existing = lookup_at lookups i in
        elim (Bool-cases (is_empty_lookup existing)) [
          | inl vacant ↦ inl (set lookups i wanted, rw vacant refl, rw vacant refl)
          | inr taken ↦
              let other : is_equal_lookup ops mem_commit s existing wanted key key_hash ≡ false =
                not_equal s existing wanted key key_hash (clear i h (omega arith) taken) in
              let apart : i ≢ e = (λ same. true≢false (sym empty ∙ rw (sym same) taken)) in
              let step : gap commit (next_slot commit i) e < fuel =
                omega (arith, gap-next_slot commit i e h below apart, enough) in
              elim (Bool-cases (ltb existing.psl wanted.psl)) [
                | inl nearer ↦ elim (ℕ_discrete existing.psl max_psl) [
                  | yes last ↦
                      let stop = (==_iff existing.psl max_psl).1 last in
                      inr (
                        allocated id,
                        s,
                        set lookups i wanted,
                        rw (taken, other, nearer, stop) refl,
                        rw (taken, nearer, stop) refl,
                      )
                  | no more ↦
                      rw (taken, other, nearer, ==_ne existing.psl max_psl more)
                        (allocated-Matches id s fuel (set lookups i wanted) (next_slot commit i) e
                          (further existing) (next_slot-lt commit i h) below
                          (rw (get_or-set_ne lookups i e wanted empty_lookup apart) empty) step
                          (Clear-set s lookups i e wanted h below apart clear))
                ]
                | inr far ↦ elim (ℕ_discrete wanted.psl max_psl) [
                  | yes last ↦
                      let stop = (==_iff wanted.psl max_psl).1 last in
                      inr (
                        allocated id,
                        s,
                        lookups,
                        rw (taken, other, far, stop) refl,
                        rw (taken, far, stop) refl,
                      )
                  | no more ↦
                      rw (taken, other, far, ==_ne wanted.psl max_psl more)
                        (allocated-Matches id s fuel lookups (next_slot commit i) e (further wanted)
                          (next_slot-lt commit i h) below empty step
                          (Clear-next s lookups i e h below apart clear))
                ]
              ]
        ]

    pub needs-Matches :
        (s : S) (fuel : ℕ) (lookups : List LookupEntry) (i e : ℕ) (to_insert : LookupEntry)
        → i < commit
        → e < commit
        → is_empty_lookup (lookup_at lookups e) ≡ true
        → gap commit i e < fuel
        → Clear s lookups i e
        → Clear (ops.create_value s key key_hash).1 lookups i e
        → Matches
            (ops.create_value s key key_hash).0
            (ops.create_value s key key_hash).1
            (insert_loop ops mem_commit key key_hash fuel commit s lookups i to_insert
              needs_allocation)
            (reinsert_loop fuel commit lookups i
              (record to_insert { data_id = (ops.create_value s key key_hash).0 }))
    unfolding insert_loop reinsert_loop
    needs-Matches s zero lookups i e to_insert h below empty enough clear after_clear =
        absurd (omega arith)
    needs-Matches s (suc fuel) lookups i e to_insert h below empty enough clear after_clear =
        let existing = lookup_at lookups i in
        let (id, after) = ops.create_value s key key_hash in
        let wanted : LookupEntry = record to_insert { data_id = id } in
        elim (Bool-cases (is_empty_lookup existing)) [
          | inl vacant ↦ inl (set lookups i wanted, rw vacant refl, rw vacant refl)
          | inr taken ↦
              let other : is_equal_lookup ops mem_commit s existing to_insert key key_hash ≡ false =
                not_equal s existing to_insert key key_hash (clear i h (omega arith) taken) in
              let apart : i ≢ e = (λ same. true≢false (sym empty ∙ rw (sym same) taken)) in
              let step : gap commit (next_slot commit i) e < fuel =
                omega (arith, gap-next_slot commit i e h below apart, enough) in
              elim (Bool-cases (ltb existing.psl to_insert.psl)) [
                | inl nearer ↦ elim (ℕ_discrete existing.psl max_psl) [
                  | yes last ↦
                      let stop = (==_iff existing.psl max_psl).1 last in
                      inr (
                        allocated id,
                        after,
                        set lookups i wanted,
                        rw (taken, other, nearer, stop) refl,
                        rw (taken, nearer, stop) refl,
                      )
                  | no more ↦
                      rw (taken, other, nearer, ==_ne existing.psl max_psl more)
                        (allocated-Matches id after fuel (set lookups i wanted) (next_slot commit i)
                          e (further existing) (next_slot-lt commit i h) below
                          (rw (get_or-set_ne lookups i e wanted empty_lookup apart) empty) step
                          (Clear-set after lookups i e wanted h below apart after_clear))
                ]
                | inr far ↦ elim (ℕ_discrete to_insert.psl max_psl) [
                  | yes last ↦
                      let stop = (==_iff to_insert.psl max_psl).1 last in
                      inr (
                        needs_allocation,
                        s,
                        lookups,
                        rw (taken, other, far, stop) refl,
                        rw (taken, far, stop) refl,
                      )
                  | no more ↦
                      rw (taken, other, far, ==_ne to_insert.psl max_psl more)
                        (needs-Matches s fuel lookups (next_slot commit i) e (further to_insert)
                          (next_slot-lt commit i h) below empty step
                          (Clear-next s lookups i e h below apart clear)
                          (Clear-next after lookups i e h below apart after_clear))
                ]
              ]
        ]
