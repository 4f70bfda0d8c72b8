-- ===== src/Scopes/ClosureList.antt =====
-- `set_closure_list` of core/lexical_analyser.cpp.
use toy_language.Base.{
  le→leb, ◌==◌, ==_iff, Bool-cases, length, get_or, set, replicate, length-set, length-replicate,
  get_or-set_self, get_or-set_ne, ℕ, zero, suc, ◌+◌, ◌%◌, ◌^◌, ◌≤◌, ◌<◌, ◌≡◌, refl, ◌∙◌, inl, inr,
  true, false, some, List, arith,
}
use native.Mathlib.Decide.{dec_lt}
use toy_language.ScopeMap.{ScopeMap, is_occupied, entry_at}
use toy_language.Scopes.{
  is_outward, ClosureListEntry, blank_closure, closure_list_entry, list_slot, list_loop,
  set_closure_list,
}

-- The entries of a closure have ranks of their own, below their number, and are of names from at
-- least one scope further out.
pub record IsRanked (closure : ScopeMap) : Type 0 where
  pub below :
      (i : ℕ)
      → i < closure.capacity
      → is_occupied closure i ≡ true
      → (entry_at closure i).rank < closure.used
  pub distinct :
      (i j : ℕ)
      → i < closure.capacity
      → j < closure.capacity
      → is_occupied closure i ≡ true
      → is_occupied closure j ≡ true
      → (entry_at closure i).rank ≡ (entry_at closure j).rank
      → i ≡ j
  pub outward :
      (i : ℕ)
      → i < closure.capacity
      → is_occupied closure i ≡ true
      → 1 ≤ (entry_at closure i).closure_source_out

module _ (closure : ScopeMap) where
  -- The slots before `bound` are in the list.
  pub record Lists (bound : ℕ) (entries : List ClosureListEntry) : Type 0 where
    pub size : length entries ≡ closure.used
    pub listed :
        (i : ℕ)
        → i < bound
        → is_occupied closure i ≡ true
        → get_or entries (entry_at closure i).rank blank_closure
          ≡ closure_list_entry (entry_at closure i)

  Lists-set :
      (i : ℕ) (entries : List ClosureListEntry)
      → IsRanked closure
      → i < closure.capacity
      → is_occupied closure i ≡ true
      → Lists i entries
      → Lists
          (suc i)
          (set entries (entry_at closure i).rank (closure_list_entry (entry_at closure i)))
  Lists-set i entries r h occupied l = record {
    size = length-set entries _ _ ∙ l.size;
    listed = λ j below occ. elim (dec_lt j i) [
      | yes before ↦
          get_or-set_ne entries _ _ _ _
            (λ e. omega (arith, r.distinct i j h (omega arith) occupied occ e))
          ∙ l.listed j before occ
      | no after ↦
          let same : i ≡ j = omega arith in
          rw (← same) (get_or-set_self entries _ _ _ (omega (arith, r.below i h occupied, l.size)))
    ];
  }

  Lists-list_slot :
      (i : ℕ) (entries : List ClosureListEntry)
      → IsRanked closure
      → i < closure.capacity
      → Lists i entries
      → Lists (suc i) (list_slot closure i entries)
  Lists-list_slot i entries r h l = elim (Bool-cases (is_occupied closure i)) [
    | inl occupied ↦ rw occupied (Lists-set i entries r h occupied l)
    | inr empty ↦ rw empty (record {
      size = l.size;
      listed = λ j below occ. elim (dec_lt j i) [
        | yes before ↦ l.listed j before occ
        | no after ↦ let same : i ≡ j = omega arith in absurd (cc)
      ];
    })
  ]

  IsRanked-is_outward :
      (i : ℕ) → IsRanked closure → i < closure.capacity → is_outward closure i ≡ true
  IsRanked-is_outward i r h = elim (Bool-cases (is_occupied closure i)) [
    | inl occupied ↦
        let out = r.outward i h occupied in
        rw occupied (le→leb 1 (entry_at closure i).closure_source_out out)
    | inr empty ↦ rw empty refl
  ]

  list_loop-Lists :
      (fuel i : ℕ) (entries : List ClosureListEntry)
      → IsRanked closure
      → closure.capacity < 2 ^ 16
      → i + fuel ≡ closure.capacity + 1
      → i ≤ closure.capacity
      → Lists i entries
      → (out : List ClosureListEntry) × (list_loop fuel closure i entries ≡ some out)
        × Lists closure.capacity out
  unfolding list_loop
  list_loop-Lists zero i entries r small e h l = absurd (omega arith)
  list_loop-Lists (suc fuel) i entries r small e h l = elim (dec_lt i closure.capacity) [
    | no after ↦
        let same : i ≡ closure.capacity = omega arith in
        (entries, rw ((==_iff i closure.capacity).1 same) refl, rw same at l)
    | yes before ↦
        let onward : (i == closure.capacity) ≡ false = ground arith in
        let next : (i + 1) % 2 ^ 16 ≡ suc i = omega arith in
        rw (onward, next, IsRanked-is_outward i r before)
          (list_loop-Lists fuel (suc i) (list_slot closure i entries) r small (omega arith)
            (omega arith) (Lists-list_slot i entries r before l))
  ]

-- For a closure that is not empty, of fewer than 2^16 slots, whose entries have ranks of their own
-- below their number and a `closure_source_out` of at least 1, `set_closure_list` returns a list that holds every entry at its rank.
pub set_closure_list-Lists :
    (closure : ScopeMap)
    → IsRanked closure
    → closure.capacity < 2 ^ 16
    → 0 < closure.used
    → (out : List ClosureListEntry) × (set_closure_list closure ≡ some (some out))
      × Lists closure closure.capacity out
unfolding set_closure_list
set_closure_list-Lists closure r small several =
    let blank = replicate closure.used blank_closure in
    let (out, e, l) =
      list_loop-Lists closure (closure.capacity + 1) 0 blank r small (omega arith) (omega arith)
        (record {
          size = length-replicate closure.used blank_closure;
          listed = λ i h. absurd (omega arith);
        }) in
    let filled : (closure.used == 0) ≡ false = ground arith in (out, rw (filled, e) refl, l)
