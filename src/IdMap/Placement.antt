-- ===== src/IdMap/Placement.antt =====
-- `reinsert_value_into_lookup` of infra/container/id_map.hpp: an entry takes the slot of one that is
-- nearer to its own, which moves on.
use toy_language.Base.{
  ltb, ==_ne, ltb→lt, ltb→le, lt→ltb, ==_iff, Bool-cases, length, set, length-set, get_or-set_self,
  get_or-set_ne, ℕ, zero, suc, ◌≤◌, ◌<◌, ◌≡◌, refl, sym, ◌∙◌, ◌≢◌, ◌⊎◌, inl, inr, true, false, List,
  ◌∷◌, arith,
}
use mathlib.Core.List.{Perm}
use mathlib.Core.List.Perm
use mathlib.Core.Bool.{true≢false}
use native.Mathlib.Decide.{dec_lt, ℕ_discrete}
use toy_language.Base.Ring.{walked, gap}
use toy_language.IdMap.{
  LookupEntry, Outcome, returned, panicked, max_psl, empty_lookup, is_empty_lookup, lookup_at,
  next_slot, further, first_slot, reinsert_loop,
}
use toy_language.IdMap.Slots.{
  Held, IsAt, Fits, Raises, IsAt-mono, IsAt-taken, next_slot-lt, gap-next_slot, IsAt-further,
}
use toy_language.IdMap.Contents.{ids, ids-set_empty, ids-set_taken}

-- A write to a slot that is empty, or that an entry nearer to its own slot has.
pub Raises-set :
    (lookups : List LookupEntry) (i : ℕ) (entry : LookupEntry)
    → i < length lookups
    → is_empty_lookup entry ≡ false
    → (is_empty_lookup (lookup_at lookups i) ≡ false → (lookup_at lookups i).psl ≤ entry.psl)
    → Raises (set lookups i entry) lookups
Raises-set lookups i entry h taken nearer j q (full, far) = elim (ℕ_discrete i j) [
  | yes same ↦
      let written = get_or-set_self lookups i entry empty_lookup h in
      let bound = nearer (rw same full) in
      rw (sym same, written) (taken, omega (arith, bound, rw (sym same) at far))
  | no other ↦ rw (get_or-set_ne lookups i j entry empty_lookup other) (full, far)
]

pub Fits-set :
    {commit : ℕ} {hash : ℕ → ℕ} (lookups : List LookupEntry) (i : ℕ) (entry : LookupEntry)
    → Fits commit hash lookups
    → i < commit
    → IsAt commit hash lookups entry i
    → (is_empty_lookup (lookup_at lookups i) ≡ false → (lookup_at lookups i).psl ≤ entry.psl)
    → Fits commit hash (set lookups i entry)
Fits-set {commit} {hash} lookups i entry fits h at nearer =
    let inside : i < length lookups = rw fits.size h in
    let raises = Raises-set lookups i entry inside (IsAt-taken at) nearer in
    record {
      size = length-set lookups i entry ∙ fits.size;
      at = λ j below taken. elim (ℕ_discrete i j) [
        | yes same ↦
            rw (sym same, get_or-set_self lookups i entry empty_lookup inside) (IsAt-mono raises at)
        | no other ↦
            let kept = get_or-set_ne lookups i j entry empty_lookup other in
            rw kept (IsAt-mono raises (fits.at j below (rw kept at taken)))
      ];
    }

-- 65 slots in a row are taken.
abbrev pub Overfull : ℕ → List LookupEntry → Type 0
Overfull commit lookups =
    (first : ℕ) × (first < commit)
    × ((q : ℕ) → q ≤ max_psl → is_empty_lookup (lookup_at lookups (walked commit first q)) ≡ false)

Overfull-kept :
    (commit : ℕ) (lookups : List LookupEntry) (i : ℕ) (entry : LookupEntry)
    → is_empty_lookup (lookup_at lookups i) ≡ false
    → Overfull commit (set lookups i entry)
    → Overfull commit lookups
Overfull-kept commit lookups i entry taken (first, below, full) = (
  first,
  below,
  λ q h. elim (ℕ_discrete i (walked commit first q)) [
    | yes same ↦ rw (sym same) taken
    | no other ↦
        rw (sym (get_or-set_ne lookups i (walked commit first q) entry empty_lookup other))
          (full q h)
  ],
)

-- The table has the entry besides what it had, or 65 of its slots in a row were taken.
abbrev pub Places : ℕ → (ℕ → ℕ) → List LookupEntry → ℕ → Outcome (List LookupEntry) → Type 0
Places commit hash lookups data_id result =
    ((new : List LookupEntry) × (result ≡ returned new)
      × Fits commit hash new
      × Perm (ids new) (data_id ∷ ids lookups))
    ⊎ ((result ≡ panicked) × Overfull commit lookups)

Places-swap :
    (commit : ℕ) (hash : ℕ → ℕ) (lookups : List LookupEntry) (i : ℕ) (entry : LookupEntry)
    (result : Outcome (List LookupEntry))
    → i < length lookups
    → is_empty_lookup (lookup_at lookups i) ≡ false
    → is_empty_lookup entry ≡ false
    → Places commit hash (set lookups i entry) (lookup_at lookups i).data_id result
    → Places commit hash lookups entry.data_id result
Places-swap commit hash lookups i entry result h old taken (inl (new, e, fits, same)) =
    inl (new, e, fits, Perm.trans same (ids-set_taken lookups i entry h old taken))
Places-swap commit hash lookups i entry result h old taken (inr (e, full)) =
    inr (e, Overfull-kept commit lookups i entry old full)

module _ {commit : ℕ} (started : (h : ℕ) → first_slot commit h < commit) where
  Overfull-at :
      {hash : ℕ → ℕ} (lookups : List LookupEntry) (entry : LookupEntry) (i : ℕ)
      → IsAt commit hash lookups entry i
      → is_empty_lookup (lookup_at lookups i) ≡ false
      → entry.psl ≡ max_psl
      → Overfull commit lookups
  Overfull-at {hash} lookups entry i at taken last = (
    first_slot commit (hash entry.data_id),
    started (hash entry.data_id),
    λ q h. elim (dec_lt q entry.psl) [
      | yes before ↦ (at.run q before).0
      | no after ↦ let same : q ≡ entry.psl = omega arith in rw (same, sym at.place) taken
    ],
  )

  module _ (hash : ℕ → ℕ) where
    abbrev pub Places-step : ℕ → Type 0
    Places-step fuel =
        (lookups : List LookupEntry) (i e : ℕ) (wanted : LookupEntry)
        → Fits commit hash lookups
        → i < commit
        → IsAt commit hash lookups wanted i
        → e < commit
        → is_empty_lookup (lookup_at lookups e) ≡ true
        → gap commit i e < fuel
        → Places commit hash lookups wanted.data_id (reinsert_loop fuel commit lookups i wanted)

    Places-vacant :
        (fuel : ℕ) (lookups : List LookupEntry) (i : ℕ) (wanted : LookupEntry)
        → Fits commit hash lookups
        → i < commit
        → IsAt commit hash lookups wanted i
        → is_empty_lookup (lookup_at lookups i) ≡ true
        → Places commit hash lookups wanted.data_id
            (reinsert_loop (suc fuel) commit lookups i wanted)
    unfolding reinsert_loop
    Places-vacant fuel lookups i wanted fits h at empty = inl (
      set lookups i wanted,
      rw empty refl,
      Fits-set lookups i wanted fits h at (λ taken. absurd (true≢false (sym empty ∙ taken))),
      ids-set_empty lookups i wanted (rw fits.size h) empty (IsAt-taken at),
    )

    Places-nearer :
        (fuel : ℕ)
        → Places-step fuel
        → (lookups : List LookupEntry) (i e : ℕ) (wanted : LookupEntry) → Fits commit hash lookups
        → i < commit
        → IsAt commit hash lookups wanted i
        → e < commit
        → is_empty_lookup (lookup_at lookups e) ≡ true
        → gap commit i e < suc fuel
        → is_empty_lookup (lookup_at lookups i) ≡ false
        → (lookup_at lookups i).psl < wanted.psl
        → Places commit hash lookups wanted.data_id
            (reinsert_loop (suc fuel) commit lookups i wanted)
    unfolding reinsert_loop
    Places-nearer fuel step lookups i e wanted fits h at below empty enough taken nearer =
        let curr = lookup_at lookups i in
        let inside : i < length lookups = rw fits.size h in
        let near : is_empty_lookup curr ≡ false → curr.psl ≤ wanted.psl = (λ t. omega arith) in
        let new = set lookups i wanted in
        let written : lookup_at new i ≡ wanted =
          get_or-set_self lookups i wanted empty_lookup inside in
        let raises = Raises-set lookups i wanted inside (IsAt-taken at) near in
        let curr_at : IsAt commit hash new curr i = IsAt-mono raises (fits.at i h taken) in
        let apart : i ≢ e = (λ s. true≢false (sym empty ∙ rw (sym s) taken)) in
        let still : is_empty_lookup (lookup_at new e) ≡ true =
          rw (get_or-set_ne lookups i e wanted empty_lookup apart) empty in
        let held : Held new i curr.psl = rw written (IsAt-taken at, omega arith) in
        let bound = at.reach in
        let not_last : curr.psl ≢ max_psl = (λ s. omega (arith, bound, s)) in
        rw (taken, lt→ltb curr.psl wanted.psl nearer, ==_ne curr.psl max_psl not_last)
          (Places-swap commit hash lookups i wanted
            (reinsert_loop fuel commit new (next_slot commit i) (further curr)) inside taken
            (IsAt-taken at)
            (step new (next_slot commit i) e (further curr)
              (Fits-set lookups i wanted fits h at near) (next_slot-lt commit i h)
              (IsAt-further started new curr i e curr_at held not_last below still) below still
              (omega (arith, gap-next_slot commit i e h below apart, enough))))

    Places-farther :
        (fuel : ℕ)
        → Places-step fuel
        → (lookups : List LookupEntry) (i e : ℕ) (wanted : LookupEntry) → Fits commit hash lookups
        → i < commit
        → IsAt commit hash lookups wanted i
        → e < commit
        → is_empty_lookup (lookup_at lookups e) ≡ true
        → gap commit i e < suc fuel
        → is_empty_lookup (lookup_at lookups i) ≡ false
        → ltb (lookup_at lookups i).psl wanted.psl ≡ false
        → Places commit hash lookups wanted.data_id
            (reinsert_loop (suc fuel) commit lookups i wanted)
    unfolding reinsert_loop
    Places-farther fuel step lookups i e wanted fits h at below empty enough taken far =
        let apart : i ≢ e = (λ s. true≢false (sym empty ∙ rw (sym s) taken)) in
        let held : Held lookups i wanted.psl =
          (taken, ltb→le (lookup_at lookups i).psl wanted.psl far) in
        elim (ℕ_discrete wanted.psl max_psl) [
          | yes last ↦ inr (
            rw (taken, far, (==_iff wanted.psl max_psl).1 last) refl,
            Overfull-at lookups wanted i at taken last,
          )
          | no more ↦
              rw (taken, far, ==_ne wanted.psl max_psl more)
                (step lookups (next_slot commit i) e (further wanted) fits (next_slot-lt commit i h)
                  (IsAt-further started lookups wanted i e at held more below empty) below empty
                  (omega (arith, gap-next_slot commit i e h below apart, enough)))
        ]

    pub reinsert_loop-Places : (fuel : ℕ) → Places-step fuel
    reinsert_loop-Places zero lookups i e wanted fits h at below empty enough = absurd (omega arith)
    reinsert_loop-Places (suc fuel) lookups i e wanted fits h at below empty enough =
        elim (Bool-cases (is_empty_lookup (lookup_at lookups i))) [
          | inl vacant ↦ Places-vacant fuel lookups i wanted fits h at vacant
          | inr taken ↦ elim (Bool-cases (ltb (lookup_at lookups i).psl wanted.psl)) [
            | inl nearer ↦
                Places-nearer fuel (reinsert_loop-Places fuel) lookups i e wanted fits h at below
                  empty enough taken (ltb→lt (lookup_at lookups i).psl wanted.psl nearer)
            | inr far ↦
                Places-farther fuel (reinsert_loop-Places fuel) lookups i e wanted fits h at below
                  empty enough taken far
          ]
        ]
