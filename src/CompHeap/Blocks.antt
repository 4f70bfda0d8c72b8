-- ===== src/CompHeap/Blocks.antt =====
-- The free lists of core/comp_heap.cpp as sets of slots: every slot has at most one owner, a place in
-- one of the lists, so that the blocks in the lists are apart.
use toy_language.Base.{
  ap, ltb, leb, ◌==◌, ==_ne, le→leb, lt→leb, if◌then◌else◌, lt→ltb, le→ltb, ==_iff, Bool-cases,
  length, get_or, length-set, get_or-set_self, get_or-set_ne, ℕ, ◌+◌, ◌/◌, ◌^◌, ◌≤◌, ◌<◌, ◌≡◌, refl,
  sym, ◌∙◌, ◌≢◌, ◌⊎◌, inl, inr, ◌&&◌, Option, none, some, List, [], ◌∷◌, arith,
}
use native.Mathlib.Decide.{dec_lt, ℕ_discrete}
use native.Mathlib.Nat.{mod-eq_of_lt, one-le-pow}
use mathlib.Core.Option.{some-injective}
use toy_language.CompHeap.{CompHeap, freelist_count, slot_at, with_link, push_block}

-- Of a slot: the list that its block is in, and the number of blocks behind that.
abbrev pub Owners : Type 0
Owners = ℕ → Option (ℕ × ℕ)

-- The blocks of a list, linked from its head, and the slots that they have.
abbrev pub Chain : (ℕ → ℕ) → Owners → ℕ → ℕ → List ℕ → Type 0
Chain links owner index head [] = head ≡ 0
Chain links owner index head (block ∷ blocks) =
    (head ≡ block)
    × (block ≢ 0)
    × ((s : ℕ) → block ≤ s → s < block + 2 ^ index → owner s ≡ some (index, length blocks))
    × Chain links owner index (links block) blocks

-- The slot is in the block of the list that has `n` blocks behind it.
abbrev pub Covers : ℕ → List ℕ → ℕ → ℕ → Type 0
Covers index [] s n = ⊥
Covers index (block ∷ blocks) s n =
    ((n ≡ length blocks) × (block ≤ s) × (s < block + 2 ^ index)) ⊎ Covers index blocks s n

-- The blocks in the lists have their slots, and every slot that has an owner is in its block.
pub record IsFree (heap : CompHeap) (owner : Owners) : Type 0 where
  pub count : length heap.freelists ≡ freelist_count
  pub lists : ℕ → List ℕ
  pub chains :
      (index : ℕ)
      → index < freelist_count
      → Chain heap.links owner index (get_or heap.freelists index 0) (lists index)
  pub covered :
      (s index n : ℕ)
      → owner s ≡ some (index, n)
      → (index < freelist_count) × Covers index (lists index) s n

-- A block is left as it is by a write to a slot that has no owner, and by new owners of such slots.
pub Chain-cong :
    (links more : ℕ → ℕ) (owner other : Owners) (index head : ℕ) (blocks : List ℕ)
    → ((s : ℕ) (place : ℕ × ℕ) → owner s ≡ some place → (other s ≡ some place) × (more s ≡ links s))
    → Chain links owner index head blocks
    → Chain more other index head blocks
Chain-cong links more owner other index head [] same chain = chain
Chain-cong links more owner other index head (block ∷ blocks) same (here, some_block, owned, rest) =
    let first = owned block (omega arith) (omega (arith, one-le-pow index 2 (omega arith))) in
    let next = (same block (index, length blocks) first).1 in
    (
      here,
      some_block,
      λ s low high. (same s (index, length blocks) (owned s low high)).0,
      rw next (Chain-cong links more owner other index (links block) blocks same rest),
    )

-- The new owners of the slots of a block.
abbrev pub with_owner : Owners → ℕ → ℕ → ℕ × ℕ → Owners
with_owner owner begin count place s =
    if leb begin s && ltb s (begin + count) then some place else owner s

abbrev pub Unowned : Owners → ℕ → ℕ → Type 0
Unowned owner begin count = (s : ℕ) → begin ≤ s → s < begin + count → owner s ≡ none

pub with_owner_in :
    (owner : Owners) (begin count : ℕ) (place : ℕ × ℕ) (s : ℕ)
    → begin ≤ s
    → s < begin + count
    → with_owner owner begin count place s ≡ some place
with_owner_in owner begin count place s low high =
    rw (le→leb begin s low, lt→ltb s (begin + count) high) refl

pub with_owner_out :
    (owner : Owners) (begin count : ℕ) (place : ℕ × ℕ) (s : ℕ)
    → (s < begin) ⊎ (begin + count ≤ s)
    → with_owner owner begin count place s ≡ owner s
with_owner_out owner begin count place s (inl below) = rw (lt→leb begin s below) refl
with_owner_out owner begin count place s (inr above) = elim (Bool-cases (leb begin s)) [
  | inl low ↦ rw (low, le→ltb s (begin + count) above) refl
  | inr high ↦ rw high refl
]

-- An owned slot is not in a part that has no owner.
pub owned_apart :
    (owner : Owners) (begin count s : ℕ) (place : ℕ × ℕ)
    → Unowned owner begin count
    → owner s ≡ some place
    → (s < begin) ⊎ (begin + count ≤ s)
owned_apart owner begin count s place free owned = elim (dec_lt s begin) [
  | yes below ↦ inl below
  | no low ↦ elim (dec_lt s (begin + count)) [
    | no above ↦ inr (omega arith)
    | yes high ↦ let none_here = free s (omega arith) high in cc
  ]
]

module _ (heap : CompHeap) (owner : Owners) (free : IsFree heap owner) (index curr : ℕ) where
  abbrev pub pushed_owner : Owners
  pushed_owner = with_owner owner (curr / 16) (2 ^ index) (index, length (free.lists index))

  pushed_same :
      Unowned owner (curr / 16) (2 ^ index)
      → (s : ℕ) (place : ℕ × ℕ) → owner s ≡ some place
      → (pushed_owner s ≡ some place)
        × (with_link heap.links (curr / 16) (get_or heap.freelists index 0) s ≡ heap.links s)
  pushed_same unowned s place owned =
      let apart = owned_apart owner (curr / 16) (2 ^ index) s place unowned owned in
      let here : s ≢ curr / 16 = (λ e.
        let none_here =
          unowned (curr / 16) (omega arith) (omega (arith, one-le-pow index 2 (omega arith))) in
        let owned_here : owner (curr / 16) ≡ some place = rw (sym e) owned in cc) in
      (
        with_owner_out owner (curr / 16) (2 ^ index) (index, length (free.lists index)) s apart
            ∙ owned,
        rw (==_ne s (curr / 16) here) refl,
      )

  abbrev pushed_lists : ℕ → List ℕ
  pushed_lists i = if i == index then curr / 16 ∷ free.lists i else free.lists i

  pushed_covered :
      index < freelist_count
      → (s i n : ℕ) → pushed_owner s ≡ some (i, n)
      → (i < freelist_count) × Covers i (pushed_lists i) s n
  pushed_covered inside s i n e =
      let place : ℕ × ℕ = (index, length (free.lists index)) in
      let before : (s < curr / 16) ⊎ (curr / 16 + 2 ^ index ≤ s)
          → (i < freelist_count) × Covers i (pushed_lists i) s n =
        (λ out.
          let old =
            free.covered s i n
              (sym (with_owner_out owner (curr / 16) (2 ^ index) place s out) ∙ e) in
          elim (ℕ_discrete i index) [
            | yes here ↦ (old.0, rw ((==_iff i index).1 here) (inr old.1))
            | no other ↦ (old.0, rw (==_ne i index other) old.1)
          ]) in
      elim (dec_lt s (curr / 16)) [
        | yes below ↦ before (inl below)
        | no low ↦ elim (dec_lt s (curr / 16 + 2 ^ index)) [
          | no above ↦ before (inr (omega arith))
          | yes high ↦
              let same : place ≡ (i, n) =
                some-injective place (i, n)
                  (sym (with_owner_in owner (curr / 16) (2 ^ index) place s (omega arith) high)
                    ∙ e) in
              let index_same : index ≡ i = ap (λ (p : ℕ × ℕ). p.0) same in
              let length_same : length (free.lists index) ≡ n = ap (λ (p : ℕ × ℕ). p.1) same in
              rw (← index_same, ← length_same)
                (inside, rw ((==_iff index index).1 refl) (inl (refl, omega arith, high)))
        ]
      ]

  -- A block of slots without an owner is added to a list.
  pub push_block-IsFree :
      index < freelist_count
      → Unowned owner (curr / 16) (2 ^ index)
      → 16 ≤ curr
      → curr / 16 < 2 ^ 32
      → IsFree (push_block heap index curr) pushed_owner
  unfolding push_block
  push_block-IsFree inside unowned some_block fits =
      let links = with_link heap.links (curr / 16) (get_or heap.freelists index 0) in
      let slot : slot_at curr ≡ curr / 16 = mod-eq_of_lt fits in
      let same = pushed_same unowned in
      record {
        count = length-set heap.freelists index (slot_at curr) ∙ free.count;
        lists = pushed_lists;
        covered = pushed_covered inside;
        chains = λ i below. elim (ℕ_discrete i index) [
          | no other ↦
              rw
                (
                  ==_ne i index other,
                  get_or-set_ne heap.freelists index i (slot_at curr) 0 (λ e. other (sym e)),
                )
                (Chain-cong heap.links links owner pushed_owner i (get_or heap.freelists i 0)
                  (free.lists i) same (free.chains i below))
          | yes here ↦
              rw
                (
                  here,
                  (==_iff index index).1 refl,
                  get_or-set_self heap.freelists index (slot_at curr) 0 (rw free.count inside),
                  slot,
                )
                (
                  refl,
                  (λ e. omega (arith, e, some_block)),
                  (λ s low high.
                      with_owner_in owner (curr / 16) (2 ^ index) (index, length (free.lists index))
                        s low high),
                  rw ((==_iff (curr / 16) (curr / 16)).1 refl) (
                      Chain-cong heap.links links owner pushed_owner index
                        (get_or heap.freelists index 0) (free.lists index) same
                        (free.chains index inside)),
                )
        ];
      }
