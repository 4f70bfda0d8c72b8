-- ===== src/CompHeap/Pop.antt =====
-- A block is taken from a free list of core/comp_heap.cpp.
use toy_language.Base.{
  ltb, leb, ◌==◌, ==_ne, le→leb, lt→leb, if◌then◌else◌, lt→ltb, le→ltb, ==_iff, Bool-cases, length,
  get_or, set, length-set, get_or-set_self, get_or-set_ne, ℕ, ◌+◌, ◌^◌, ◌≤◌, ◌<◌, ◌≡◌, refl, sym,
  ap, ◌∙◌, ◌≢◌, ◌⊎◌, inl, inr, ◌&&◌, none, some, List, [], ◌∷◌, arith,
}
use native.Mathlib.Decide.{dec_lt, ℕ_discrete}
use mathlib.Core.Option.{some-injective}
use toy_language.CompHeap.{CompHeap, freelist_count}
use toy_language.CompHeap.Blocks.{Covers, Owners, Chain, IsFree}

-- A chain depends on the owners of its own slots only.
Chain-restrict :
    (links : ℕ → ℕ) (owner other : Owners) (index head : ℕ) (blocks : List ℕ)
    → ((s n : ℕ) → n < length blocks → owner s ≡ some (index, n) → other s ≡ some (index, n))
    → Chain links owner index head blocks
    → Chain links other index head blocks
Chain-restrict links owner other index head [] same chain = chain
Chain-restrict links owner other index head (block ∷ blocks) same (here, some_block, owned, rest) =
    (
      here,
      some_block,
      λ s low high. same s (length blocks) (omega arith) (owned s low high),
      Chain-restrict links owner other index (links block) blocks
          (λ s n h e. same s n (omega arith) e) rest,
    )

-- The owners without those of some slots.
abbrev pub without : Owners → ℕ → ℕ → Owners
without owner begin count s = if leb begin s && ltb s (begin + count) then none else owner s

pub without_in :
    (owner : Owners) (begin count s : ℕ)
    → begin ≤ s
    → s < begin + count
    → without owner begin count s ≡ none
without_in owner begin count s low high =
    rw (le→leb begin s low, lt→ltb s (begin + count) high) refl

pub without_out :
    (owner : Owners) (begin count s : ℕ)
    → (s < begin) ⊎ (begin + count ≤ s)
    → without owner begin count s ≡ owner s
without_out owner begin count s (inl below) = rw (lt→leb begin s below) refl
without_out owner begin count s (inr above) = elim (Bool-cases (leb begin s)) [
  | inl low ↦ rw (low, le→ltb s (begin + count) above) refl
  | inr high ↦ rw high refl
]

-- A slot with another place than that of a block is not in the block.
other_place :
    (owner : Owners) (begin count s : ℕ) (place found : ℕ × ℕ)
    → ((t : ℕ) → begin ≤ t → t < begin + count → owner t ≡ some place)
    → owner s ≡ some found
    → found ≢ place
    → without owner begin count s ≡ some found
other_place owner begin count s place found owned e apart = elim (dec_lt s begin) [
  | yes below ↦ without_out owner begin count s (inl below) ∙ e
  | no low ↦ elim (dec_lt s (begin + count)) [
    | no above ↦ without_out owner begin count s (inr (omega arith)) ∙ e
    | yes high ↦
        let same : found ≡ place =
          some-injective found place (sym e ∙ owned s (omega arith) high) in
        absurd (apart same)
  ]
]

-- What taking the first block of a list leaves, and what was known of the block.
pub record Popped (heap : CompHeap) (owner other : Owners) (index block : ℕ) : Type 0 where
  pub free : IsFree (record heap { freelists = set heap.freelists index (heap.links block) }) other
  pub was_free : (s : ℕ) → block ≤ s → s < block + 2 ^ index → owner s ≢ none
  pub taken : (s : ℕ) → block ≤ s → s < block + 2 ^ index → other s ≡ none
  pub kept : (s : ℕ) → (s < block) ⊎ (block + 2 ^ index ≤ s) → other s ≡ owner s

module _ (heap : CompHeap) (owner : Owners) (free : IsFree heap owner) (index : ℕ)
    (inside : index < freelist_count) where
  popped_covered :
      (block : ℕ) (blocks : List ℕ)
      → free.lists index ≡ block ∷ blocks
      → (s i n : ℕ) → without owner block (2 ^ index) s ≡ some (i, n)
      → (i < freelist_count) × Covers i (if i == index then blocks else free.lists i) s n
  popped_covered block blocks listed s i n e =
      let apart : (s < block) ⊎ (block + 2 ^ index ≤ s) = elim (dec_lt s block) [
        | yes below ↦ inl below
        | no low ↦ elim (dec_lt s (block + 2 ^ index)) [
          | no above ↦ inr (omega arith)
          | yes high ↦
              let gone = without_in owner block (2 ^ index) s (omega arith) high in absurd (cc)
        ]
      ] in
      let old = free.covered s i n (sym (without_out owner block (2 ^ index) s apart) ∙ e) in
      elim (ℕ_discrete i index) [
        | no other ↦ (old.0, rw (==_ne i index other) old.1)
        | yes here ↦ (
          old.0,
          rw ((==_iff i index).1 here) (elim (rw (here, listed) at old.1) [
            | inr behind ↦ rw here behind
            | inl (m, low, high) ↦ elim apart [
              | inl below ↦ absurd (omega arith)
              | inr above ↦ absurd (omega arith)
            ]
          ]),
        )
      ]

  popped-IsFree :
      (block : ℕ) (blocks : List ℕ)
      → free.lists index ≡ block ∷ blocks
      → Chain heap.links owner index block (block ∷ blocks)
      → IsFree
          (record heap { freelists = set heap.freelists index (heap.links block) })
          (without owner block (2 ^ index))
  popped-IsFree block blocks listed (here, some_block, owned, rest) = record {
    covered = popped_covered block blocks listed;
    count = length-set heap.freelists index (heap.links block) ∙ free.count;
    lists = λ i. if i == index then blocks else free.lists i;
    chains = λ i below. elim (ℕ_discrete i index) [
      | yes same ↦
          rw
            (
              same,
              (==_iff index index).1 refl,
              get_or-set_self heap.freelists index (heap.links block) 0 (rw free.count inside),
            )
            (Chain-restrict heap.links owner (without owner block (2 ^ index)) index
              (heap.links block) blocks
              (λ s n h e.
                other_place owner block (2 ^ index) s (index, length blocks) (index, n) owned e
                  (λ z.
                    let lengths : n ≡ length blocks = ap (λ (p : ℕ × ℕ). p.1) z in
                    absurd (omega (arith, lengths, h))))
              rest)
      | no other ↦
          rw
            (
              ==_ne i index other,
              get_or-set_ne heap.freelists index i (heap.links block) 0 (λ e. other (sym e)),
            )
            (Chain-restrict heap.links owner (without owner block (2 ^ index)) i
              (get_or heap.freelists i 0) (free.lists i)
              (λ s n h e.
                other_place owner block (2 ^ index) s (index, length blocks) (i, n) owned e
                  (λ z. other (ap (λ (p : ℕ × ℕ). p.0) z)))
              (free.chains i below))
    ];
  }

  Popped-from :
      (head : ℕ) (blocks : List ℕ)
      → head ≢ 0
      → free.lists index ≡ blocks
      → Chain heap.links owner index head blocks
      → (other : Owners) × Popped heap owner other index head
  Popped-from head [] some_head listed empty = absurd (some_head empty)
  Popped-from head (block ∷ blocks) some_head listed (here, some_block, owned, rest) =
      let owned_at : (s : ℕ)
          → head ≤ s
          → s < head + 2 ^ index
          → owner s ≡ some (index, length blocks) =
        rw here owned in
      let chain : Chain heap.links owner index head (head ∷ blocks) =
        (refl, some_head, owned_at, rw here rest) in
      (
        without owner head (2 ^ index),
        record {
          free = popped-IsFree head blocks (rw (← here) at listed) chain;
          was_free = λ s low high e. let found = owned_at s low high in cc;
          taken = λ s low high. without_in owner head (2 ^ index) s low high;
          kept = λ s h. without_out owner head (2 ^ index) s h;
        },
      )

  -- The first block of a list that is not empty is taken: its slots have no owner then, and nothing
  -- else changes.
  pub pop-Popped :
      get_or heap.freelists index 0 ≢ 0
      → (other : Owners) × Popped heap owner other index (get_or heap.freelists index 0)
  pop-Popped some_head =
      Popped-from (get_or heap.freelists index 0) (free.lists index) some_head refl
        (free.chains index inside)
