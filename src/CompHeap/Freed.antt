-- ===== src/CompHeap/Freed.antt =====
-- `comp_heap_add_to_freelist` of core/comp_heap.cpp: what it adds to the free lists.
use toy_language.Base.{
  length, ℕ, ◌+◌, ◌*◌, ◌/◌, ◌^◌, ◌≤◌, ◌<◌, ◌≡◌, refl, sym, ◌∙◌, ◌≢◌, ◌⊎◌, inl, inr, none, some,
  arith,
}
use native.Mathlib.Decide.{dec_lt}
use toy_language.CompHeap.{CompHeap, freelist_count, push_block}
use toy_language.CompHeap.Blocks.{
  Owners, IsFree, Unowned, with_owner_in, with_owner_out, pushed_owner, push_block-IsFree,
}

-- The slots from `begin` on have owners now, and nothing else has changed.
pub record Freed (heap new : CompHeap) (owner other : Owners) (begin count : ℕ) : Type 0 where
  pub free : IsFree new other
  pub outside : (s : ℕ) → (s < begin) ⊎ (begin + count ≤ s) → other s ≡ owner s
  pub inside : (s : ℕ) → begin ≤ s → s < begin + count → other s ≢ none
  pub same_used : new.used ≡ heap.used
  pub same_begins : new.begin_bitmap ≡ heap.begin_bitmap

pub Freed-nothing :
    (heap : CompHeap) (owner : Owners) (begin : ℕ)
    → IsFree heap owner
    → Freed heap heap owner owner begin 0
Freed-nothing heap owner begin free = record {
  free = free;
  outside = λ s h. refl;
  inside = λ s low high. absurd (omega arith);
  same_used = refl;
  same_begins = refl;
}

pub Freed-then :
    (heap mid new : CompHeap) (owner between other : Owners) (begin first second : ℕ)
    → Freed heap mid owner between begin first
    → Freed mid new between other (begin + first) second
    → Freed heap new owner other begin (first + second)
Freed-then heap mid new owner between other begin first second a b = record {
  free = b.free;
  outside = λ s h. elim h [
    | inl below ↦ b.outside s (inl (omega arith)) ∙ a.outside s (inl below)
    | inr above ↦ b.outside s (inr (omega arith)) ∙ a.outside s (inr (omega arith))
  ];
  inside = λ s low high. elim (dec_lt s (begin + first)) [
    | yes early ↦ λ e. a.inside s low early (sym (b.outside s (inl early)) ∙ e)
    | no late ↦ b.inside s (omega arith) (omega arith)
  ];
  same_used = b.same_used ∙ a.same_used;
  same_begins = b.same_begins ∙ a.same_begins;
}

pub push_block-Freed :
    (heap : CompHeap) (owner : Owners) (free : IsFree heap owner) (index slot : ℕ)
    → index < freelist_count
    → Unowned owner slot (2 ^ index)
    → slot ≢ 0
    → slot < 2 ^ 32
    → (other : Owners) × Freed heap (push_block heap index (16 * slot)) owner other slot (2 ^ index)
unfolding push_block
push_block-Freed heap owner free index slot below unowned some_slot fits =
    let back : 16 * slot / 16 ≡ slot = omega arith in
    let place : ℕ × ℕ = (index, length (free.lists index)) in
    (
      pushed_owner heap owner free index (16 * slot),
      record {
        free =
            push_block-IsFree heap owner free index (16 * slot) below (rw back unowned)
              (omega arith) (omega arith);
        outside = λ s h. rw back (with_owner_out owner slot (2 ^ index) place s h);
        inside = λ s low high e.
            let owned : pushed_owner heap owner free index (16 * slot) s ≡ some place =
              rw back (with_owner_in owner slot (2 ^ index) place s low high) in
            cc;
        same_used = refl;
        same_begins = refl;
      },
    )
