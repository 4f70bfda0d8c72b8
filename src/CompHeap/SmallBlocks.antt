-- ===== src/CompHeap/SmallBlocks.antt =====
-- The first loop of `comp_heap_add_to_freelist` of core/comp_heap.cpp: a block for each binary digit.
use toy_language.Base.{
  ==_ne, ==_iff, ℕ, zero, suc, ◌+◌, ◌-◌, ◌*◌, ◌/◌, ◌%◌, ◌^◌, ◌≤◌, ◌<◌, bit_and, ◌≡◌, refl, sym, ap,
  ◌∙◌, ◌≢◌, inr, arith,
}
use native.Mathlib.Decide.{ℕ_discrete}
use native.Mathlib.Nat.{one-le-pow, pow-suc, mul-div_left, add-mul, mul_assoc, mul_comm}
use toy_language.Base.Bits.{bit_and_high}
use toy_language.CompHeap.{CompHeap, Rest, freelist_count, push_block, small_loop}
use toy_language.CompHeap.Blocks.{Owners, IsFree, Unowned}
use native.Mathlib.Numerals.{add-one}
use toy_language.CompHeap.Freed.{Freed, Freed-nothing, Freed-then, push_block-Freed}

-- The test of the first loop, where `size` is a multiple of the block.
mask_bit :
    (index m : ℕ) → bit_and (16 * (m * 2 ^ index)) (16 * 2 ^ index) ≡ m % 2 * (16 * 2 ^ index)
mask_bit index m =
    let k = suc (suc (suc (suc index))) in
    let power : 16 * 2 ^ index ≡ 2 ^ k = omega (
      arith,
      pow-suc 2 (suc (suc (suc index))),
      pow-suc 2 (suc (suc index)),
      pow-suc 2 (suc index),
      pow-suc 2 index,
    ) in
    let size : 16 * (m * 2 ^ index) ≡ m * (16 * 2 ^ index) = grind arith in
    let single : 2 ^ k ≡ 1 * 2 ^ k = omega arith in
    let positive : 0 < 2 ^ k = one-le-pow k 2 (omega arith) in
    rw (size, power)
      (ap (bit_and (m * 2 ^ k)) single
        ∙ bit_and_high k 1 (m * 2 ^ k)
        ∙ rw (mul-div_left m positive) refl)

-- What the first loop leaves: a multiple of the greatest block.
pub record Small (heap : CompHeap) (owner : Owners) (slot count : ℕ) (rest : Rest) : Type 0 where
  pub done : ℕ
  pub left : ℕ
  pub other : Owners
  pub total : done + left * 2 ^ freelist_count ≡ count
  pub address : rest.curr ≡ 16 * (slot + done)
  pub remaining : rest.size ≡ 16 * (left * 2 ^ freelist_count)
  pub freed : Freed heap rest.heap owner other slot done

Small-none :
    (heap : CompHeap) (owner : Owners) (slot left n : ℕ)
    → IsFree heap owner
    → n ≡ left * 2 ^ freelist_count
    → Small heap owner slot n (record { heap = heap; curr = 16 * slot; size = 16 * n })
Small-none heap owner slot left n free multiple = record {
  done = 0;
  left = left;
  other = owner;
  total = omega (arith, multiple);
  address = omega arith;
  remaining = ap (λ t. 16 * t) multiple;
  freed = Freed-nothing heap owner slot free;
}

Small-pushed :
    (heap mid : CompHeap) (owner between : Owners) (slot block count n : ℕ) (rest : Rest)
    → n ≡ block + count
    → Freed heap mid owner between slot block
    → Small mid between (slot + block) count rest
    → Small heap owner slot n rest
Small-pushed heap mid owner between slot block count n rest sum first later = record {
  done = block + later.done;
  left = later.left;
  other = later.other;
  total = omega (arith, later.total, sum);
  address = omega (arith, later.address);
  remaining = later.remaining;
  freed =
      Freed-then heap mid rest.heap owner between later.other slot block later.done first
        later.freed;
}

abbrev pub start : CompHeap → ℕ → ℕ → Rest
start heap slot count = record { heap = heap; curr = 16 * slot; size = 16 * count }

-- One round of the loop.
small_loop-end : (index mask : ℕ) (rest : Rest) → small_loop 0 index mask rest ≡ rest
unfolding small_loop
small_loop-end index mask rest = refl

small_loop-done :
    (rounds index mask n slot : ℕ) (heap : CompHeap)
    → n ≡ 0
    → small_loop (suc rounds) index mask (start heap slot n) ≡ start heap slot n
unfolding small_loop
small_loop-done rounds index mask n slot heap nothing =
    let none_left : 16 * n ≡ 0 = omega arith in rw ((==_iff (16 * n) 0).1 none_left) refl

small_loop-even :
    (rounds index mask n slot : ℕ) (heap : CompHeap)
    → n ≢ 0
    → bit_and (16 * n) mask ≡ 0
    → small_loop (suc rounds) index mask (start heap slot n)
      ≡ small_loop rounds (index + 1) (mask * 2) (start heap slot n)
unfolding small_loop
small_loop-even rounds index mask n slot heap something bit =
    rw (==_ne (16 * n) 0 (λ e. something (omega (arith, e))), bit) refl

small_loop-odd :
    (rounds index n slot : ℕ) (heap : CompHeap)
    → n ≢ 0
    → bit_and (16 * n) (16 * 2 ^ index) ≢ 0
    → small_loop (suc rounds) index (16 * 2 ^ index) (start heap slot n)
      ≡ small_loop rounds
          (index + 1)
          (16 * 2 ^ index * 2)
          (start (push_block heap index (16 * slot)) (slot + 2 ^ index) (n - 2 ^ index))
unfolding small_loop
small_loop-odd rounds index n slot heap something bit =
    let curr : 16 * slot + 16 * 2 ^ index ≡ 16 * (slot + 2 ^ index) = omega arith in
    let size : 16 * n - 16 * 2 ^ index ≡ 16 * (n - 2 ^ index) = omega arith in
    rw
      (
        ==_ne (16 * n) 0 (λ e. something (omega (arith, e))),
        ==_ne (bit_and (16 * n) (16 * 2 ^ index)) 0 bit,
        curr,
        size,
      )
      refl

even_half : (m p : ℕ) → m % 2 ≡ 0 → m * p ≡ m / 2 * (p * 2)
even_half m p even =
    let split : m ≡ m / 2 * 2 = omega arith in
    rw (mul_comm p 2, sym (mul_assoc (m / 2) 2 p), sym split) refl

odd_half : (m p : ℕ) → m % 2 ≢ 0 → m * p ≡ p + m / 2 * (p * 2)
odd_half m p odd =
    let split : m ≡ 1 + m / 2 * 2 = omega arith in
    ap (λ (t : ℕ). t * p) split
    ∙ add-mul 1 (m / 2 * 2) p
    ∙ omega (arith, mul_assoc (m / 2) 2 p, mul_comm 2 p)

pub small_loop-Small :
    (rounds index m n mask slot : ℕ) (heap : CompHeap) (owner : Owners)
    → IsFree heap owner
    → index + rounds ≡ freelist_count
    → n ≡ m * 2 ^ index
    → mask ≡ 16 * 2 ^ index
    → Unowned owner slot n
    → slot ≢ 0
    → slot + n ≤ 2 ^ 32
    → Small heap owner slot n (small_loop rounds index mask (start heap slot n))
small_loop-Small zero index m n mask slot heap owner free count size masked unowned some_slot fits =
    let last : index ≡ freelist_count = omega arith in
    rw (small_loop-end index mask (start heap slot n))
      (Small-none heap owner slot m n free (size ∙ rw last refl))
small_loop-Small (suc rounds) index m n mask slot heap owner free count size masked unowned
      some_slot fits =
    let p = 2 ^ index in
    let positive : 0 < p = one-le-pow index 2 (omega arith) in
    let next : 2 ^ (index + 1) ≡ p * 2 = rw (add-one index) (pow-suc 2 index) in
    elim (ℕ_discrete n 0) [
      | yes nothing ↦
          rw (small_loop-done rounds index mask n slot heap nothing)
            (Small-none heap owner slot 0 n free (omega (arith, nothing)))
      | no something ↦ elim (ℕ_discrete (m % 2) 0) [
        | yes even ↦
            let bit : bit_and (16 * n) mask ≡ 0 =
              rw (size, masked, mask_bit index m, even) (omega arith) in
            rw (small_loop-even rounds index mask n slot heap something bit) (
              small_loop-Small rounds (index + 1) (m / 2) n (mask * 2) slot heap owner free
                (omega arith) (rw next (size ∙ even_half m p even)) (omega (arith, next, masked))
                unowned some_slot fits)
        | no odd ↦
            let value : bit_and (16 * n) (16 * p) ≡ m % 2 * (16 * p) = rw size (mask_bit index m) in
            let one : m % 2 ≡ 1 = omega arith in
            let bit : bit_and (16 * n) (16 * p) ≢ 0 = (λ e.
              let nothing_left : 1 * (16 * p) ≡ 0 = rw one at (sym value ∙ e) in
              omega (arith, positive, nothing_left)) in
            let sum : n ≡ p + m / 2 * (p * 2) = size ∙ odd_half m p odd in
            let part : Unowned owner slot p =
              (λ s low high. unowned s low (omega (arith, sum, high))) in
            let (between, pushed) =
              push_block-Freed heap owner free index slot (omega arith) part some_slot
                (omega (arith, sum, fits, positive)) in
            let mid = push_block heap index (16 * slot) in
            let rest_unowned : Unowned between (slot + p) (n - p) = (λ s low high.
              pushed.outside s (inr low)
              ∙ unowned s (omega (arith, low)) (omega (arith, high, sum))) in
            rw (masked, small_loop-odd rounds index n slot heap something bit)
              (Small-pushed heap mid owner between slot p (n - p) n
                (small_loop rounds (index + 1) (16 * p * 2) (start mid (slot + p) (n - p)))
                (omega (arith, sum)) pushed
                (small_loop-Small rounds (index + 1) (m / 2) (n - p) (16 * p * 2) (slot + p) mid
                  between pushed.free (omega arith) (rw next (omega (arith, sum)))
                  (omega (arith, next)) rest_unowned (λ e. some_slot (omega (arith, e)))
                  (omega (arith, sum, fits))))
      ]
    ]
