-- ===== src/CompHeap/Remainder.antt =====
-- `comp_heap_dealloc` of core/comp_heap.cpp, of an allocation that is not a multiple of 16 bytes.
use toy_language.Base.{
  ltb, ◌==◌, ==_ne, if◌then◌else◌, ltb→le, le→ltb, ==_iff, Bool-cases, undefined, ℕ, zero, suc, ◌+◌,
  ◌-◌, ◌*◌, ◌/◌, ◌%◌, ◌^◌, ◌≤◌, ◌<◌, bit_and, ◌≡◌, refl, sym, ap, ◌∙◌, ◌≢◌, inl, inr, false, arith,
}
use native.Mathlib.Decide.{dec_lt, ℕ_discrete}
use native.Mathlib.Nat.{pow-suc, div-eq_of_lt, zero-mul}
use toy_language.Base.Bits.{bit_and_high}
use toy_language.CompHeap.{
  CompHeap, Rest, freelist_count, push_block, small_loop, large_loop, comp_heap_add_to_freelist,
  comp_heap_dealloc,
}

-- The bit of a block is set in sizes of at least that only.
bit_le : (k size : ℕ) → bit_and size (2 ^ k) ≢ 0 → 2 ^ k ≤ size
bit_le k size bit = elim (dec_lt size (2 ^ k)) [
  | no above ↦ omega arith
  | yes below ↦
      let single : 2 ^ k ≡ 1 * 2 ^ k = omega arith in
      let quotient : size / 2 ^ k ≡ 0 = div-eq_of_lt below in
      let value : bit_and size (2 ^ k) ≡ 0 =
        ap (bit_and size) single ∙ bit_and_high k 1 size ∙ rw quotient (zero-mul (2 ^ k)) in
      absurd (bit value)
]

-- The first loop leaves what is over a multiple of 16.
small_loop-remainder :
    (rounds index k mask : ℕ) (rest : Rest)
    → mask ≡ 2 ^ k
    → mask % 16 ≡ 0
    → (small_loop rounds index mask rest).size % 16 ≡ rest.size % 16
unfolding small_loop
small_loop-remainder zero index k mask rest power multiple = refl
small_loop-remainder (suc rounds) index k mask rest power multiple =
    let next : mask * 2 ≡ 2 ^ suc k = omega (arith, power, pow-suc 2 k) in
    let again : mask * 2 % 16 ≡ 0 = omega arith in
    elim (ℕ_discrete rest.size 0) [
      | yes nothing ↦ rw ((==_iff rest.size 0).1 nothing) refl
      | no something ↦ elim (ℕ_discrete (bit_and rest.size mask) 0) [
        | yes clear ↦
            rw (==_ne rest.size 0 something, (==_iff (bit_and rest.size mask) 0).1 clear)
              (small_loop-remainder rounds (index + 1) (suc k) (mask * 2) rest next again)
        | no bit ↦
            let enough : mask ≤ rest.size = rw power (bit_le k rest.size (rw power at bit)) in
            let after : (rest.size - mask) % 16 ≡ rest.size % 16 = omega arith in
            rw (==_ne rest.size 0 something, ==_ne (bit_and rest.size mask) 0 bit)
              (small_loop-remainder rounds (index + 1) (suc k) (mask * 2)
                  (record {
                    heap = push_block rest.heap index rest.curr;
                    curr = rest.curr + mask;
                    size = rest.size - mask;
                  })
                  next again
                ∙ after)
      ]
    ]

-- The second loop does not end with a size that is no multiple of 16.
large_loop-undefined :
    (fuel : ℕ) (rest : Rest) → rest.size % 16 ≢ 0 → large_loop fuel rest ≡ undefined
unfolding large_loop
large_loop-undefined zero rest odd = refl
large_loop-undefined (suc fuel) rest odd =
    let something : rest.size ≢ 0 = (λ e. odd (omega (arith, e))) in
    elim (Bool-cases (ltb rest.size (2 ^ 18))) [
      | inl little ↦ rw (==_ne rest.size 0 something, little) refl
      | inr much ↦
          let enough = ltb→le rest.size (2 ^ 18) much in
          rw (==_ne rest.size 0 something, much)
            (large_loop-undefined fuel
              (record {
                heap = push_block rest.heap 13 rest.curr;
                curr = rest.curr + 2 ^ 18;
                size = rest.size - 2 ^ 18;
              })
              (λ e. odd (omega (arith, e, enough))))
    ]

-- `comp_heap_add_to_freelist` of memory whose size is not a multiple of 16 fails one of its assertions.
pub comp_heap_add_to_freelist-undefined :
    (heap : CompHeap) (begin end : ℕ)
    → (end - begin) % 16 ≢ 0
    → comp_heap_add_to_freelist heap begin end ≡ undefined
unfolding comp_heap_add_to_freelist
comp_heap_add_to_freelist-undefined heap begin end odd =
    let rest =
      small_loop freelist_count 0 16 (record { heap = heap; curr = begin; size = end - begin }) in
    let same =
      small_loop-remainder freelist_count 0 4 16
        (record { heap = heap; curr = begin; size = end - begin }) refl refl in
    let stuck = large_loop-undefined (end - begin + 1) rest (λ e. odd (sym same ∙ e)) in
    elim (Bool-cases (ltb heap.used end)) [
      | inl past ↦ rw past refl
      | inr inside ↦ elim (Bool-cases (begin % 16 == 0)) [
        | inr other ↦ rw (inside, other) refl
        | inl aligned ↦ elim (Bool-cases (ltb (end - begin) 16)) [
          | inl few ↦ rw (inside, aligned, few) refl
          | inr enough ↦ rw (inside, aligned, enough) stuck
        ]
      ]
    ]

-- `comp_heap_dealloc` of an allocation that is not a multiple of 16 bytes, and not the last one in the
-- heap, fails an assertion.
pub comp_heap_dealloc-undefined :
    (heap : CompHeap) (begin end : ℕ)
    → begin < end
    → end + 16 ≤ heap.used
    → (end - begin) % 16 ≢ 0
    → comp_heap_dealloc heap begin end ≡ undefined
unfolding comp_heap_dealloc
comp_heap_dealloc-undefined heap begin end filled inside odd =
    let cleared : CompHeap = record heap {
      begin_bitmap = λ s. if s == begin / 16 then false else heap.begin_bitmap s;
    } in
    let stuck = comp_heap_add_to_freelist-undefined cleared begin end odd in
    let apart : (begin == end) ≡ false = ==_ne begin end (λ e. omega (arith, e, filled)) in
    let far = le→ltb (heap.used - end) 16 (omega arith) in
    elim (Bool-cases (begin == 0)) [
      | inl null ↦ rw (apart, null) refl
      | inr some_slot ↦ elim (Bool-cases (ltb heap.used end)) [
        | inl past ↦ rw (apart, some_slot, past) refl
        | inr within ↦ elim (Bool-cases (heap.begin_bitmap (begin / 16))) [
          | inr unmarked ↦ rw (apart, some_slot, within, unmarked) refl
          | inl marked ↦ elim (Bool-cases (heap.header_bitmap (begin / 16))) [
            | inl headed ↦ rw (apart, some_slot, within, marked, headed) refl
            | inr bare ↦ elim (Bool-cases (heap.leak_bitmap (begin / 16))) [
              | inl leaked ↦ rw (apart, some_slot, within, marked, bare, leaked) refl
              | inr kept ↦ rw (apart, some_slot, within, marked, bare, kept, far) stuck
            ]
          ]
        ]
      ]
    ]
