-- ===== src/CompHeap/AtEnd.antt =====
-- `comp_heap_alloc_internal` of core/comp_heap.cpp, of memory at the end of the heap.
use toy_language.Base.{
  Run, returns, ==_ne, ◌==◌, le→ltb, false, ltb, leb, ltb→le, leb→le, Bool-cases, ℕ, zero, suc, ◌+◌,
  ◌-◌, ◌*◌, ◌/◌, ◌%◌, ◌^◌, ◌≤◌, ◌<◌, ◌≡◌, refl, ◌⊎◌, inl, inr, Bool, true, false, ◌&&◌, arith,
}
use toy_language.Math.{align_to}
use toy_language.Math.Align.{next_multiple-IsNextMultiple, align_to-next_multiple, IsNextMultiple}
use native.Mathlib.Decide.{dec_le}
use native.Mathlib.Nat.{
  div-add-mod, one-le-pow, pow-le-pow_right, pow-suc, mod-eq-zero_of_dvd, dvd_trans, dvd-mul_right,
  dvd_of_mod-eq-zero,
}
use toy_language.CompHeap.{CompHeap, Commits, comp_heap_ensure_commit}

-- Memory is committed up to what is required, or nothing is.
abbrev pub CommitsTo : CompHeap → ℕ → Run (Bool × CompHeap) → Type 0
CommitsTo heap required result =
    (result ≡ returns (false, heap))
    ⊎ ((commit : ℕ) × (result ≡ returns (true, record heap { commit = commit }))
        × (required ≤ commit)
        × ((required ≤ heap.commit) ⊎ (required ≤ heap.reserve)))

pub align_to-IsNextMultiple :
    (n k : ℕ) → k ≤ 36 → n ≤ 2 ^ 60 → IsNextMultiple n (2 ^ k) (align_to n (2 ^ k))
align_to-IsNextMultiple n k h small =
    let bound : 2 ^ k ≤ 2 ^ 36 = pow-le-pow_right (omega arith) h in
    let fits : n + 2 ^ k < 2 ^ 64 = omega arith in
    rw (align_to-next_multiple n k (omega arith) fits)
      (next_multiple-IsNextMultiple n (2 ^ k) (one-le-pow k 2 (omega arith)) fits)

-- Multiples that differ are at least one apart.
multiples-apart : (m a b : ℕ) → 0 < m → a % m ≡ 0 → b % m ≡ 0 → a < b → a + m ≤ b
multiples-apart m a b positive ha hb h =
    let e = div-add-mod a m in let f = div-add-mod b m in grind arith

-- The reserve and what is committed are whole increments, each of at least 128 bytes.
pub record IsCommitted (heap : CompHeap) : Type 0 where
  pub increment_fits : 128 ≤ heap.commit_increment
  pub reserve_whole : heap.reserve % heap.commit_increment ≡ 0
  pub commit_whole : heap.commit % heap.commit_increment ≡ 0

-- The assertions of `comp_heap_ensure_commit`.
new_commit-fits :
    (heap : CompHeap) (required new_commit : ℕ)
    → IsCommitted heap
    → IsNextMultiple required heap.commit_increment new_commit
    → required ≤ heap.reserve
    → heap.commit < required
    → (ltb heap.reserve new_commit ≡ false) × ((new_commit / 128 == heap.commit / 128) ≡ false)
new_commit-fits heap required new_commit is next within behind =
    let unit = heap.commit_increment in
    let positive : 0 < unit = omega (arith, is.increment_fits) in
    let further =
      multiples-apart unit heap.commit new_commit positive is.commit_whole next.multiple
        (omega (arith, next.above, behind)) in
    let bounded : new_commit ≤ heap.reserve = elim (dec_le new_commit heap.reserve) [
      | yes h ↦ h
      | no h ↦
          let past =
            multiples-apart unit heap.reserve new_commit positive is.reserve_whole next.multiple
              (omega arith) in
          absurd (omega (arith, past, next.near, within))
    ] in
    (
      le→ltb heap.reserve new_commit bounded,
      ==_ne (new_commit / 128) (heap.commit / 128)
          (λ e. omega (arith, e, further, is.increment_fits)),
    )

pub comp_heap_ensure_commit-CommitsTo :
    (os : Commits) (heap : CompHeap) (c required : ℕ)
    → IsCommitted heap
    → heap.commit_increment ≡ 2 ^ c
    → c ≤ 36
    → heap.reserve ≤ 2 ^ 36
    → CommitsTo heap required (comp_heap_ensure_commit os heap required)
unfolding comp_heap_ensure_commit
comp_heap_ensure_commit-CommitsTo os heap c required is power low reserve =
    let new_commit = align_to required heap.commit_increment in
    let old_bitmap = heap.commit / 128 in
    let count = new_commit / 128 - old_bitmap in
    elim (Bool-cases (leb required heap.commit)) [
      | inl enough ↦ inr (
        heap.commit,
        rw enough refl,
        leb→le required heap.commit enough,
        inl (leb→le required heap.commit enough),
      )
      | inr more ↦ elim (Bool-cases (ltb heap.reserve required)) [
        | inl past ↦ inl (rw (more, past) refl)
        | inr room ↦
            let within = ltb→le heap.reserve required room in
            let behind : heap.commit < required = ground arith in
            let multiple : IsNextMultiple required heap.commit_increment new_commit =
              rw power (align_to-IsNextMultiple required c low (omega arith)) in
            let (inside, apart) =
              new_commit-fits heap required new_commit is multiple within behind in
            elim (Bool-cases (os.heap_commit heap.commit (new_commit - heap.commit))) [
              | inr failed ↦ inl (rw (more, room, inside, failed) refl)
              | inl first ↦
                  elim (Bool-cases (
                    os.bitmap_commit 0 old_bitmap count
                    && (os.bitmap_commit 1 old_bitmap count
                        && os.bitmap_commit 2 old_bitmap count))) [
                          | inr failed ↦ inl (rw (more, room, inside, first, apart, failed) refl)
                          | inl second ↦
                              let above : required ≤ new_commit = multiple.above in
                              inr (
                                new_commit,
                                rw (more, room, inside, first, apart, second) refl,
                                above,
                                inr within,
                              )
                        ]
            ]
      ]
    ]

-- An address that is aligned, as the heap requires, is that of a slot.
pub next_slot_aligned : (n a r : ℕ) → n % 16 ≡ 0 → IsNextMultiple n (2 ^ a) r → r % 16 ≡ 0
next_slot_aligned n zero r aligned next = omega arith
next_slot_aligned n (suc zero) r aligned next = omega arith
next_slot_aligned n (suc (suc zero)) r aligned next = omega arith
next_slot_aligned n (suc (suc (suc zero))) r aligned next = omega arith
next_slot_aligned n (suc (suc (suc (suc b)))) r aligned next =
    let p = 2 ^ b in
    let power : 2 ^ suc (suc (suc (suc b))) ≡ 16 * p = omega (
      arith,
      pow-suc 2 (suc (suc (suc b))),
      pow-suc 2 (suc (suc b)),
      pow-suc 2 (suc b),
      pow-suc 2 b,
    ) in
    mod-eq-zero_of_dvd 16
      (dvd_trans 16 (dvd-mul_right 16 p) (dvd_of_mod-eq-zero (16 * p) (rw power at next.multiple)))
