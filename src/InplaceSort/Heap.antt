-- ===== src/InplaceSort/Heap.antt =====
-- `heap_sift` of infra/inplace_sort.hpp and the order of a heap.
use toy_language.Base.{
  ltb, ◌==◌, if◌then◌else◌, ltb→lt, ltb→le, Bool-cases, length, get_elem?, ℕ, zero, suc, ◌+◌, ◌*◌,
  ◌^◌, ◌≤◌, ◌<◌, ◌≡◌, refl, ◌≢◌, ◌⊎◌, inl, inr, true, false, Option, none, some, List, arith,
}
use toy_language.InplaceSort.{
  Comparator, heap_child, swap, less_value, less_at, larger_child, heap_sift_loop, heap_sift,
}
use toy_language.InplaceSort.Swap.{get_elem?-some, get_elem?-swap, length-swap}

-- `child` stands directly below `parent`.
abbrev pub Below : ℕ → ℕ → Type 0
Below parent child = (child ≡ 2 * parent + 1) ⊎ (child ≡ 2 * parent + 2)

heap_child_lem : (root : ℕ) → root < 2 ^ 63 → heap_child root ≡ 2 * root + 1
unfolding heap_child
heap_child_lem root h = omega arith

module _ {T : Type 0} (c : Comparator T) (count : ℕ) where
  -- Among the first `count` elements no parent at or after `root` is less than a child of it.
  abbrev pub IsHeapFrom : ℕ → List T → Type 0
  IsHeapFrom root begin =
      (parent child : ℕ)
      → root ≤ parent
      → Below parent child
      → child < count
      → less_at c begin parent child ≡ false

  -- The state of the loop at `hole`: a heap but for the element at `hole` over its children.
  record Sifting (root hole : ℕ) (begin : List T) : Type 0 where
    elsewhere :
        (parent child : ℕ)
        → root ≤ parent
        → parent ≢ hole
        → Below parent child
        → child < count
        → less_at c begin parent child ≡ false
    across :
        (parent child : ℕ)
        → root ≤ parent
        → Below parent hole
        → Below hole child
        → child < count
        → less_at c begin parent child ≡ false

  -- `child` is a greatest one of the children of `root`.
  record IsGreatest (root child : ℕ) (begin : List T) : Type 0 where
    below : Below root child
    inside : child < count
    greatest : (other : ℕ) → Below root other → other < count → less_at c begin child other ≡ false

  less_value_irrefl : (u : Option T) → less_value c u u ≡ false
  less_value_irrefl none = refl
  less_value_irrefl (some a) = ground (arith, c.less_asymm a a)

  less_value_asymm : (u v : Option T) → less_value c u v ≡ true → less_value c v u ≡ false
  less_value_asymm (some a) (some b) h = c.less_asymm a b h
  less_value_asymm (some a) none h = refl
  less_value_asymm none v h = cc

  less_value_trans :
      (u v w : Option T) (b : T)
      → v ≡ some b
      → less_value c u v ≡ false
      → less_value c v w ≡ false
      → less_value c u w ≡ false
  less_value_trans (some a) (some b) (some d) b' e p q = c.less_trans a b d p q
  less_value_trans none v w b e p q = refl
  less_value_trans (some a) v none b e p q = refl
  less_value_trans (some a) none (some d) b e p q = cc

  larger_child-IsGreatest :
      (begin : List T) (root : ℕ)
      → 2 * root + 1 < count
      → IsGreatest root (larger_child c count begin (2 * root + 1)) begin
  unfolding larger_child
  larger_child-IsGreatest begin root h =
      let first = get_elem? begin (2 * root + 1) in
      let second = get_elem? begin (2 * root + 1 + 1) in
      record {
        below = ground arith;
        inside = ground arith;
        greatest = λ other b q. ground (
          arith,
          less_value_irrefl first,
          less_value_irrefl second,
          less_value_asymm first second,
        );
      }

  -- The element at the hole and its greatest child change places: the hole moves to the child.
  Sifting-swap :
      (begin : List T) (root hole child : ℕ)
      → count ≤ length begin
      → root ≤ hole
      → hole < count
      → IsGreatest hole child begin
      → less_at c begin hole child ≡ true
      → Sifting root hole begin
      → Sifting root child (swap begin hole child)
  Sifting-swap begin root hole child size from into g less s = record {
    elsewhere = λ p q a b d e.
        rw (at p, at q)
          (ground (arith, s.elsewhere p q a, s.across p child a, g.greatest q, asymm));
    across =
        λ p q a b d e. rw (at p, at q) (ground (arith, s.elsewhere child q, g.inside, g.below));
  }
    where
      asymm : less_at c begin child hole ≡ false
      asymm = less_value_asymm (get_elem? begin hole) (get_elem? begin child) less

      at :
          (k : ℕ)
          → get_elem? (swap begin hole child) k ≡ (
              if k == hole
              then get_elem? begin child
              else if k == child
              then get_elem? begin hole
              else get_elem? begin k)
      at k = get_elem?-swap begin hole child k (omega arith) (omega (arith, g.inside))

  -- Where the hole is not less than its greatest child, nothing is left to do.
  Sifting-done :
      (begin : List T) (root hole child : ℕ)
      → count ≤ length begin
      → IsGreatest hole child begin
      → less_at c begin hole child ≡ false
      → Sifting root hole begin
      → IsHeapFrom root begin
  Sifting-done begin root hole child size g done s p q a b d =
      let (x, there) = get_elem?-some begin child (omega (arith, g.inside)) in
      ground (
        arith,
        s.elsewhere p q a,
        g.greatest q,
        less_value_trans (get_elem? begin hole) (get_elem? begin child) (get_elem? begin q) x there
            done,
      )

  -- A hole with no child.
  Sifting-leaf :
      (begin : List T) (root hole : ℕ)
      → count ≤ 2 * hole + 1
      → Sifting root hole begin
      → IsHeapFrom root begin
  Sifting-leaf begin root hole leaf s p q a b d = ground (arith, s.elsewhere p q a)

  heap_sift_loop-IsHeapFrom :
      (fuel root hole : ℕ) (begin : List T)
      → count ≤ hole + fuel
      → count < 2 ^ 63
      → hole < 2 ^ 63
      → root ≤ hole
      → count ≤ length begin
      → Sifting root hole begin
      → IsHeapFrom root (heap_sift_loop c fuel count begin hole)
  unfolding heap_sift_loop
  heap_sift_loop-IsHeapFrom zero root hole begin f small h r size s =
      Sifting-leaf begin root hole (omega arith) s
  heap_sift_loop-IsHeapFrom (suc fuel) root hole begin f small h r size s =
      rw (heap_child_lem hole h) (elim (Bool-cases (ltb (2 * hole + 1) count)) [
        | inr leaf ↦ rw leaf (Sifting-leaf begin root hole (ltb→le _ _ leaf) s)
        | inl inner ↦
            let child = larger_child c count begin (2 * hole + 1) in
            let g = larger_child-IsGreatest begin hole (ltb→lt _ _ inner) in
            rw inner (elim (Bool-cases (less_at c begin hole child)) [
              | inr done ↦ rw done (Sifting-done begin root hole child size g done s)
              | inl less ↦ rw less (
                  heap_sift_loop-IsHeapFrom fuel root child (swap begin hole child)
                    (omega (arith, g.below)) small (omega (arith, g.inside))
                    (omega (arith, g.below)) (rw (length-swap begin hole child) size)
                    (Sifting-swap begin root hole child size r (omega (arith, g.inside, g.below)) g
                      less s))
            ])
      ])

  -- For `count` and `root` below 2^63 and a list of at least `count` elements, `heap_sift` at
  -- `root` makes a heap of what stands at and after `root`, if all after `root` is one.
  pub heap_sift-IsHeapFrom :
      (root : ℕ) (begin : List T)
      → count < 2 ^ 63
      → root < 2 ^ 63
      → count ≤ length begin
      → IsHeapFrom (suc root) begin
      → IsHeapFrom root (heap_sift c count begin root)
  unfolding heap_sift
  heap_sift-IsHeapFrom root begin small h size heap =
      heap_sift_loop-IsHeapFrom count root root begin (omega arith) small h (omega arith) size
        (record {
          elsewhere = λ p q a ne b d. heap p q (omega arith) b d;
          across = λ p q a b d e. absurd (omega arith);
        })
