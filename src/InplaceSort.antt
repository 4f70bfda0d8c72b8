-- ===== src/InplaceSort.antt =====
-- infra/inplace_sort.hpp: `inplace_sort` and its helpers. `begin` is a list; an index out of its
-- range is never read by the code, and reads as `none` here.
pub mod Swap
pub mod Insertion
pub mod Heap
pub mod Sort
use toy_language.Base.{
  ltb, leb, ◌==◌, if◌then◌else◌, ltb→lt, ltb→le, lt→ltb, le→ltb, leb→le, ==_iff, Bool-cases,
  Option-cases, Run, returns, panic, undefined, ◌>>=◌, ◌>>◌, panic_if, undefined_if, Returns,
  length, get_elem?, get_or, set, take, drop, replicate, length-append, length-set,
  length-replicate, get_or-set_self, get_or-set_ne, get_or-replicate, get_or_ext, Width, w8, w16,
  w32, w64, bits, modulus, half, min_s, max_s, max_u, FitsU, FitsS, to_u, to_s, wrap_s, to_u-FitsU,
  to_s-FitsS, to_s-to_u, to_u-to_s, ◌+ℤ◌, ◌-ℤ◌, ◌*ℤ◌, quot_ℤ, rem_ℤ, ℤ, pos, negsuc, pos_part,
  neg_part, sub_ℕ, ◌≤ℤ◌, ◌<ℤ◌, ltb_ℤ, leb_ℤ, neg_ℕ, +ℤ_parts, -ℤ_parts, eq_of_parts, ℕ, zero, suc,
  ◌+◌, ◌-◌, ◌*◌, ◌/◌, ◌%◌, ◌^◌, ◌≤◌, ◌<◌, bit_and, bit_or, bit_xor, ◌≡◌, refl, sym, ap, ◌∙◌, ◌≢◌,
  ◌↔◌, ◌⊎◌, inl, inr, Bool, true, false, ◌&&◌, ◌||◌, not, Option, none, some, List, [], ◌∷◌, ◌++◌,
  map, arith,
}

-- The template parameter `Comparator`: `less a b` is `Comparator::compare(a, b) < 0`. The
-- laws are those of a comparison of keys in a total order.
pub record Comparator (T : Type 0) : Type 0 where
  pub less : T → T → Bool
  pub less_asymm : (a b : T) → less a b ≡ true → less b a ≡ false
  pub less_trans : (a b d : T) → less a b ≡ false → less b d ≡ false → less a d ≡ false

unfoldable pub heap_parent : ℕ → ℕ
heap_parent index = (index + 2 ^ 64 - 1) % 2 ^ 64 / 2

unfoldable pub heap_child : ℕ → ℕ
heap_child index = (index * 2 % 2 ^ 64 + 1) % 2 ^ 64

module _ {T : Type 0} where
  unfoldable pub swap_values : Option T → Option T → List T → ℕ → ℕ → List T
  swap_values (some a) (some b) begin i j = set (set begin i b) j a
  swap_values (some a) none begin i j = begin
  swap_values none b begin i j = begin

  -- `tmp = begin[i]; begin[i] = begin[j]; begin[j] = tmp;`
  unfoldable pub swap : List T → ℕ → ℕ → List T
  unfolding swap_values
  swap begin i j = swap_values (get_elem? begin i) (get_elem? begin j) begin i j

module _ {T : Type 0} (c : Comparator T) where
  abbrev pub less_value : Option T → Option T → Bool
  less_value (some a) (some b) = c.less a b
  less_value (some a) none = false
  less_value none b = false

  -- `Comparator::compare(begin[i], begin[j]) < 0`.
  abbrev pub less_at : List T → ℕ → ℕ → Bool
  less_at begin i j = less_value (get_elem? begin i) (get_elem? begin j)

  -- The inner loop of `insertion_sort`, at `j`.
  unfoldable pub sink : ℕ → List T → List T
  sink zero begin = begin
  sink (suc j) begin =
      let rest = sink j (swap begin (suc j) j) in if less_at begin (suc j) j then rest else begin

  -- Its outer loop, at `i` with `rounds` left.
  unfoldable pub insert_from : ℕ → ℕ → List T → List T
  insert_from zero i begin = begin
  insert_from (suc rounds) i begin = insert_from rounds (i + 1) (sink i begin)

  unfoldable pub insertion_sort : ℕ → List T → List T
  unfolding sink insert_from
  insertion_sort count begin = insert_from (count - 1) 1 begin

  -- The larger of the two children.
  unfoldable pub larger_child : ℕ → List T → ℕ → ℕ
  larger_child count begin child =
      if ltb (child + 1) count && less_at begin child (child + 1) then child + 1 else child

  -- `heap_sift`, with fuel for the rounds; `root` grows in each, so `count` rounds are enough.
  unfoldable pub heap_sift_loop : ℕ → ℕ → List T → ℕ → List T
  unfolding heap_child larger_child
  heap_sift_loop zero count begin root = begin
  heap_sift_loop (suc fuel) count begin root =
      let child = larger_child count begin (heap_child root) in
      let rest = heap_sift_loop fuel count (swap begin root child) child in
      if ltb (heap_child root) count
      then if less_at begin root child then rest else begin
      else begin

  unfoldable pub heap_sift : ℕ → List T → ℕ → List T
  unfolding heap_sift_loop
  heap_sift count begin root = heap_sift_loop count count begin root

  -- The loop of `make_heap` at `curr`. The source calls `heap_sift(curr, begin, count)`: the
  -- count and the root stand in each other's place.
  unfoldable pub make_heap_from : ℕ → ℕ → List T → List T
  make_heap_from count zero begin = heap_sift 0 begin count
  make_heap_from count (suc curr) begin =
      make_heap_from count curr (heap_sift (suc curr) begin count)

  unfoldable pub make_heap : ℕ → List T → List T
  unfolding make_heap_from heap_parent
  make_heap count begin = make_heap_from count (heap_parent (count - 1)) begin

  -- `for (i = count - 1; i >= 1; i -= 1)`, at `i`.
  unfoldable pub extract_from : ℕ → List T → List T
  unfolding heap_sift swap
  extract_from zero begin = begin
  extract_from (suc i) begin = extract_from i (heap_sift (suc i) (swap begin (suc i) 0) 0)

  -- `short_cutoff` has its default, 8.
  unfoldable pub inplace_sort : List T → List T
  unfolding insertion_sort make_heap extract_from
  inplace_sort elems =
      let count = length elems in
      if leb count 8
      then insertion_sort count elems
      else extract_from (count - 1) (make_heap count elems)
