-- ===== src/CompValues/Bitwise/Exact.antt =====
-- `bitwise_add` to `bitwise_mod` of core/comp_values.cpp against exact integers.
use toy_language.Base.{
  Bool-cases, returns, ◌>>=◌, length, Width, w8, w16, w32, w64, bits, FitsU, FitsS, to_u,
  to_s-FitsS, ℤ, pos, ℕ, ◌/◌, ◌≡◌, refl, sym, ap, ◌∙◌, ◌≢◌, ◌⊎◌, inl, inr, true, false, Option,
  none, some, List, arith,
}
use toy_language.Base.Bytes.{
  IsBytes, from_bytes, to_bytes, length-to_bytes, from_bytes-lt, copy_to-all,
}
use mathlib.Core.Option
use mathlib.Core.Bool.{false≢true}
use native.Mathlib.Nat.{le_trans}
use toy_language.CompValues.Bitwise.{
  BinaryArithmeticOp, add, sub, mul, div, modulo, signed_op, unsigned_op, store_signed,
  store_unsigned, bitwise_binary_arithmetic_op,
}
use toy_language.CompValues.Bitwise.Arithmetic.{
  exact, within, kept, value_of, IsRegular, Stores, signed_op-eq, unsigned_op-eq, store_signed-eq,
  store_unsigned-eq, stored_signed, stored_unsigned,
}

widen : (w : Width) (v : ℤ) → FitsS w v → FitsS w64 v
widen w8 v h = omega arith
widen w16 v h = omega arith
widen w32 v h = omega arith
widen w64 v h = h

regular :
    (op : BinaryArithmeticOp) (w : Width) (a b : ℤ)
    → FitsS w a
    → FitsS w b
    → (w ≢ w64) ⊎ IsRegular op a b
    → IsRegular op a b
regular op w a b p q (inr r) = r
regular op w64 a b p q (inl n) = absurd (n refl)
regular add w a b p q (inl n) = tt
regular mul w a b p q (inl n) = tt
regular sub w8 a b p q (inl n) = inr (ground arith)
regular sub w16 a b p q (inl n) = inr (ground arith)
regular sub w32 a b p q (inl n) = inr (ground arith)
regular div w8 a b p q (inl n) = inl (ground arith)
regular div w16 a b p q (inl n) = inl (ground arith)
regular div w32 a b p q (inl n) = inl (ground arith)
regular modulo w8 a b p q (inl n) = inl (ground arith)
regular modulo w16 a b p q (inl n) = inl (ground arith)
regular modulo w32 a b p q (inl n) = inl (ground arith)

within→FitsS : (w : Width) (v : ℤ) → within true w v ≡ true → FitsS w v
within→FitsS w v h = ground arith

FitsS→within : (w : Width) (v : ℤ) → FitsS w v → within true w v ≡ true
FitsS→within w v h = ground arith

store_missing : (w : Width) (dst : List ℕ) → store_signed (bits w) dst none ≡ (false, dst)
unfolding store_signed
store_missing w dst = refl

store-Stores :
    (w : Width) (dst : List ℕ) (result : Option ℤ)
    → length dst ≡ bits w / 8
    → Stores true w dst result (returns (store_signed (bits w) dst (kept true w64 result)))
store-Stores w dst result size = record {
  missing = λ e. rw e (ap returns (store_missing w dst));
  fits = λ v e h.
      let fit = within→FitsS w v h in
      let wide = widen w v fit in
      let bytes = to_bytes (length dst) (to_u w64 v) in
      (
        bytes,
        rw (
          e,
          FitsS→within w64 v wide,
          store_signed-eq w dst v wide,
          h,
          copy_to-all dst bytes (sym (length-to_bytes (length dst) (to_u w64 v))),
        ),
        length-to_bytes (length dst) (to_u w64 v),
        rw size (stored_signed w v fit),
      );
  too_large = λ v e h. rw e (elim (Bool-cases (within true w64 v)) [
    | inr none_kept ↦ rw none_kept (ap returns (store_missing w dst))
    | inl wide ↦ rw (wide, store_signed-eq w dst v (within→FitsS w64 v wide), h)
  ]);
}

runs :
    (op : BinaryArithmeticOp) (w : Width) (dst lhs rhs : List ℕ)
    → bitwise_binary_arithmetic_op op (bits w) true dst lhs rhs ≡ (
        signed_op op (value_of true w lhs) (value_of true w rhs) >>= λ r.
        returns (store_signed (bits w) dst r))
unfolding bitwise_binary_arithmetic_op
runs op w8 dst lhs rhs = refl
runs op w16 dst lhs rhs = refl
runs op w32 dst lhs rhs = refl
runs op w64 dst lhs rhs = refl

-- With a `dst` of the width, signed arithmetic of every operation and width stores the exact
-- result where that fits, and returns `false` and leaves `dst` alone where it does not, or where
-- the divisor is 0. At 64 bits this is for operands other than 0 minus the least value and the
-- least value over -1.
pub bitwise_signed-Stores :
    (op : BinaryArithmeticOp) (w : Width) (dst lhs rhs : List ℕ)
    → length dst ≡ bits w / 8
    → (w ≢ w64) ⊎ IsRegular op (value_of true w lhs) (value_of true w rhs)
    → Stores true w dst
        (exact op (value_of true w lhs) (value_of true w rhs))
        (bitwise_binary_arithmetic_op op (bits w) true dst lhs rhs)
bitwise_signed-Stores op w dst lhs rhs size r =
    let a = value_of true w lhs in
    let b = value_of true w rhs in
    let p = to_s-FitsS w (from_bytes lhs) in
    let q = to_s-FitsS w (from_bytes rhs) in
    let run : bitwise_binary_arithmetic_op op (bits w) true dst lhs rhs
        ≡ returns (store_signed (bits w) dst (kept true w64 (exact op a b))) =
      runs op w dst lhs rhs
      ∙ rw (signed_op-eq op a b (widen w a p) (widen w b q) (regular op w a b p q r)) in
    rw run (store-Stores w dst (exact op a b) size)

unsigned_runs :
    (op : BinaryArithmeticOp) (w : Width) (dst lhs rhs : List ℕ)
    → bitwise_binary_arithmetic_op op (bits w) false dst lhs rhs
      ≡ returns (store_unsigned (bits w) dst (unsigned_op op (from_bytes lhs) (from_bytes rhs)))
unfolding bitwise_binary_arithmetic_op
unsigned_runs op w dst lhs rhs = refl

bytes-FitsU :
    (w : Width) (bytes : List ℕ)
    → IsBytes bytes
    → length bytes ≡ bits w / 8
    → FitsU w64 (from_bytes bytes)
bytes-FitsU w8 bytes h e = le_trans (rw e at (from_bytes-lt bytes h)) (omega arith)
bytes-FitsU w16 bytes h e = le_trans (rw e at (from_bytes-lt bytes h)) (omega arith)
bytes-FitsU w32 bytes h e = le_trans (rw e at (from_bytes-lt bytes h)) (omega arith)
bytes-FitsU w64 bytes h e = le_trans (rw e at (from_bytes-lt bytes h)) (omega arith)

widen_u : (w : Width) (v : ℤ) → within false w v ≡ true → within false w64 v ≡ true
widen_u w8 v h = ground arith
widen_u w16 v h = ground arith
widen_u w32 v h = ground arith
widen_u w64 v h = h

within→FitsU : (w : Width) (n : ℕ) → within false w (pos n) ≡ true → FitsU w n
within→FitsU w8 n h = ground arith
within→FitsU w16 n h = ground arith
within→FitsU w32 n h = ground arith
within→FitsU w64 n h = ground arith

value_eq : (v u : ℤ) → some v ≡ some u → v ≡ u
value_eq v u e = cc

no_value : (v : ℤ) → none ≡ kept false w64 (some v) → within false w64 v ≡ false
no_value v e = ground arith

a_value :
    (n : ℕ) (v : ℤ)
    → some (pos n) ≡ kept false w64 (some v)
    → (v ≡ pos n) × (within false w64 (pos n) ≡ true)
a_value n v e = ground arith

-- Of the unsigned result and of what is kept of the exact one, the store makes the same.
store_unsigned-Stores :
    (w : Width) (dst : List ℕ) (found : Option ℕ) (result : Option ℤ)
    → length dst ≡ bits w / 8
    → Option.map pos found ≡ kept false w64 result
    → Stores false w dst result (returns (store_unsigned (bits w) dst found))
unfolding Option.map store_unsigned
store_unsigned-Stores w dst none none size e = record {
  missing = λ r. refl;
  fits = λ v r h. cc;
  too_large = λ v r h. cc;
}
store_unsigned-Stores w dst (some n) none size e = cc
store_unsigned-Stores w dst none (some v) size e = record {
  missing = λ r. refl;
  fits = λ u r h.
      absurd
        (false≢true (sym (no_value v e) ∙ widen_u w v (ap (within false w) (value_eq v u r) ∙ h)));
  too_large = λ u r h. refl;
}
store_unsigned-Stores w dst (some n) (some v) size e =
    let (same, wide) = a_value n v e in
    let stored = store_unsigned-eq w dst n (within→FitsU w64 n wide) in
    let bytes = to_bytes (length dst) n in
    record {
      missing = λ r. cc;
      fits = λ u r h.
          let is_n : u ≡ pos n = sym (value_eq v u r) ∙ same in
          let fit : within false w (pos n) ≡ true = rw is_n at h in
          (
            bytes,
            ap returns
                (stored ∙ rw (fit, copy_to-all dst bytes (sym (length-to_bytes (length dst) n)))),
            length-to_bytes (length dst) n,
            rw (is_n, size) (ap pos (stored_unsigned w n (within→FitsU w n fit))),
          );
      too_large = λ u r h.
          let is_n : u ≡ pos n = sym (value_eq v u r) ∙ same in
          ap returns (stored ∙ rw (rw is_n at h));
    }

-- With operands and a `dst` of the width, unsigned arithmetic of every operation and width stores
-- the exact result where that fits, and returns `false` and leaves `dst` alone where it does not,
-- or where the divisor is 0.
pub bitwise_unsigned-Stores :
    (op : BinaryArithmeticOp) (w : Width) (dst lhs rhs : List ℕ)
    → length dst ≡ bits w / 8
    → (IsBytes lhs × (length lhs ≡ bits w / 8))
    → (IsBytes rhs × (length rhs ≡ bits w / 8))
    → Stores false w dst
        (exact op (value_of false w lhs) (value_of false w rhs))
        (bitwise_binary_arithmetic_op op (bits w) false dst lhs rhs)
bitwise_unsigned-Stores op w dst lhs rhs size (p, l) (q, m) = rw (unsigned_runs op w dst lhs rhs) (
    store_unsigned-Stores w dst (unsigned_op op (from_bytes lhs) (from_bytes rhs))
      (exact op (value_of false w lhs) (value_of false w rhs)) size
      (unsigned_op-eq op (from_bytes lhs) (from_bytes rhs) (bytes-FitsU w lhs p l)
        (bytes-FitsU w rhs q m)))
