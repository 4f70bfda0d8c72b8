-- ===== src/Lexer/Character/Utf8.antt =====
-- `scan_utf8_char` of core/parse.cpp against the encoding of UTF-8.
use toy_language.Base.{
  ltb, ◌==◌, if◌then◌else◌, lt→ltb, le→ltb, bits, ℕ, ◌+◌, ◌*◌, ◌/◌, ◌%◌, ◌^◌, ◌≤◌, ◌<◌, bit_and,
  bit_or, ◌≡◌, refl, ap, ◌∙◌, true, false, List, [], ◌∷◌, ◌++◌, arith,
}
use toy_language.Base.Bits.{bit_and_low, bit_and_high, bit_or_field}
use native.Mathlib.Decide.{dec_lt}
use toy_language.Lexer.{scanned}
use toy_language.Lexer.Character.{surrogate_loop, scan_utf8_char_surrogates, scan_utf8_char}

-- The code units of a code point: as many as its size asks for.
abbrev pub encode_utf8 : ℕ → List ℕ
encode_utf8 c =
    if ltb c (2 ^ 7)
    then c ∷ []
    else if ltb c (2 ^ 11)
    then (0xc0 + c / 2 ^ 6) ∷ (0x80 + c % 64) ∷ []
    else if ltb c (2 ^ 16)
    then (0xe0 + c / 2 ^ 12) ∷ (0x80 + c / 2 ^ 6 % 64) ∷ (0x80 + c % 64) ∷ []
    else (0xf0 + c / 2 ^ 18)
      ∷ (0x80 + c / 2 ^ 12 % 64)
      ∷ (0x80 + c / 2 ^ 6 % 64)
      ∷ (0x80 + c % 64)
      ∷ []

and_80 : (b : ℕ) → bit_and b 0x80 ≡ b / 2 ^ 7 % 2 * 2 ^ 7
and_80 b = bit_and_high 7 1 b

and_c0 : (b : ℕ) → bit_and b 0xc0 ≡ b / 2 ^ 6 % 2 ^ 2 * 2 ^ 6
and_c0 b = bit_and_high 6 2 b

and_e0 : (b : ℕ) → bit_and b 0xe0 ≡ b / 2 ^ 5 % 2 ^ 3 * 2 ^ 5
and_e0 b = bit_and_high 5 3 b

and_f0 : (b : ℕ) → bit_and b 0xf0 ≡ b / 2 ^ 4 % 2 ^ 4 * 2 ^ 4
and_f0 b = bit_and_high 4 4 b

and_f8 : (b : ℕ) → bit_and b 0xf8 ≡ b / 2 ^ 3 % 2 ^ 5 * 2 ^ 3
and_f8 b = bit_and_high 3 5 b

and_07 : (b : ℕ) → bit_and b 0x07 ≡ b % 2 ^ 3
and_07 b = bit_and_low 3 b

and_0f : (b : ℕ) → bit_and b 0x0f ≡ b % 2 ^ 4
and_0f b = bit_and_low 4 b

and_1f : (b : ℕ) → bit_and b 0x1f ≡ b % 2 ^ 5
and_1f b = bit_and_low 5 b

and_3f : (b : ℕ) → bit_and b 0x3f ≡ b % 2 ^ 6
and_3f b = bit_and_low 6 b

one_surrogate : (q y : ℕ) → y < 64 → bit_or (q * 2 ^ 6) (y * 2 ^ 0 % 2 ^ 32) ≡ q * 64 + y
one_surrogate q y h = rw (let e : y * 2 ^ 0 % 2 ^ 32 ≡ y = omega arith in e) (bit_or_field 6 q y h)

two_surrogates :
    (q y : ℕ) → y < 64 → bit_or (q * 2 ^ 12) (y * 2 ^ 6 % 2 ^ 32) ≡ (q * 64 + y) * 2 ^ 6
two_surrogates q y h =
    rw (let e : y * 2 ^ 6 % 2 ^ 32 ≡ y * 2 ^ 6 = omega arith in e)
      (bit_or_field 12 q (y * 2 ^ 6) (omega arith) ∙ omega arith)

three_surrogates :
    (q y : ℕ) → y < 64 → bit_or (q * 2 ^ 18) (y * 2 ^ 12 % 2 ^ 32) ≡ (q * 64 + y) * 2 ^ 12
three_surrogates q y h =
    rw (let e : y * 2 ^ 12 % 2 ^ 32 ≡ y * 2 ^ 12 = omega arith in e)
      (bit_or_field 18 q (y * 2 ^ 12) (omega arith) ∙ omega arith)

lead : (b : ℕ) → 128 ≤ b → b < 256 → (bit_and b 0x80 == 0) ≡ false
lead b h k = rw (and_80 b) (ground arith)

surrogate :
    (y : ℕ) → y < 64 → ((bit_and (0x80 + y) 0xc0 == 0x80) ≡ true) × (bit_and (0x80 + y) 0x3f ≡ y)
surrogate y h = (rw (and_c0 (0x80 + y)) (ground arith), and_3f (0x80 + y) ∙ omega arith)

lead_of_two :
    (x : ℕ) → x < 32 → ((bit_and (0xc0 + x) 0xe0 == 0xc0) ≡ true) × (bit_and (0xc0 + x) 0x1f ≡ x)
lead_of_two x h = (rw (and_e0 (0xc0 + x)) (ground arith), and_1f (0xc0 + x) ∙ omega arith)

lead_of_three :
    (x : ℕ)
    → x < 16
    → ((bit_and (0xe0 + x) 0xe0 == 0xc0) ≡ false)
      × ((bit_and (0xe0 + x) 0xf0 == 0xe0) ≡ true)
      × (bit_and (0xe0 + x) 0x0f ≡ x)
lead_of_three x h = (
  rw (and_e0 (0xe0 + x)) (ground arith),
  rw (and_f0 (0xe0 + x)) (ground arith),
  and_0f (0xe0 + x) ∙ omega arith,
)

lead_of_four :
    (x : ℕ)
    → x < 8
    → ((bit_and (0xf0 + x) 0xe0 == 0xc0) ≡ false)
      × ((bit_and (0xf0 + x) 0xf0 == 0xe0) ≡ false)
      × ((bit_and (0xf0 + x) 0xf8 == 0xf0) ≡ true)
      × (bit_and (0xf0 + x) 0x07 ≡ x)
lead_of_four x h = (
  rw (and_e0 (0xf0 + x)) (ground arith),
  rw (and_f0 (0xf0 + x)) (ground arith),
  rw (and_f8 (0xf0 + x)) (ground arith),
  and_07 (0xf0 + x) ∙ omega arith,
)

scan_two :
    (x y : ℕ) (rest : List ℕ)
    → x < 32
    → y < 64
    → scan_utf8_char ((0xc0 + x) ∷ (0x80 + y) ∷ rest) ≡ scanned (x * 64 + y) rest
unfolding scan_utf8_char scan_utf8_char_surrogates surrogate_loop
scan_two x y rest h k =
    let (two, bits) = lead_of_two x h in
    let (good, low) = surrogate y k in
    rw (lead (0xc0 + x) (omega arith) (omega arith), two, good, bits, low, one_surrogate x y k) refl

scan_three :
    (x y z : ℕ) (rest : List ℕ)
    → x < 16
    → y < 64
    → z < 64
    → scan_utf8_char ((0xe0 + x) ∷ (0x80 + y) ∷ (0x80 + z) ∷ rest)
      ≡ scanned ((x * 64 + y) * 64 + z) rest
unfolding scan_utf8_char scan_utf8_char_surrogates surrogate_loop
scan_three x y z rest h k l =
    let (two, three, bits) = lead_of_three x h in
    let (good, low) = surrogate y k in
    let (good', low') = surrogate z l in
    rw
      (
        lead (0xe0 + x) (omega arith) (omega arith),
        two,
        three,
        good,
        good',
        bits,
        low,
        low',
        two_surrogates x y k,
        one_surrogate (x * 64 + y) z l,
      )
      refl

scan_four :
    (x y z u : ℕ) (rest : List ℕ)
    → x < 8
    → y < 64
    → z < 64
    → u < 64
    → scan_utf8_char ((0xf0 + x) ∷ (0x80 + y) ∷ (0x80 + z) ∷ (0x80 + u) ∷ rest)
      ≡ scanned (((x * 64 + y) * 64 + z) * 64 + u) rest
unfolding scan_utf8_char scan_utf8_char_surrogates surrogate_loop
scan_four x y z u rest h k l m =
    let (two, three, four, bits) = lead_of_four x h in
    let (good, low) = surrogate y k in
    let (good', low') = surrogate z l in
    let (good'', low'') = surrogate u m in
    rw
      (
        lead (0xf0 + x) (omega arith) (omega arith),
        two,
        three,
        four,
        good,
        good',
        good'',
        bits,
        low,
        low',
        low'',
        three_surrogates x y k,
        two_surrogates (x * 64 + y) z l,
        one_surrogate ((x * 64 + y) * 64 + z) u m,
      )
      refl

scan_one : (c : ℕ) (rest : List ℕ) → c < 128 → scan_utf8_char (c ∷ rest) ≡ scanned c rest
unfolding scan_utf8_char
scan_one c rest h =
    rw (let e : (bit_and c 0x80 == 0) ≡ true = rw (and_80 c) (ground arith) in e) refl

-- Reading the code units of a code point below 2^21, with any text behind them, gives the code point
-- and that text.
pub scan_utf8_char-encode_utf8 :
    (c : ℕ) (rest : List ℕ) → c < 2 ^ 21 → scan_utf8_char (encode_utf8 c ++ rest) ≡ scanned c rest
scan_utf8_char-encode_utf8 c rest h = elim (dec_lt c (2 ^ 7)) [
  | yes one ↦ rw (lt→ltb c (2 ^ 7) one) (scan_one c rest one)
  | no more ↦ rw (le→ltb c (2 ^ 7) (omega arith)) (elim (dec_lt c (2 ^ 11)) [
    | yes two ↦ rw (lt→ltb c (2 ^ 11) two) (
        scan_two (c / 2 ^ 6) (c % 64) rest (omega arith) (omega arith)
        ∙ ap (λ n. scanned n rest) (omega arith))
    | no more ↦ rw (le→ltb c (2 ^ 11) (omega arith)) (elim (dec_lt c (2 ^ 16)) [
      | yes three ↦ rw (lt→ltb c (2 ^ 16) three) (
          scan_three (c / 2 ^ 12) (c / 2 ^ 6 % 64) (c % 64) rest (omega arith) (omega arith)
            (omega arith)
          ∙ ap (λ n. scanned n rest) (omega arith))
      | no more ↦ rw (le→ltb c (2 ^ 16) (omega arith)) (
          scan_four (c / 2 ^ 18) (c / 2 ^ 12 % 64) (c / 2 ^ 6 % 64) (c % 64) rest (omega arith)
            (omega arith) (omega arith) (omega arith)
          ∙ ap (λ n. scanned n rest) (omega arith))
    ])
  ])
]
