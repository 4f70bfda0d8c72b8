-- ===== src/IdentifierPool/Entries.antt =====
-- The entries of core/identifier_pool.cpp as the allocator of an `IdMap`.
use toy_language.Base.{
  ◌<◌, ◌==◌, ==_ne, ==_iff, Bool-cases, Option-cases, length, take, ℕ, ◌+◌, ◌%◌, ◌^◌, ◌≤◌, ◌≡◌,
  refl, sym, ap, ◌≢◌, inl, inr, Bool, true, some, List, [], ◌∷◌, ◌++◌, arith,
}
use mathlib.Core.List.{Perm, Mem, mem_of_ne_of_mem, not-mem-nil, perm_middle, append-nil}
use native.Mathlib.Decide.{ℕ_discrete}
use native.Mathlib.Nat.{mod-eq_of_lt}
use toy_language.IdMap.Lookup.{EqualHash}
use toy_language.IdMap.Valid.{IsAlloc}
use toy_language.IdentifierPool.{
  IdentifierEntry, Identifier, same_chars, is_equal_to_key, units, values_from, end_from,
  entry_from, value_from_id, new_entry, hash_of, entry_is_equal, identifier_alloc,
}

same_chars_refl : (xs : List ℕ) → same_chars xs xs ≡ true
same_chars_refl [] = refl
same_chars_refl (x ∷ xs) = rw ((==_iff x x).1 refl) (same_chars_refl xs)

pub same_chars-eq : (xs ys : List ℕ) → same_chars xs ys ≡ true → xs ≡ ys
same_chars-eq [] [] same = refl
same_chars-eq [] (y ∷ ys) same = cc
same_chars-eq (x ∷ xs) [] same = cc
same_chars-eq (x ∷ xs) (y ∷ ys) same = elim (Bool-cases (x == y)) [
  | inl here ↦
      let first : x ≡ y = (==_iff x y).0 here in
      let rest : xs ≡ ys = same_chars-eq xs ys (rw here at same) in rw (first, rest) refl
  | inr other ↦ cc (rw other at same)
]

pub take_all : (xs : List ℕ) → take (length xs) xs ≡ xs
take_all [] = refl
take_all (x ∷ xs) = ap (λ t. x ∷ t) (take_all xs)

-- Of a key, what it has to do with an entry that is equal.
pub equal_entry :
    (entry : IdentifierEntry) (key : Identifier) (key_hash : ℕ)
    → is_equal_to_key entry key key_hash ≡ true
    → (entry.hash ≡ key_hash) × (take entry.count entry.chars ≡ key)
equal_entry entry key key_hash equal = elim (Bool-cases (entry.hash == key_hash)) [
  | inr other ↦ cc (rw other at equal)
  | inl hashed ↦ elim (Bool-cases (length key == entry.count)) [
    | inr other ↦ cc (rw (hashed, other) at equal)
    | inl counted ↦ (
      (==_iff entry.hash key_hash).0 hashed,
      sym (same_chars-eq key (take entry.count entry.chars) (rw (hashed, counted) at equal)),
    )
  ]
]

new_entry-equal :
    (key : Identifier) (key_hash : ℕ)
    → length key < 2 ^ 16
    → is_equal_to_key (new_entry key key_hash) key key_hash ≡ true
new_entry-equal key key_hash short =
    let count : length key % 2 ^ 16 ≡ length key = mod-eq_of_lt short in
    rw
      (
        (==_iff key_hash key_hash).1 refl,
        count,
        (==_iff (length key) (length key)).1 refl,
        take_all key,
      )
      (same_chars_refl key)

end_from-le : (curr : ℕ) (entries : List IdentifierEntry) → curr ≤ end_from curr entries
end_from-le curr [] = omega arith
end_from-le curr (entry ∷ entries) = omega (arith, end_from-le (curr + units entry) entries)

-- A new entry is found at its id, and what was there still is.
pub entry_from-new :
    (curr : ℕ) (entries : List IdentifierEntry) (entry : IdentifierEntry)
    → entry_from curr (entries ++ (entry ∷ [])) (end_from curr entries) ≡ some entry
entry_from-new curr [] entry = rw ((==_iff curr curr).1 refl) refl
entry_from-new curr (first ∷ entries) entry =
    let past = end_from-le (curr + units first) entries in
    let apart : end_from (curr + units first) entries ≢ curr = (λ e. omega (arith, e, past)) in
    rw (==_ne (end_from (curr + units first) entries) curr apart)
      (entry_from-new (curr + units first) entries entry)

entry_from-kept :
    (curr : ℕ) (entries : List IdentifierEntry) (entry : IdentifierEntry) (id : ℕ)
    → Mem id (values_from curr entries)
    → entry_from curr (entries ++ (entry ∷ [])) id ≡ entry_from curr entries id
entry_from-kept curr [] entry id inside = absurd (not-mem-nil inside)
entry_from-kept curr (first ∷ entries) entry id inside = elim (ℕ_discrete id curr) [
  | yes here ↦ rw ((==_iff id curr).1 here) refl
  | no other ↦
      rw (==_ne id curr other)
        (entry_from-kept (curr + units first) entries entry id (mem_of_ne_of_mem other inside))
]

values_from-new :
    (curr : ℕ) (entries : List IdentifierEntry) (entry : IdentifierEntry)
    → values_from curr (entries ++ (entry ∷ []))
      ≡ values_from curr entries ++ (end_from curr entries ∷ [])
values_from-new curr [] entry = refl
values_from-new curr (first ∷ entries) entry =
    ap (λ t. curr ∷ t) (values_from-new (curr + units first) entries entry)

values_from-Perm :
    (entries : List IdentifierEntry) (entry : IdentifierEntry)
    → Perm (values_from 1 (entries ++ (entry ∷ []))) (end_from 1 entries ∷ values_from 1 entries)
values_from-Perm entries entry =
    let middle : Perm (values_from 1 entries ++ (end_from 1 entries ∷ []))
        (end_from 1 entries ∷ (values_from 1 entries ++ [])) =
      perm_middle (values_from 1 entries) [] in
    rw (values_from-new 1 entries entry) (rw (append-nil (values_from 1 entries)) at middle)

module _ (mem_commit : ℕ → ℕ → Bool) where
  entry-EqualHash : (entries : List IdentifierEntry) → EqualHash identifier_alloc mem_commit entries
  entry-EqualHash entries id key key_hash equal = elim (Option-cases (value_from_id entries id)) [
    | inl missing ↦ cc (rw missing at equal)
    | inr (entry, found) ↦ rw found ((equal_entry entry key key_hash (rw found at equal)).0)
  ]

  -- The entries are what an `IdMap` relies on, for a name whose length fits in 16 bits.
  pub identifier_alloc-IsAlloc :
      (key : Identifier) → length key < 2 ^ 16 → IsAlloc identifier_alloc mem_commit key
  identifier_alloc-IsAlloc key short = record {
    equal_hash = entry-EqualHash;
    created_equal = λ entries key_hash.
        rw (entry_from-new 1 entries (new_entry key key_hash)) (new_entry-equal key key_hash short);
    created_values = λ entries key_hash. values_from-Perm entries (new_entry key key_hash);
    kept_hash = λ entries key_hash id inside.
        ap hash_of (entry_from-kept 1 entries (new_entry key key_hash) id inside);
    kept_equal = λ entries key_hash id inside.
        ap (λ e. entry_is_equal e key key_hash)
          (entry_from-kept 1 entries (new_entry key key_hash) id inside);
  }
