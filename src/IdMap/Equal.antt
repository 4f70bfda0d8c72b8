-- ===== src/IdMap/Equal.antt =====
-- `is_equal_lookup` of infra/container/id_map.hpp.
use toy_language.Base.{◌==◌, ==_iff, Bool-cases, ℕ, ◌≡◌, refl, ◌⊎◌, inl, inr, Bool, true, false}
use toy_language.IdMap.{LookupEntry, Alloc, is_equal_lookup}

module _ {K S : Type 0} (ops : Alloc K S) (mem_commit : ℕ → ℕ → Bool) where
  pub is_equal_lookup_cases :
      (s : S) (existing wanted : LookupEntry) (key : K) (key_hash : ℕ)
      → (is_equal_lookup ops mem_commit s existing wanted key key_hash ≡ false)
        ⊎ ((is_equal_lookup ops mem_commit s existing wanted key key_hash ≡ true)
            × (ops.is_equal_to_key s existing.data_id key key_hash ≡ true))
  is_equal_lookup_cases s existing wanted key key_hash =
      elim (Bool-cases (existing.hash_fingerprint == wanted.hash_fingerprint)) [
        | inr other ↦ inl (rw other refl)
        | inl print ↦ elim (Bool-cases (existing.psl == wanted.psl)) [
          | inr other ↦ inl (rw (print, other) refl)
          | inl near ↦ elim (Bool-cases (ops.is_equal_to_key s existing.data_id key key_hash)) [
            | inr other ↦ inl (rw (print, near, other) refl)
            | inl equal ↦ inr (rw (print, near, equal) refl, equal)
          ]
        ]
      ]

  pub is_equal_lookup-true :
      (s : S) (existing wanted : LookupEntry) (key : K) (key_hash : ℕ)
      → existing.hash_fingerprint ≡ wanted.hash_fingerprint
      → existing.psl ≡ wanted.psl
      → ops.is_equal_to_key s existing.data_id key key_hash ≡ true
      → is_equal_lookup ops mem_commit s existing wanted key key_hash ≡ true
  is_equal_lookup-true s existing wanted key key_hash print near equal =
      rw
        (
          (==_iff existing.hash_fingerprint wanted.hash_fingerprint).1 print,
          (==_iff existing.psl wanted.psl).1 near,
          equal,
        )
        refl
