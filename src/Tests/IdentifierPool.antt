-- ===== src/Tests/IdentifierPool.antt =====
-- core/identifier_pool.cpp: the identifier `ab` in a pool of four slots without entries.
use toy_language.Base.{replicate, ℕ, ◌+◌, ◌≡◌, refl, ◌⊎◌, Bool, true, [], ◌∷◌, arith}
use mathlib.Core.List.Perm
use toy_language.IdMap.{returned, empty_lookup, needs_rehash}
use toy_language.IdMap.Placement.{Overfull}
use toy_language.IdMap.Rehash.{Fits-blank}
use toy_language.IdMap.Valid.{IsValid}
use toy_language.IdentifierPool.{
  Identifier, IdentifierPool, identifier_alloc, first_natural, id_from_identifier,
}
use toy_language.IdentifierPool.Names.{Names, id_from_identifier-Names}

abbrev ab : Identifier
ab = 97 ∷ 98 ∷ []

abbrev blank_pool : IdentifierPool
blank_pool = record {
  lookups = replicate 4 empty_lookup;
  lookup_used = 0;
  lookup_commit = 4;
  lookup_capacity = 16;
  alloc = [];
}

abbrev commits : ℕ → ℕ → Bool
commits from size = true

blank_pool-IsValid : IsValid identifier_alloc commits blank_pool
blank_pool-IsValid = record {
  exponent = 2;
  power = refl;
  fits = Fits-blank identifier_alloc commits 4 (identifier_alloc.hash []);
  contents = Perm.refl [];
}

id_from_identifier-Names_example :
    ((id : ℕ) × (new : IdentifierPool) × (id_from_identifier commits commits blank_pool ab
        ≡ returned (id + first_natural, new))
      × Names commits commits blank_pool blank_pool-IsValid ab new id)
    ⊎ Overfull 4 (replicate 4 empty_lookup)
unfolding needs_rehash
id_from_identifier-Names_example =
    id_from_identifier-Names commits commits blank_pool blank_pool-IsValid ab (omega arith) refl
      (omega arith) refl
