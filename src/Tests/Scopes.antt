-- ===== src/Tests/Scopes.antt =====
-- core/lexical_analyser.cpp, scope maps and scopes at concrete values.
use toy_language.Base.{
  ◌≤◌, ℕ, zero, suc, ◌^◌, ◌<◌, ◌≡◌, refl, sym, ◌∙◌, true, false, some, List, [], ◌∷◌, arith,
}
use toy_language.Hash.{fnv1a}
use toy_language.ScopeMap.{
  ScopeEntry, ScopeMap, closure_kind, signature_kind, blank_entry, is_occupied, entry_at,
  initial_index, get_loop, scope_map_get, scope_map_grow, scope_map_add,
}
use toy_language.ScopeMap.Invariant.{count, IsMap}
use toy_language.ScopeMap.Growth.{scope_map_grow-Keeps}
use toy_language.ScopeMap.Addition.{IsAdded, scope_map_add-IsAdded}
use toy_language.ScopeMap.Insertion.{IsSized}
use toy_language.Scopes.{LexicalAnalyser, ClosureListEntry, set_closure_list}
use toy_language.Scopes.ClosureList.{IsRanked, Lists, set_closure_list-Lists}
use toy_language.Templating.{
  AstNode, node, nil, cons, func, signature, block, identifier, check_expression_is_templated,
}
use toy_language.Templating.Balance.{Leaves, check_expression_is_templated-Leaves, IsWellFormed}

abbrev outer_entry : ScopeEntry
outer_entry = record blank_entry { closure_source_out = 1 }

-- Two slots, of which the first holds the name 7.
abbrev one_name : ScopeMap
one_name = record {
  capacity = 2;
  used = 1;
  kind = signature_kind;
  has_closure = false;
  occupied = true ∷ false ∷ [];
  names = 7 ∷ 0 ∷ [];
  entries = outer_entry ∷ blank_entry ∷ [];
}

one_name-IsSized : IsSized one_name
one_name-IsSized = record {
  exponent = 1;
  power = refl;
  occupied_size = refl;
  names_size = refl;
  entries_size = refl;
}

one_name_first : (i : ℕ) → is_occupied one_name i ≡ true → i ≡ 0
one_name_first zero h = refl
one_name_first (suc zero) h = cc
one_name_first (suc (suc i)) h = cc

one_name_ranks : (i : ℕ) → i ≡ 0 → (entry_at one_name i).rank < 1
one_name_ranks i h = rw h (omega arith)

one_name_out : (i : ℕ) → i ≡ 0 → 1 ≤ (entry_at one_name i).closure_source_out
one_name_out i h = rw h (omega arith)

one_name-IsRanked : IsRanked one_name
one_name-IsRanked = record {
  below = λ i h o. one_name_ranks i (one_name_first i o);
  distinct = λ i j h k o p e. omega (arith, one_name_first i o, one_name_first j p);
  outward = λ i h o. one_name_out i (one_name_first i o);
}

set_closure_list-Lists_example :
    (out : List ClosureListEntry) × (set_closure_list one_name ≡ some (some out))
    × Lists one_name 2 out
set_closure_list-Lists_example =
    set_closure_list-Lists one_name one_name-IsRanked (omega arith) (omega arith)

-- The slots do not matter here.
abbrev large : ScopeMap
large = record {
  capacity = 2 ^ 16;
  used = 21847;
  kind = closure_kind;
  has_closure = false;
  occupied = [];
  names = [];
  entries = [];
}

abbrev analyser : LexicalAnalyser
analyser = record { depth = 1; scopes = one_name ∷ one_name ∷ one_name ∷ []; closures = [] }

-- A function with an empty signature whose body is a block that names 7.
abbrev small_function : AstNode
small_function =
    node func 0
      (cons (node signature 0 nil) (cons (node block 0 (cons (node identifier 7 nil) nil)) nil))

small_function-IsWellFormed : IsWellFormed 2 small_function
unfolding IsWellFormed
small_function-IsWellFormed = (omega arith, refl, (omega arith, tt), (omega arith, (tt, tt)))

check_expression_is_templated-Leaves_example :
    Leaves analyser 0 (check_expression_is_templated small_function true analyser)
check_expression_is_templated-Leaves_example =
    check_expression_is_templated-Leaves small_function 2 true analyser small_function-IsWellFormed
      (0, omega arith, refl) (omega arith)

one_name-IsMap : IsMap one_name
unfolding scope_map_get get_loop initial_index fnv1a
one_name-IsMap = record {
  sized = one_name-IsSized;
  counted = refl;
  limit = omega arith;
  findable = λ i o. rw (one_name_first i o) refl;
  distinct = λ i j o p e. one_name_first i o ∙ sym (one_name_first j p);
}

scope_map_add-IsAdded_example :
    IsAdded one_name 9 blank_entry (scope_map_add one_name 9 blank_entry)
scope_map_add-IsAdded_example =
    scope_map_add-IsAdded one_name 9 blank_entry one_name-IsMap (λ e. omega arith)

scope_map_grow-Keeps_example :
    (new : ScopeMap) × (scope_map_grow one_name ≡ some new)
    × IsMap new
    × (new.capacity ≡ 4)
    × (new.used ≤ 1)
    × (count new.occupied < new.capacity)
    × ((name : ℕ) → scope_map_get new name ≡ scope_map_get one_name name)
scope_map_grow-Keeps_example = scope_map_grow-Keeps one_name one_name-IsMap (omega arith)
