-- ===== src/ScopeMap.antt =====
-- The scope map of core/lexical_analyser.cpp: an open-addressing hash table from identifiers to
-- scope entries. The three arrays behind a `ScopeMap` are lists of `capacity` elements; slot `i` is
-- occupied if bit `i % 64` of `occupied_bits[i / 64]` is set. A pointer to an AST node is the
-- number of the node.
pub mod Insertion
pub mod Invariant
pub mod Extension
pub mod Growth
pub mod Addition
use toy_language.Base.{
  ltb, leb, ◌==◌, if◌then◌else◌, ltb→lt, ltb→le, lt→ltb, le→ltb, leb→le, ==_iff, Bool-cases,
  Option-cases, Run, returns, panic, undefined, ◌>>=◌, ◌>>◌, panic_if, undefined_if, Returns,
  length, get_elem?, get_or, set, take, drop, replicate, length-append, length-set,
  length-replicate, get_or-set_self, get_or-set_ne, get_or-replicate, get_or_ext, Width, w8, w16,
  w32, w64, bits, modulus, half, min_s, max_s, max_u, FitsU, FitsS, to_u, to_s, wrap_s, to_u-FitsU,
  to_s-FitsS, to_s-to_u, to_u-to_s, ◌+ℤ◌, ◌-ℤ◌, ◌*ℤ◌, quot_ℤ, rem_ℤ, ℤ, pos, negsuc, pos_part,
  neg_part, sub_ℕ, ◌≤ℤ◌, ◌<ℤ◌, ltb_ℤ, leb_ℤ, neg_ℕ, +ℤ_parts, -ℤ_parts, *ℤ_parts, eq_of_parts, ℕ,
  zero, suc, ◌+◌, ◌-◌, ◌*◌, ◌/◌, ◌%◌, ◌^◌, ◌≤◌, ◌<◌, bit_and, bit_or, bit_xor, ◌≡◌, refl, sym, ap,
  ◌∙◌, ◌≢◌, ◌↔◌, ◌⊎◌, inl, inr, Bool, true, false, ◌&&◌, ◌||◌, not, Option, none, some, List, [],
  ◌∷◌, ◌++◌, map, arith,
}
use toy_language.Base.Bytes.{to_bytes}
use toy_language.Hash.{fnv1a}

pub data ScopeMapKind : Type 0 where
  local_kind global_kind closure_kind signature_kind trait_signature_kind : ScopeMapKind

pub record ScopeEntry : Type 0 where
  pub rank : ℕ
  pub closure_source_rank : ℕ
  pub closure_source_out : ℕ
  pub closure_source_is_closure : Bool
  pub param_is_templated : Bool
  pub definition : Option ℕ

pub record ScopeMap : Type 0 where
  pub capacity : ℕ
  pub used : ℕ
  pub kind : ScopeMapKind
  pub has_closure : Bool
  pub occupied : List Bool
  pub names : List ℕ
  pub entries : List ScopeEntry

-- `CompileError`, as far as the scope map reports it.
pub data ScopeError : Type 0 where
  scope_duplicate_name scope_too_many_definitions : ScopeError

abbrev pub max_scope_entry_count : ℕ
max_scope_entry_count = 2 ^ 15

-- The contents of memory that has not been written.
abbrev pub blank_entry : ScopeEntry
blank_entry = record {
  rank = 0;
  closure_source_rank = 0;
  closure_source_out = 0;
  closure_source_is_closure = false;
  param_is_templated = false;
  definition = none;
}

-- For a capacity whose size in bytes, `scope_map_size`, is below 2 ^ 32.
unfoldable pub scope_map_alloc_sized : ScopeMapKind → ℕ → ScopeMap
scope_map_alloc_sized kind capacity = record {
  capacity = capacity;
  used = 0;
  kind = kind;
  has_closure = false;
  occupied = replicate capacity false;
  names = replicate capacity 0;
  entries = replicate capacity blank_entry;
}

unfoldable pub scope_map_alloc : ScopeMapKind → ScopeMap
unfolding scope_map_alloc_sized
scope_map_alloc kind = scope_map_alloc_sized kind 8

-- `hash & (scope->capacity - 1)`, where the hash is of the four bytes of the name.
unfoldable pub initial_index : ℕ → ℕ → ℕ
initial_index capacity name = bit_and (fnv1a (to_bytes 4 name)) (capacity - 1)

abbrev pub is_occupied : ScopeMap → ℕ → Bool
is_occupied scope index = get_or scope.occupied index false

abbrev pub name_at : ScopeMap → ℕ → ℕ
name_at scope index = get_or scope.names index 0

abbrev pub entry_at : ScopeMap → ℕ → ScopeEntry
entry_at scope index = get_or scope.entries index blank_entry

-- `index += 1`, back to 0 at the end of the arrays.
unfoldable pub advance : ℕ → ℕ → ℕ
advance capacity index = if index + 1 == capacity then 0 else index + 1

-- Where the loop of `scope_map_add_nogrow` ends.
pub data Probe : Type 0 where
  free_at : ℕ → Probe
  duplicate : Probe
  lost : Probe

-- `while (occupied) …`, with fuel; `lost` means that the fuel ran out. Only with
-- `check_duplicates` does the loop look at the names.
unfoldable pub probe : Bool → ScopeMap → ℕ → ℕ → ℕ → Probe
probe check_duplicates scope name zero index = lost
probe check_duplicates scope name (suc fuel) index =
    let rest = probe check_duplicates scope name fuel (advance scope.capacity index) in
    if is_occupied scope index
    then if check_duplicates && name_at scope index == name then duplicate else rest
    else free_at index

-- The writes at the end of `scope_map_add_nogrow`; `used` is a `u16`.
unfoldable pub write_slot : ScopeMap → ℕ → ℕ → ScopeEntry → ScopeMap
write_slot scope index name entry = record scope {
  used = (scope.used + 1) % 2 ^ 16;
  occupied = set scope.occupied index true;
  names = set scope.names index name;
  entries = set scope.entries index entry;
}

-- What `scope_map_add_nogrow` does: it fills a slot, reports a duplicate name, or does not return.
pub data Added : Type 0 where
  filled : ScopeMap → Added
  reported : ScopeError → Added
  hangs : Added

abbrev pub finish_add : ScopeMap → ℕ → ScopeEntry → Probe → Added
finish_add scope name entry (free_at index) = filled (write_slot scope index name entry)
finish_add scope name entry duplicate = reported scope_duplicate_name
finish_add scope name entry lost = hangs

-- After `capacity` rounds the loop has seen every slot.
unfoldable pub scope_map_add_nogrow : Bool → ScopeMap → ℕ → ScopeEntry → Added
unfolding probe write_slot
scope_map_add_nogrow check_duplicates scope name entry =
    finish_add scope name entry
      (probe check_duplicates scope name scope.capacity (initial_index scope.capacity name))

-- The loops of `scope_map_grow` over the set bits, at `index` with `rounds` left.
unfoldable pub rehash : ℕ → ℕ → ScopeMap → ScopeMap → Option ScopeMap
unfolding scope_map_add_nogrow
rehash zero index old_scope new_scope = some new_scope
rehash (suc rounds) index old_scope new_scope =
    let skip = rehash rounds (suc index) old_scope new_scope in
    if is_occupied old_scope index
    then elim (scope_map_add_nogrow false new_scope (name_at old_scope index)
        (entry_at old_scope index)) [
          | filled scope ↦ rehash rounds (suc index) old_scope scope
          | reported e ↦ none
          | hangs ↦ none
        ]
    else skip

-- The new map starts with no closure, whatever the old one had. Its capacity is a `u32`.
unfoldable pub scope_map_grow : ScopeMap → Option ScopeMap
unfolding rehash scope_map_alloc_sized
scope_map_grow old_scope =
    rehash old_scope.capacity 0 old_scope
      (scope_map_alloc_sized old_scope.kind (old_scope.capacity * 2 % 2 ^ 32))

-- The loop of `scope_map_get`, with fuel; it returns when it is back at the first slot.
unfoldable pub get_loop : ScopeMap → ℕ → ℕ → ℕ → ℕ → Option ScopeEntry
get_loop scope name first zero index = none
get_loop scope name first (suc fuel) index =
    let next = advance scope.capacity index in
    let rest = get_loop scope name first fuel next in
    if is_occupied scope index
    then if name_at scope index == name
      then some (entry_at scope index)
      else if first == next
      then none
      else rest
    else none

unfoldable pub scope_map_get : ScopeMap → ℕ → Option ScopeEntry
unfolding get_loop
scope_map_get scope name =
    let first = initial_index scope.capacity name in get_loop scope name first scope.capacity first

-- The map after a call of `scope_map_add`, with the error that it records. `none` stands for no
-- map, or for a call that does not return.
pub record AddResult : Type 0 where
  pub scope : Option ScopeMap
  pub error : Option ScopeError

abbrev pub add_result : ScopeMap → Added → AddResult
add_result old (filled new) = record { scope = some new; error = none }
add_result old (reported e) = record { scope = some old; error = some e }
add_result old hangs = record { scope = none; error = none }

abbrev pub add_to : Option ScopeMap → ℕ → ScopeEntry → AddResult
add_to none name entry = record { scope = none; error = none }
add_to (some scope) name entry = add_result scope (scope_map_add_nogrow true scope name entry)

unfoldable pub scope_map_add : ScopeMap → ℕ → ScopeEntry → AddResult
unfolding scope_map_add_nogrow scope_map_grow
scope_map_add scope name entry =
    if scope.used == max_scope_entry_count
    then record { scope = none; error = some scope_too_many_definitions }
    else add_to
        (if ltb (scope.capacity * 2) (scope.used * 3) then scope_map_grow scope else some scope)
        name entry

unfoldable pub scope_map_reset : ScopeMap → ScopeMap
scope_map_reset scope = record scope { used = 0; occupied = replicate scope.capacity false }
