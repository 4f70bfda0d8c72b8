-- ===== src/Scopes.antt =====
-- The stacks of scopes and closures of core/lexical_analyser.cpp. The pointers in the two arrays
-- are never shared, so the arrays hold the maps. `depth` is `scopes_top + 1`.
pub mod ClosureList
use toy_language.Base.{
  ltb, leb, ◌==◌, if◌then◌else◌, ltb→lt, ltb→le, lt→ltb, le→ltb, leb→le, ==_iff, Bool-cases,
  Option-cases, Run, returns, panic, undefined, ◌>>◌, panic_if, undefined_if, Returns, length,
  get_elem?, get_or, set, take, drop, replicate, length-append, length-set, length-replicate,
  get_or-set_self, get_or-set_ne, get_or-replicate, get_or_ext, Width, w8, w16, w32, w64, bits,
  modulus, half, min_s, max_s, max_u, FitsU, FitsS, to_u, to_s, wrap_s, to_u-FitsU, to_s-FitsS,
  to_s-to_u, to_u-to_s, ◌+ℤ◌, ◌-ℤ◌, ◌*ℤ◌, quot_ℤ, rem_ℤ, ℤ, pos, negsuc, pos_part, neg_part, sub_ℕ,
  ◌≤ℤ◌, ◌<ℤ◌, ltb_ℤ, leb_ℤ, neg_ℕ, +ℤ_parts, -ℤ_parts, *ℤ_parts, eq_of_parts, ℕ, zero, suc, ◌+◌,
  ◌-◌, ◌*◌, ◌/◌, ◌%◌, ◌^◌, ◌≤◌, ◌<◌, bit_and, bit_or, bit_xor, ◌≡◌, refl, sym, ap, ◌∙◌, ◌≢◌, ◌↔◌,
  ◌⊎◌, inl, inr, Bool, true, false, ◌&&◌, ◌||◌, not, Option, none, some, List, [], ◌∷◌, ◌++◌, map,
  arith,
}
use mathlib.Core.Option
use toy_language.Base.Maybe.{◌>>=◌}
use toy_language.ScopeMap.{
  ScopeMap, ScopeEntry, local_kind, is_occupied, entry_at, scope_map_get, scope_map_add,
}

pub record LexicalAnalyser : Type 0 where
  pub depth : ℕ
  pub scopes : List ScopeMap
  pub closures : List ScopeMap

abbrev pub max_ast_depth : ℕ
max_ast_depth = 128

-- What a slot of the arrays holds before it is written.
abbrev pub unset : ScopeMap
unset = record {
  capacity = 0;
  used = 0;
  kind = local_kind;
  has_closure = false;
  occupied = [];
  names = [];
  entries = [];
}

abbrev pub scope_of : LexicalAnalyser → ℕ → ScopeMap
scope_of lex index = get_or lex.scopes index unset

abbrev pub closure_of : LexicalAnalyser → ℕ → ScopeMap
closure_of lex index = get_or lex.closures index unset

-- The writes of `push_scope`.
abbrev pub with_scope : LexicalAnalyser → ScopeMap → LexicalAnalyser
with_scope lex scope = record lex { depth = lex.depth + 1; scopes = set lex.scopes lex.depth scope }

-- `none` where `ASSERT_OR_IGNORE(core->lex.scopes_top + 1 < array_count(core->lex.scopes))` fails.
unfoldable pub push_scope : LexicalAnalyser → ScopeMap → Option LexicalAnalyser
push_scope lex scope = if ltb lex.depth max_ast_depth then some (with_scope lex scope) else none

-- `scope_map_dealloc` does nothing.
unfoldable pub pop_scope : LexicalAnalyser → LexicalAnalyser
pop_scope lex = record lex { depth = lex.depth - 1 }

unfoldable pub set_closure : LexicalAnalyser → ScopeMap → LexicalAnalyser
set_closure lex closure =
    let top = lex.depth - 1 in
    record lex {
      scopes = set lex.scopes top (record (scope_of lex top) { has_closure = true });
      closures = set lex.closures top closure;
    }

pub record ClosureListEntry : Type 0 where
  pub source_rank : ℕ
  pub source_out : ℕ
  pub source_is_closure : Bool

abbrev pub blank_closure : ClosureListEntry
blank_closure = record { source_rank = 0; source_out = 0; source_is_closure = false }

-- `closure_source_out - 1` in a `u8`.
abbrev pub closure_list_entry : ScopeEntry → ClosureListEntry
closure_list_entry src = record {
  source_rank = src.closure_source_rank;
  source_out = (src.closure_source_out + 255) % 256;
  source_is_closure = src.closure_source_is_closure;
}

-- The round of the loop of `set_closure_list` at `i`.
abbrev pub list_slot : ScopeMap → ℕ → List ClosureListEntry → List ClosureListEntry
list_slot closure i entries =
    let src = entry_at closure i in
    if is_occupied closure i then set entries src.rank (closure_list_entry src) else entries

-- `ASSERT_OR_IGNORE(src.closure_source_out >= 1)`, for a slot that is occupied.
abbrev pub is_outward : ScopeMap → ℕ → Bool
is_outward closure i =
    if is_occupied closure i then leb 1 (entry_at closure i).closure_source_out else true

-- The loop, with fuel; `i` is a `u16`. `none` where it has not ended or an assertion is not met.
unfoldable pub list_loop : ℕ → ScopeMap → ℕ → List ClosureListEntry → Option (List ClosureListEntry)
list_loop zero closure i entries = none
list_loop (suc fuel) closure i entries =
    let rest = list_loop fuel closure ((i + 1) % 2 ^ 16) (list_slot closure i entries) in
    if i == closure.capacity then some entries else if is_outward closure i then rest else none

-- What `set_closure_list` leaves in `*out`: no list, or one with its entries. The outer `none`
-- stands for a call that does not return, or meets an entry on which the assertion fails.
unfoldable pub set_closure_list : ScopeMap → Option (Option (List ClosureListEntry))
unfolding list_loop
set_closure_list closure =
    if closure.used == 0
    then some none
    else Option.map some
        (list_loop (closure.capacity + 1) closure 0 (replicate closure.used blank_closure))

-- The entry that `add_name_to_closures` makes at scope `i`.
abbrev pub new_closure_entry : ScopeMap → ℕ → Bool → ℕ → ℕ → ScopeEntry
new_closure_entry closure closed_over_rank closure_source_is_closure source_index i = record {
  rank = closure.used;
  closure_source_rank = closed_over_rank;
  closure_source_out = (i - source_index) % 256;
  closure_source_is_closure = closure_source_is_closure;
  param_is_templated = false;
  definition = none;
}

-- The closure of one scope after the round for it, and the rank of the name in it. `none` stands
-- for `get` of a `Maybe` that holds nothing.
unfoldable pub close_over : ScopeMap → ℕ → ℕ → Bool → ℕ → ℕ → Option (ScopeMap × ℕ)
close_over closure name closed_over_rank closure_source_is_closure source_index i =
    let entry =
      new_closure_entry closure closed_over_rank closure_source_is_closure source_index i in
    elim (scope_map_get closure name) [
      | some found ↦ some (closure, found.rank)
      | none ↦
          Option.map (λ new_closure. (new_closure, entry.rank))
            ((scope_map_add closure name entry).scope)
    ]

-- The loop of `add_name_to_closures` at `i`, with the scopes from there on left.
unfoldable pub close_from :
    ℕ → ℕ → LexicalAnalyser → ℕ → ℕ → Bool → ℕ → Option (LexicalAnalyser × ℕ)
unfolding close_over
close_from zero i lex name closed_over_rank closure_source_is_closure source_index =
    some (lex, closed_over_rank)
close_from (suc rounds) i lex name closed_over_rank closure_source_is_closure source_index =
    let skip =
      close_from rounds (suc i) lex name closed_over_rank closure_source_is_closure source_index in
    if (scope_of lex i).has_closure
    then (do
      (closure, rank) ←
          close_over (closure_of lex i) name closed_over_rank closure_source_is_closure source_index
            i
      close_from rounds (suc i) (record lex { closures = set lex.closures i closure }) name rank
          true i)
    else skip

unfoldable pub add_name_to_closures :
    LexicalAnalyser → ℕ → ℕ → ℕ → Bool → Option (LexicalAnalyser × ℕ)
unfolding close_from
add_name_to_closures lex name closed_over_rank scope_index close_in_innermost =
    let innermost_closed = if close_in_innermost then scope_index + 1 else scope_index in
    close_from (lex.depth - innermost_closed) innermost_closed lex name closed_over_rank false
      scope_index
