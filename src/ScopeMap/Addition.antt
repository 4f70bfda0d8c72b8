-- ===== src/ScopeMap/Addition.antt =====
-- `scope_map_add` of core/lexical_analyser.cpp, with the growth in it.
use toy_language.Base.{
  ltb→lt, ltb, ◌==◌, if◌then◌else◌, ltb→le, ℕ, ◌*◌, ◌^◌, ◌<◌, ◌≡◌, refl, sym, ◌∙◌, ◌≢◌, ◌⊎◌, inl,
  inr, Bool, true, false, none, some, arith,
}
use native.Mathlib.Nat.{one-le-pow}
use toy_language.ScopeMap.{
  ScopeMap, ScopeEntry, Added, scope_duplicate_name, AddResult, add_result, scope_map_get,
  scope_map_grow, scope_map_add_nogrow, scope_map_add,
}
use toy_language.ScopeMap.Invariant.{count, IsMap}
use toy_language.ScopeMap.Extension.{AddsTo, scope_map_add_nogrow-AddsTo}
use toy_language.ScopeMap.Growth.{scope_map_grow-Keeps}

-- A map with a free slot and the same lookups.
record IsReady (scope ready : ScopeMap) : Type 0 where
  is_map : IsMap ready
  few : ready.used < 2 ^ 15
  free : count ready.occupied < ready.capacity
  same : (name : ℕ) → scope_map_get ready name ≡ scope_map_get scope name

ready :
    (scope : ScopeMap) (full : Bool)
    → IsMap scope
    → scope.used < 2 ^ 15
    → ltb (scope.capacity * 2) (scope.used * 3) ≡ full
    → (r : ScopeMap) × ((if full then scope_map_grow scope else some scope) ≡ some r)
      × IsReady scope r
ready scope true m few h =
    let full = ltb→lt (scope.capacity * 2) (scope.used * 3) h in
    let (new, grown, is_map, size, fewer, free, same) =
      scope_map_grow-Keeps scope m (omega (arith, few, full)) in
    (
      new,
      grown,
      record { is_map = is_map; few = omega (arith, fewer, few); free = free; same = same },
    )
ready scope false m few h =
    let positive = one-le-pow m.sized.exponent 2 (omega arith) in
    let power = m.sized.power in
    let counted = m.counted in
    let room = ltb→le (scope.capacity * 2) (scope.used * 3) h in
    (scope, refl, record { is_map = m; few = few; free = omega arith; same = λ name. refl })

-- The result is an error for a name that is there, with a map of the same lookups, or a map in which
-- the new entry is found, and every other lookup gives what it gave before.
abbrev pub IsAdded : ScopeMap → ℕ → ScopeEntry → AddResult → Type 0
IsAdded scope name entry result =
    (new : ScopeMap) × (result.scope ≡ some new)
    × IsMap new
    × (((result.error ≡ some scope_duplicate_name)
          × ((e : ScopeEntry) × (scope_map_get scope name ≡ some e))
          × ((other : ℕ) → scope_map_get new other ≡ scope_map_get scope other))
        ⊎ ((result.error ≡ none)
            × (scope_map_get new name ≡ some entry)
            × ((other : ℕ) → (other ≢ name) → scope_map_get new other ≡ scope_map_get scope other)))

add-IsAdded :
    (scope r : ScopeMap) (name : ℕ) (entry : ScopeEntry) (added : Added)
    → IsReady scope r
    → AddsTo r name entry added
    → IsAdded scope name entry (add_result r added)
add-IsAdded scope r name entry added i (inl (e, (x, found))) =
    rw e (r, refl, i.is_map, inl (refl, (x, sym (i.same name) ∙ found), i.same))
add-IsAdded scope r name entry added i (inr (new, e, x)) =
    rw e (new, refl, x.is_map, inr (refl, x.found, λ other ne. x.others other ne ∙ i.same other))

-- On a map that has fewer than 2^15 entries, `scope_map_add`, which grows the map when it is more than
-- two thirds full, returns a map again. If the name is there already, it reports that, and no lookup
-- changes; if not, the new entry is found, and no other lookup changes.
pub scope_map_add-IsAdded :
    (scope : ScopeMap) (name : ℕ) (entry : ScopeEntry)
    → IsMap scope
    → (scope.used ≢ 2 ^ 15)
    → IsAdded scope name entry (scope_map_add scope name entry)
unfolding scope_map_add
scope_map_add-IsAdded scope name entry m h =
    let more : (scope.used == 2 ^ 15) ≡ false = ground arith in
    let few : scope.used < 2 ^ 15 = omega (arith, m.limit) in
    let (r, e, i) = ready scope (ltb (scope.capacity * 2) (scope.used * 3)) m few refl in
    rw (more, e)
      (add-IsAdded scope r name entry (scope_map_add_nogrow true r name entry) i
        (scope_map_add_nogrow-AddsTo r name entry i.is_map i.few i.free))
