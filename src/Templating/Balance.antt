-- ===== src/Templating/Balance.antt =====
-- What `check_expression_is_templated` of core/lexical_analyser.cpp does to the stack of scopes.
use toy_language.Base.{
  ◌≤◌, ◌-◌, lt→ltb, if◌then◌else◌, get_or-set_ne, ℕ, zero, suc, ◌+◌, ◌<◌, ◌≡◌, refl, ◌∙◌, Bool,
  true, false, Option, none, some, arith,
}
use mathlib.Core.Option
use native.Mathlib.Decide.{dec_lt}
use toy_language.Base.Maybe.{◌>>=◌}
use toy_language.ScopeMap.{
  ScopeMap, ScopeEntry, ScopeEntry, local_kind, scope_map_alloc, scope_map_get,
}
use toy_language.Scopes.{LexicalAnalyser, scope_of, with_scope, push_scope, pop_scope}
use toy_language.Templating.{
  AstNode, AstNodes, node, nil, cons, NodeBranch, name_branch, func_branch, scope_branch,
  other_branch, branch_of, is_signature_scope, at_scope, by_branch, identifier_is_templated, pop_if,
  check_expression_is_templated, check_func_is_templated, check_children_are_templated,
}

-- A scope of the signature is on the stack.
abbrev pub HasSignature : LexicalAnalyser → Type 0
HasSignature lex = (i : ℕ) × (i < lex.depth) × (is_signature_scope (scope_of lex i) ≡ true)

abbrev pub branch : AstNode → NodeBranch
branch (node tag name children) = branch_of tag

abbrev pub BranchHolds : NodeBranch → ℕ → Type 0 → Type 0 → Type 0 → Type 0
BranchHolds name_branch room Children Inner Func = Unit {0}
BranchHolds func_branch room Children Inner Func = Func
BranchHolds scope_branch room Children Inner Func = (1 ≤ room) × Inner
BranchHolds other_branch room Children Inner Func = Children

-- Every function in the tree has a signature, which opens a scope, and a body, and there are at most
-- `room` scopes within each other.
unfoldable mutual
  pub IsWellFormed : ℕ → AstNode → Type 0
  IsWellFormed room (node tag name children) =
      BranchHolds (branch_of tag) room (AreWellFormed room children)
        (AreWellFormed (room - 1) children) (IsWellFormedFunc room children)

  pub IsWellFormedFunc : ℕ → AstNodes → Type 0
  IsWellFormedFunc room nil = ⊥
  IsWellFormedFunc room (cons first nil) = ⊥
  IsWellFormedFunc room (cons first (cons body rest)) =
      (1 ≤ room)
      × (branch first ≡ scope_branch)
      × IsWellFormed room first
      × IsWellFormed (room - 1) body

  pub AreWellFormed : ℕ → AstNodes → Type 0
  AreWellFormed room nil = Unit {0}
  AreWellFormed room (cons child rest) = IsWellFormed room child × AreWellFormed room rest

-- `later` has `extra` more scopes than `lex`, above the same ones.
pub record Extends (lex : LexicalAnalyser) (extra : ℕ) (later : LexicalAnalyser) : Type 0 where
  pub above : later.depth ≡ lex.depth + extra
  pub same : (i : ℕ) → i < lex.depth → scope_of later i ≡ scope_of lex i

-- A call returns, with `extra` scopes more on the stack.
abbrev pub Leaves : LexicalAnalyser → ℕ → Option (Bool × LexicalAnalyser) → Type 0
Leaves lex extra result =
    (templated : Bool) × (later : LexicalAnalyser) × (result ≡ some (templated, later))
    × Extends lex extra later

HasSignature-Extends :
    (lex later : LexicalAnalyser) (extra : ℕ)
    → Extends lex extra later
    → HasSignature lex
    → HasSignature later
HasSignature-Extends lex later extra e (i, below, h) =
    (i, omega (arith, e.above), rw (e.same i below) h)

Extends-push : (lex : LexicalAnalyser) (scope : ScopeMap) → Extends lex 1 (with_scope lex scope)
Extends-push lex scope = record {
  above = refl;
  same = λ i h. get_or-set_ne lex.scopes lex.depth i scope _ (λ e. omega (arith, e));
}

Extends-pop : (lex later : LexicalAnalyser) → Extends lex 1 later → Extends lex 0 (pop_scope later)
unfolding pop_scope
Extends-pop lex later e = record { above = omega (arith, e.above); same = e.same }

Extends-trans :
    (lex middle later : LexicalAnalyser) (m n : ℕ)
    → Extends lex m middle
    → Extends middle n later
    → Extends lex (m + n) later
Extends-trans lex middle later m n e f = record {
  above = omega (arith, e.above, f.above);
  same = λ i h. f.same i (omega (arith, e.above)) ∙ e.same i h;
}

Extends-refl : (lex : LexicalAnalyser) → Extends lex 0 lex
Extends-refl lex = record { above = omega arith; same = λ i h. refl }

at_scope_ends :
    (entry : Option ScopeEntry) (in_signature : Bool) (rest : Option Bool)
    → (in_signature ≡ false → (templated : Bool) × (rest ≡ some templated))
    → (templated : Bool) × (at_scope entry in_signature rest ≡ some templated)
at_scope_ends (some entry) in_signature rest h = (in_signature, refl)
at_scope_ends none true rest h = (false, refl)
at_scope_ends none false rest h = h refl

-- The walk over the scopes ends at the signature at the latest.
identifier_ends :
    (lex : LexicalAnalyser) (name i depth : ℕ)
    → i < depth
    → is_signature_scope (scope_of lex i) ≡ true
    → (templated : Bool) × (identifier_is_templated lex name depth ≡ some templated)
unfolding identifier_is_templated
identifier_ends lex name i zero h s = absurd (omega arith)
identifier_ends lex name i (suc depth) h s =
    at_scope_ends (scope_map_get (scope_of lex depth) name)
      (is_signature_scope (scope_of lex depth)) (identifier_is_templated lex name depth)
      (λ outside. elim (dec_lt i depth) [
        | yes lt ↦ identifier_ends lex name i depth lt s
        | no not_lt ↦ let e : i ≡ depth = omega arith in absurd (cc)
      ])

-- The scopes that a call leaves above those that it found.
abbrev pub extra : NodeBranch → Bool → ℕ
extra scope_branch false = 1
extra b do_pop = 0

popped : (b : NodeBranch) → extra b true ≡ 0
popped name_branch = refl
popped func_branch = refl
popped scope_branch = refl
popped other_branch = refl

name-Leaves :
    (lex : LexicalAnalyser) (r : Option Bool)
    → (templated : Bool) × (r ≡ some templated)
    → Leaves lex 0 (Option.map (λ is_templated. (is_templated, lex)) r)
name-Leaves lex r (templated, e) = rw e (templated, lex, refl, Extends-refl lex)

scope-Leaves :
    (lex : LexicalAnalyser) (scope : ScopeMap) (do_pop : Bool)
    (children : LexicalAnalyser → Option (Bool × LexicalAnalyser))
    → lex.depth < 128
    → Leaves (with_scope lex scope) 0 (children (with_scope lex scope))
    → Leaves lex (extra scope_branch do_pop) (
        push_scope lex scope >>= λ inner.
        children inner >>= λ found. some (found.0, pop_if do_pop found.1))
unfolding push_scope
scope-Leaves lex scope true children room (templated, later, e, above) =
    rw (lt→ltb lex.depth 128 room, e)
      (
        templated,
        pop_scope later,
        refl,
        Extends-pop lex later
            (Extends-trans lex (with_scope lex scope) later 1 0 (Extends-push lex scope) above),
      )
scope-Leaves lex scope false children room (templated, later, e, above) =
    rw (lt→ltb lex.depth 128 room, e)
      (
        templated,
        later,
        refl,
        Extends-trans lex (with_scope lex scope) later 1 0 (Extends-push lex scope) above,
      )

func-Leaves :
    (lex : LexicalAnalyser) (body : LexicalAnalyser → Option (Bool × LexicalAnalyser))
    (r : Option (Bool × LexicalAnalyser))
    → Leaves lex 1 r
    → ((inner : LexicalAnalyser) → Extends lex 1 inner → Leaves inner 0 (body inner))
    → Leaves lex 0 (
        r >>= λ found.
        if found.0
        then some (true, pop_scope found.1)
        else body found.1 >>= λ last. some (last.0, pop_scope last.1))
func-Leaves lex body r (true, later, e, above) h =
    rw e (true, pop_scope later, refl, Extends-pop lex later above)
func-Leaves lex body r (false, later, e, above) h =
    let (templated, last, f, further) = h later above in
    rw (e, f)
      (
        templated,
        pop_scope last,
        refl,
        Extends-pop lex last (Extends-trans lex later last 1 0 above further),
      )

rest-Leaves :
    (lex : LexicalAnalyser) (rest : LexicalAnalyser → Option (Bool × LexicalAnalyser))
    (r : Option (Bool × LexicalAnalyser))
    → Leaves lex 0 r
    → ((later : LexicalAnalyser) → Extends lex 0 later → Leaves later 0 (rest later))
    → Leaves lex 0 (r >>= λ found. if found.0 then some (true, found.1) else rest found.1)
rest-Leaves lex rest r (true, later, e, above) h = rw e (true, later, refl, above)
rest-Leaves lex rest r (false, later, e, above) h =
    let (templated, last, f, further) = h later above in
    rw (e, f) (templated, last, refl, Extends-trans lex later last 0 0 above further)

branch-Leaves :
    {Children Inner Func : Type 0} (b : NodeBranch) (name room : ℕ) (do_pop : Bool)
    (lex : LexicalAnalyser) (children : LexicalAnalyser → Option (Bool × LexicalAnalyser))
    (func_result : Option (Bool × LexicalAnalyser))
    → BranchHolds b room Children Inner Func
    → HasSignature lex
    → lex.depth + room ≤ 128
    → (Children → Leaves lex 0 (children lex))
    → (Inner
        → 1 ≤ room
        → (inner : LexicalAnalyser) → Extends lex 1 inner
        → Leaves inner 0 (children inner))
    → (Func → Leaves lex 0 func_result)
    → Leaves lex (extra b do_pop) (by_branch b name do_pop lex children func_result)
branch-Leaves name_branch name room do_pop lex children func_result w (i, below, t) d h g k =
    name-Leaves lex (identifier_is_templated lex name lex.depth)
      (identifier_ends lex name i lex.depth below t)
branch-Leaves func_branch name room do_pop lex children func_result w s d h g k = k w
branch-Leaves scope_branch name room do_pop lex children func_result (some_room, w) s d h g k =
    let scope = scope_map_alloc local_kind in
    scope-Leaves lex scope do_pop children (omega arith)
      (g w some_room (with_scope lex scope) (Extends-push lex scope))
branch-Leaves other_branch name room do_pop lex children func_result w s d h g k = h w

mutual
  unfolding check_expression_is_templated check_func_is_templated check_children_are_templated
      IsWellFormed IsWellFormedFunc AreWellFormed

  expression-Leaves :
      (n : AstNode) (room : ℕ) (do_pop : Bool) (lex : LexicalAnalyser)
      → IsWellFormed room n
      → HasSignature lex
      → lex.depth + room ≤ 128
      → Leaves lex (extra (branch n) do_pop) (check_expression_is_templated n do_pop lex)
  expression-Leaves (node tag name children) room do_pop lex w s d =
      branch-Leaves {Children = AreWellFormed room children}
        {Inner = AreWellFormed (room - 1) children} {Func = IsWellFormedFunc room children}
        (branch_of tag) name room do_pop lex (check_children_are_templated children)
        (check_func_is_templated children lex) w s d
        (λ v. check_children-Leaves children room lex v s d)
        (λ v some_room inner x.
          check_children-Leaves children (room - 1) inner v (HasSignature-Extends lex inner 1 x s)
            (omega (arith, x.above, d, some_room)))
        (λ v. check_func-Leaves children room lex v s d)

  check_children-Leaves :
      (children : AstNodes) (room : ℕ) (lex : LexicalAnalyser)
      → AreWellFormed room children
      → HasSignature lex
      → lex.depth + room ≤ 128
      → Leaves lex 0 (check_children_are_templated children lex)
  check_children-Leaves nil room lex w s d = (false, lex, refl, Extends-refl lex)
  check_children-Leaves (cons child rest) room lex w s d =
      rest-Leaves lex (check_children_are_templated rest)
        (check_expression_is_templated child true lex)
        (rw (popped (branch child)) at (expression-Leaves child room true lex w.0 s d))
        (λ later above.
          check_children-Leaves rest room later w.1 (HasSignature-Extends lex later 0 above s)
            (omega (arith, above.above, d)))

  check_func-Leaves :
      (children : AstNodes) (room : ℕ) (lex : LexicalAnalyser)
      → IsWellFormedFunc room children
      → HasSignature lex
      → lex.depth + room ≤ 128
      → Leaves lex 0 (check_func_is_templated children lex)
  check_func-Leaves nil room lex w s d = absurd w
  check_func-Leaves (cons first nil) room lex w s d = absurd w
  check_func-Leaves (cons first (cons body rest)) room lex (some_room, opens, v, u) s d =
      func-Leaves lex (check_expression_is_templated body true)
        (check_expression_is_templated first false lex)
        (rw opens at (expression-Leaves first room false lex v s d))
        (λ inner above. rw (popped (branch body)) at (
          expression-Leaves body (room - 1) true inner u (HasSignature-Extends lex inner 1 above s)
            (omega (arith, above.above, d, some_room))))

-- In a well-formed tree, with a scope of the signature on the stack and room in the array of 128
-- scopes for those that the tree opens within each other, `check_expression_is_templated` returns, and
-- leaves the scopes that it found as they were. It leaves one more above them at a block or a
-- signature that it is told not to pop, and none elsewhere.
pub check_expression_is_templated-Leaves :
    (n : AstNode) (room : ℕ) (do_pop : Bool) (lex : LexicalAnalyser)
    → IsWellFormed room n
    → HasSignature lex
    → lex.depth + room ≤ 128
    → Leaves lex (extra (branch n) do_pop) (check_expression_is_templated n do_pop lex)
check_expression_is_templated-Leaves n room do_pop lex w s d =
    expression-Leaves n room do_pop lex w s d
