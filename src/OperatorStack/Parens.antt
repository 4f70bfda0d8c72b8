-- ===== src/OperatorStack/Parens.antt =====
-- An opening parenthesis that is never closed, in core/parse.cpp.
use toy_language.Base.{ℕ, ◌≡◌, refl, ◌∙◌, true, List, [], ◌∷◌, ◌++◌, arith}
use mathlib.Core.List.{append-nil}
use mathlib.Core.Path.{subst}
use toy_language.AstPool.{AstBuilder}
use toy_language.OperatorStack.{OperatorDescWithSource, built, pop_operator, pop_all, pop_remaining}
use toy_language.OperatorStack.Items.{Item, opening, take_items, parse_items}
use toy_language.OperatorStack.Expression.{Expression, items, construct, pending, paren, Fits}
use toy_language.OperatorStack.Drains.{stack_of, pop_all-Drains}
use toy_language.OperatorStack.Builds.{Builds, builds, take-opening}

finish :
    (b : AstBuilder) (operators : List OperatorDescWithSource) (o : List ℕ)
    → take_items [] b (stack_of operators o) ≡ built true b (stack_of operators o)
unfolding take_items
finish b operators o = refl

take-all :
    (x : Expression) (outer : List OperatorDescWithSource) (builder b : AstBuilder)
    (operators : List OperatorDescWithSource) (operands o : List ℕ)
    → ((more : List Item)
        → take_items (items x ++ more) builder (stack_of outer operands)
          ≡ take_items more b (stack_of operators o))
    → take_items (items x) builder (stack_of outer operands) ≡ built true b (stack_of operators o)
take-all x outer builder b operators operands o e =
    subst
      (λ l. take_items l builder (stack_of outer operands) ≡ built true b (stack_of operators o))
      (append-nil (items x)) (e [] ∙ finish b operators o)

unclosed :
    (source_id : ℕ) (x : Expression) (builder : AstBuilder)
    → Builds x (paren source_id ∷ []) builder []
    → parse_items (opening source_id ∷ items x) builder
      ≡ (let (token, after) = construct x builder in built token after (stack_of [] (token ∷ [])))
unfolding parse_items pop_remaining pop_all pop_operator
unclosed source_id x builder (b, o, e, d) =
    let outer = paren source_id ∷ [] in
    rw
      (
        take-opening source_id [] builder [] (items x) (omega arith),
        take-all x outer builder b (pending x ++ outer) [] o e,
        pop_all-Drains (pending x) outer b (construct x builder).1 o ((construct x builder).0 ∷ [])
            d,
      )
      refl

-- An expression that `Fits` behind an opening parenthesis, that is, whose precedences make it the
-- reading of its tokens and for which the operator and operand stacks have room, builds behind an
-- opening parenthesis that is not closed the same nodes as without it, and is no error.
pub parse_items-unclosed :
    (source_id : ℕ) (x : Expression) (builder : AstBuilder)
    → Fits (paren source_id ∷ []) 0 x
    → parse_items (opening source_id ∷ items x) builder
      ≡ (let (token, after) = construct x builder in built token after (stack_of [] (token ∷ [])))
parse_items-unclosed source_id x builder h =
    unclosed source_id x builder (builds x (paren source_id ∷ []) builder [] h)
