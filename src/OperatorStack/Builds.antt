-- ===== src/OperatorStack/Builds.antt =====
-- The nodes that the operator stack of core/parse.cpp builds for an expression.
use toy_language.Base.{
  ◌==◌, length, ℕ, ◌<◌, ◌≡◌, refl, sym, ◌∙◌, true, false, List, [], ◌∷◌, ◌++◌, arith,
}
use mathlib.Core.List.{append_assoc, append-nil}
use toy_language.Templating.{AstTag}
use toy_language.AstPool.{AstBuilder}
use toy_language.OperatorStack.{
  OperatorDescWithSource, built, pop_operator, pop_to_precedence, push_operand, push_operator,
  pop_all, pop_remaining,
}
use toy_language.OperatorStack.Items.{
  Item, operator, opening, closing, take_item, take_items, parse_items,
}
use toy_language.OperatorStack.Expression.{
  Expression, leaf, prefix, postfix, infix_of, parens, items, construct, pending, paren, ArePopped,
  PopsAll, CanPush, Fits,
}
use toy_language.OperatorStack.Drains.{
  stops-Looser, stack_of, Drains, pop-Drains, pop_all-Drains, take-operator, drain_one, drain_two,
  drain_append,
}

-- After its items, an expression has these operators waiting, which build the rest of it.
abbrev pub Builds : Expression → List OperatorDescWithSource → AstBuilder → List ℕ → Type 0
Builds x outer builder operands =
    (b : AstBuilder) × (o : List ℕ) × ((more : List Item)
      → take_items (items x ++ more) builder (stack_of outer operands)
        ≡ take_items more b (stack_of (pending x ++ outer) o))
    × Drains (pending x) outer b o (construct x builder).1 ((construct x builder).0 ∷ operands)

Builds-leaf :
    (source_id flags : ℕ) (tag : AstTag) (qwords : ℕ) (outer : List OperatorDescWithSource)
    (builder : AstBuilder) (operands : List ℕ)
    → length operands < 127
    → Builds (leaf source_id flags tag qwords) outer builder operands
unfolding construct take_items take_item push_operand
Builds-leaf source_id flags tag qwords outer builder operands h =
    let room : (length operands == 127) ≡ false = ground arith in
    (_, _, (λ more. rw room refl), (refl, refl))

Builds-prefix :
    (op : OperatorDescWithSource) (x : Expression) (outer : List OperatorDescWithSource)
    (builder : AstBuilder) (operands : List ℕ)
    → CanPush op false outer
    → Builds x (op ∷ outer) builder operands
    → Builds (prefix op x) outer builder operands
unfolding construct
Builds-prefix op x outer builder operands c (b, o, e, d) = (
  b,
  o,
  (λ more.
      take-operator op false [] outer builder builder operands operands (items x ++ more) c tt
        (refl, refl)
      ∙ rw (append_assoc (pending x) (op ∷ []) outer) (e more)),
  drain_append (pending x) (op ∷ []) outer b _ _ o _ _ d (drain_one op outer _ _ operands c),
)

Builds-postfix :
    (op : OperatorDescWithSource) (x : Expression) (outer : List OperatorDescWithSource)
    (builder : AstBuilder) (operands : List ℕ)
    → CanPush op false outer
    → PopsAll op (pending x)
    → Builds x outer builder operands
    → Builds (postfix op x) outer builder operands
unfolding construct
Builds-postfix op x outer builder operands c h (b, o, e, d) = (
  (construct x builder).1,
  (construct x builder).0 ∷ operands,
  (λ more.
      rw (append_assoc (items x) (operator op ∷ []) more)
        (e (operator op ∷ more) ∙ take-operator op false (pending x) outer b _ o _ more c h d)),
  drain_one op outer _ _ operands c,
)

Builds-infix :
    (op : OperatorDescWithSource) (x y : Expression) (outer : List OperatorDescWithSource)
    (builder : AstBuilder) (operands : List ℕ)
    → CanPush op true outer
    → PopsAll op (pending x)
    → Builds x outer builder operands
    → Builds y (op ∷ outer) (construct x builder).1 ((construct x builder).0 ∷ operands)
    → Builds (infix_of op x y) outer builder operands
unfolding construct
Builds-infix op x y outer builder operands c h (b, o, e, d) (b', o', e', d') = (
  b',
  o',
  (λ more.
      rw
        (
          append_assoc (items x) (operator op ∷ items y) more,
          append_assoc (pending y) (op ∷ []) outer,
        )
        (e (operator op ∷ items y ++ more)
          ∙ take-operator op true (pending x) outer b _ o _ (items y ++ more) c h d
          ∙ e' more)),
  drain_append (pending y) (op ∷ []) outer b' _ _ o' _ _ d' (drain_two op outer _ _ _ operands c),
)

pub take-opening :
    (source_id : ℕ) (outer : List OperatorDescWithSource) (builder : AstBuilder) (operands : List ℕ)
    (more : List Item)
    → length outer < 64
    → take_items (opening source_id ∷ more) builder (stack_of outer operands)
      ≡ take_items more builder (stack_of (paren source_id ∷ outer) operands)
unfolding take_items take_item push_operator
take-opening source_id outer builder operands more r =
    let room : (length outer == 64) ≡ false = ground arith in rw room refl

take-closing :
    (source_id : ℕ) (waiting outer : List OperatorDescWithSource) (builder builder' : AstBuilder)
    (operands operands' : List ℕ) (more : List Item)
    → ArePopped 10 false waiting
    → Drains waiting (paren source_id ∷ outer) builder operands builder' operands'
    → take_items (closing ∷ more) builder (stack_of (waiting ++ (paren source_id ∷ outer)) operands)
      ≡ take_items more builder' (stack_of outer operands')
unfolding take_items take_item pop_to_precedence
take-closing source_id waiting outer builder builder' operands operands' more h d =
    rw
      (pop-Drains 10 false waiting (paren source_id ∷ outer) builder builder' operands operands' h
        d)
      refl

Builds-parens :
    (source_id : ℕ) (x : Expression) (outer : List OperatorDescWithSource) (builder : AstBuilder)
    (operands : List ℕ)
    → length outer < 64
    → ArePopped 10 false (pending x)
    → Builds x (paren source_id ∷ outer) builder operands
    → Builds (parens source_id x) outer builder operands
unfolding construct
Builds-parens source_id x outer builder operands r h (b, o, e, d) = (
  (construct x builder).1,
  (construct x builder).0 ∷ operands,
  (λ more. rw (append_assoc (items x) (closing ∷ []) more) (
      take-opening source_id outer builder operands (items x ++ (closing ∷ more)) r
      ∙ e (closing ∷ more)
      ∙ take-closing source_id (pending x) outer b _ o _ more h d)),
  (refl, refl),
)

pub builds :
    (x : Expression) (outer : List OperatorDescWithSource) (builder : AstBuilder)
    (operands : List ℕ)
    → Fits outer (length operands) x
    → Builds x outer builder operands
builds (leaf source_id flags tag qwords) outer builder operands h =
    Builds-leaf source_id flags tag qwords outer builder operands h
builds (prefix op x) outer builder operands (c, h) =
    Builds-prefix op x outer builder operands c (builds x (op ∷ outer) builder operands h)
builds (postfix op x) outer builder operands (c, p, h) =
    Builds-postfix op x outer builder operands c p (builds x outer builder operands h)
builds (infix_of op x y) outer builder operands (c, p, h, k) =
    Builds-infix op x y outer builder operands c p (builds x outer builder operands h)
      (builds y (op ∷ outer) (construct x builder).1 ((construct x builder).0 ∷ operands) k)
builds (parens source_id x) outer builder operands (r, p, h) =
    Builds-parens source_id x outer builder operands r p
      (builds x (paren source_id ∷ outer) builder operands h)

from_start :
    (x : Expression) (builder : AstBuilder)
    → Builds x [] builder []
    → parse_items (items x) builder
      ≡ (let (token, after) = construct x builder in built token after (stack_of [] (token ∷ [])))
unfolding parse_items take_items pop_remaining pop_all
from_start x builder (b, o, e, d) =
    rw
      (
        sym (append-nil (items x)),
        e [],
        pop_all-Drains (pending x) [] b (construct x builder).1 o ((construct x builder).0 ∷ []) d,
      )
      refl

-- The items of an expression that means what it says by the precedences of its operators, and for
-- which there is room on the two stacks, build its nodes in postorder, and leave its root as the only
-- operand.
pub parse_items-construct :
    (x : Expression) (builder : AstBuilder)
    → Fits [] 0 x
    → parse_items (items x) builder
      ≡ (let (token, after) = construct x builder in built token after (stack_of [] (token ∷ [])))
parse_items-construct x builder h = from_start x builder (builds x [] builder [] h)

-- After an operand, two postfix operators of which the second does not pop the first build the nodes
-- the other way round: the second one's is below the first one's.
pub parse_items-postfix :
    (first second : OperatorDescWithSource) (source_id flags : ℕ) (tag : AstTag) (qwords : ℕ)
    (builder : AstBuilder)
    → CanPush first false []
    → CanPush second false (first ∷ [])
    → parse_items (items (postfix second (postfix first (leaf source_id flags tag qwords)))) builder
      ≡ (let (token, after) =
            construct (postfix first (postfix second (leaf source_id flags tag qwords))) builder in
          built token after (stack_of [] (token ∷ [])))
unfolding parse_items take_items take_item push_operand push_operator pop_to_precedence
    pop_remaining pop_all pop_operator construct
parse_items-postfix first second source_id flags tag qwords builder c d =
    rw
      (
        c.proper,
        d.proper,
        stops-Looser second.operator_desc.precedence second.operator_desc.is_right_to_left first
            d.above,
        c.arity,
        d.arity,
        c.proper,
        d.proper,
      )
      refl
