-- ===== src/AstPool/Flat.antt =====
-- The nodes that `AstFlatIterator` of core/ast_pool.cpp finds.
use toy_language.Base.{
  ◌==◌, ℕ, zero, suc, ◌+◌, ◌-◌, ◌≤◌, ◌<◌, ◌≡◌, refl, sym, ap, ◌≢◌, true, false, some, List, [], ◌∷◌,
  ◌++◌, map, arith,
}
use mathlib.Core.List.{append_assoc, append-nil}
use mathlib.Core.Path.{subst}
use toy_language.AstPool.{Memory, flat, flat_ancestors_of}
use toy_language.AstPool.Layout.{Forest, nil, grow, extent, count, StandsAt, visits}

-- The places of the nodes of a forest, each before what is below it.
abbrev pub places : ℕ → Forest → List ℕ
places place nil = []
places place (grow own below beside) =
    place ∷ places (place + own) below ++ places (place + (own + extent below)) beside

step :
    (memory : Memory) (fuel after place end own : ℕ) (nodes : List ℕ)
    → fuel ≡ suc after
    → (memory place).own_qwords ≡ own
    → (place ≢ end)
    → flat after memory (place + own) end ≡ some nodes
    → flat fuel memory place end ≡ some (place ∷ nodes)
unfolding flat
step memory fuel after place end own nodes e f g h =
    let more : (place == end) ≡ false = ground arith in rw (e, f, more, h) refl

flat-places :
    (memory : Memory) (forest : Forest) (place end rest : ℕ) (nodes : List ℕ)
    → StandsAt memory place forest
    → place + extent forest ≤ end
    → flat rest memory (place + extent forest) end ≡ some nodes
    → flat (count forest + rest) memory place end ≡ some (places place forest ++ nodes)
flat-places memory nil place end rest nodes s k h =
    let e : place + 0 ≡ place = omega arith in
    let f : rest ≡ 0 + rest = omega arith in
    subst (λ n. flat n memory place end ≡ some nodes) f
      (subst (λ p. flat rest memory p end ≡ some nodes) e h)
flat-places memory (grow own below beside) place end rest nodes (n, b, s) k h =
    let after = place + (own + extent below) in
    let more = count beside + rest in
    let later = places after beside ++ nodes in
    let positive = n.positive in
    let last : after + extent beside ≡ place + (own + extent below + extent beside) = omega arith in
    step memory _ (count below + more) place end own _ (omega arith) n.own_qwords (λ e. omega arith)
      (subst (λ l. flat (count below + more) memory (place + own) end ≡ some l)
        (sym (append_assoc (places (place + own) below) (places after beside) nodes))
        (flat-places memory below (place + own) end more later b (omega arith) (
          subst (λ p. flat more memory p end ≡ some later)
            (let e : after ≡ place + own + extent below = omega arith in e)
            (flat-places memory beside after end rest nodes s (omega arith)
              (subst (λ p. flat rest memory p end ≡ some nodes) (sym last) h)))))

map-append : (f : ℕ × ℕ → ℕ) (xs ys : List (ℕ × ℕ)) → map f (xs ++ ys) ≡ map f xs ++ map f ys
map-append f [] ys = refl
map-append f (x ∷ xs) ys = ap (λ l. f x ∷ l) (map-append f xs ys)

abbrev pub place_in : ℕ × ℕ → ℕ
place_in (place, depth) = place

map-visits :
    (forest : Forest) (place depth : ℕ)
    → places place forest ≡ map place_in (visits place depth forest)
map-visits nil place depth = refl
map-visits (grow own below beside) place depth =
    let after = place + (own + extent below) in
    rw (map-visits below (place + own) (depth + 1), map-visits beside after depth)
      (ap (λ l. place ∷ l)
        (sym (
          map-append place_in (visits (place + own) (depth + 1) below)
            (visits after depth beside))))

flat-end : (memory : Memory) (end fuel : ℕ) → 0 < fuel → flat fuel memory end end ≡ some []
unfolding flat
flat-end memory end zero k = absurd (omega arith)
flat-end memory end (suc fuel) k = let same : (end == end) ≡ true = ground arith in rw same refl

-- For a node whose subtree stands in memory, the flat iterator, with at least two more rounds than
-- there are nodes below it, ends, and gives the node itself and then every node below it, each before
-- its own children and the children in the order of the trees.
pub flat_ancestors_of-visits :
    (memory : Memory) (place own fuel : ℕ) (below beside : Forest)
    → StandsAt memory place (grow own below beside)
    → count below + 2 ≤ fuel
    → flat_ancestors_of fuel memory place
      ≡ some (place ∷ map place_in (visits (place + own) 0 below))
unfolding flat_ancestors_of
flat_ancestors_of-visits memory place own fuel below beside (n, b, s) k =
    let rest = fuel - count below - 1 in
    let positive = n.positive in
    let end = place + (own + extent below) in
    rw (n.offset, sym (map-visits below (place + own) 0))
      (step memory fuel (count below + rest) place end own _ (omega arith) n.own_qwords
        (λ e. omega arith)
        (subst (λ l. flat (count below + rest) memory (place + own) end ≡ some l)
          (append-nil (places (place + own) below))
          (flat-places memory below (place + own) end rest [] b (omega arith) (
            subst (λ p. flat rest memory p end ≡ some [])
              (let e : end ≡ place + own + extent below = omega arith in e)
              (flat-end memory end rest (omega arith))))))
