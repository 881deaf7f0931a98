-- ===== src/Sql/Plan/Optimizer.antt =====
-- internal/db/sql/plan.go: the value of a plan before and after the optimizer.
use zvec.Base.{
  ◌≡◌, refl, [], Bool, true, false, ◌&&◌, ◌==◌, Bool-cases, inl, inr, arith, length, if◌then◌else◌,
}
use zvec.Errors.{ok, Result-cases}
use zvec.Sql.Value.{Value, valid}
use zvec.Sql.Predicate.{
  Truth, truth_unknown, truth_false, truth_true, BoundPredicate, is_contain, new_null_predicate,
  bare, evaluate_predicate, evaluate_by, evaluate_contain, signed, truth_not, truth_from_bool,
  first_kind_differs, contain_matched, contains_all, contains_any,
}
use zvec.Sql.Plan.{
  Resolver, LogicalOperator, logical_and, logical_or, ValueSource, PlanNode, constant_node,
  logical_node, predicate_node, resolve_source, combine, decides, evaluate, holds_when_empty,
  rewrite_predicate, rewrite_bound_plan, optimize,
}
use zvec.Sql.Plan.Sides.{Gives, Sides, sides, join}
use zvec.Sql.Plan.Folding.{optimize_plan-Gives}

-- The same truth, but that UNKNOWN may become FALSE.
pub data Refines : Truth → Truth → Type 0 where
  keeps : (t : Truth) → Refines t t
  loses : Refines truth_unknown truth_false

abbrev of_nothing : BoundPredicate → BoundPredicate
of_nothing p = record p { set = [] }

-- A CONTAIN predicate of no values is UNKNOWN on NULL, and the same on every array.
empty-contain :
    (p : BoundPredicate) (v : Value) (t : Truth)
    → is_contain p.operator ≡ true
    → evaluate_predicate (of_nothing p) v ≡ ok t
    → (valid v.scalar.kind ≡ true)
      × (t ≡ (
          if v.null
          then truth_unknown
          else truth_from_bool (holds_when_empty p.operator p.negated)))
unfolding is_contain evaluate_predicate evaluate_by evaluate_contain signed truth_not
    truth_from_bool first_kind_differs contain_matched contains_all contains_any holds_when_empty
empty-contain p v t c h = ground arith

null-kind :
    (v : Value)
    → valid v.scalar.kind ≡ true
    → evaluate_predicate (new_null_predicate true) v
      ≡ ok (if v.null then truth_false else truth_true)
unfolding evaluate_predicate evaluate_by new_null_predicate signed truth_not truth_from_bool bare
null-kind v h = ground arith

-- What an empty CONTAIN gives, and what the node in its place gives.
Refines-empty :
    (null holds : Bool)
    → Refines
        (if null then truth_unknown else truth_from_bool holds)
        (if holds then (if null then truth_false else truth_true) else truth_false)
unfolding truth_from_bool
Refines-empty true true = loses
Refines-empty true false = loses
Refines-empty false true = keeps truth_true
Refines-empty false false = keeps truth_false

of_nothing-id : (p : BoundPredicate) → length p.set == 0 ≡ true → p ≡ of_nothing p
of_nothing-id p h = ground arith

module _ (resolve : Resolver) where
  -- A node whose value refines `t`.
  abbrev GivesRefined : PlanNode → Truth → Type 0
  GivesRefined node t = (t' : Truth) × Gives resolve node t' × Refines t t'

  Refines-decides :
      (operator : LogicalOperator) {a a' : Truth}
      → Refines a a'
      → decides operator a ≡ true
      → decides operator a' ≡ true
  unfolding decides
  Refines-decides operator (keeps a) d = d
  Refines-decides logical_and loses d = refl
  Refines-decides logical_or loses d = cc

  Refines-early :
      (operator : LogicalOperator) {a a' : Truth} (b : Truth)
      → Refines a a'
      → decides operator a ≡ false
      → decides operator a' ≡ true
      → Refines (combine operator a b) a'
  unfolding decides combine
  Refines-early operator b (keeps a) d e = absurd (ground arith)
  Refines-early logical_and truth_true loses d e = loses
  Refines-early logical_and truth_unknown loses d e = loses
  Refines-early logical_and truth_false loses d e = keeps truth_false
  Refines-early logical_or b loses d e = absurd (ground arith)

  loses-left :
      (operator : LogicalOperator) (b : Truth)
      → Refines (combine operator truth_unknown b) (combine operator truth_false b)
  unfolding combine
  loses-left logical_and truth_true = loses
  loses-left logical_and truth_false = keeps truth_false
  loses-left logical_and truth_unknown = loses
  loses-left logical_or truth_true = keeps truth_true
  loses-left logical_or truth_false = loses
  loses-left logical_or truth_unknown = keeps truth_unknown

  loses-right :
      (operator : LogicalOperator) (a : Truth)
      → Refines (combine operator a truth_unknown) (combine operator a truth_false)
  unfolding combine
  loses-right logical_and truth_true = loses
  loses-right logical_and truth_false = keeps truth_false
  loses-right logical_and truth_unknown = loses
  loses-right logical_or truth_true = keeps truth_true
  loses-right logical_or truth_false = loses
  loses-right logical_or truth_unknown = keeps truth_unknown

  loses-both :
      (operator : LogicalOperator)
      → Refines
          (combine operator truth_unknown truth_unknown)
          (combine operator truth_false truth_false)
  unfolding combine
  loses-both logical_and = loses
  loses-both logical_or = loses

  Refines-combine :
      (operator : LogicalOperator) {a b a' b' : Truth}
      → Refines a a'
      → Refines b b'
      → Refines (combine operator a b) (combine operator a' b')
  Refines-combine operator (keeps a) (keeps b) = keeps (combine operator a b)
  Refines-combine operator (keeps a) loses = loses-right operator a
  Refines-combine operator loses (keeps b) = loses-left operator b
  Refines-combine operator loses loses = loses-both operator

  logical-GivesRefined :
      (operator : LogicalOperator) (left right left' right' : PlanNode) (t : Truth)
      → ((a : Truth) → Gives resolve left a → GivesRefined left' a)
      → ((b : Truth) → Gives resolve right b → GivesRefined right' b)
      → Sides resolve operator left right t
      → GivesRefined (logical_node operator left' right') t
  logical-GivesRefined operator left right left' right' t f g (a, h, rest) =
      let (a', h', r) = f a h in
      elim (Bool-cases (decides operator a')) [
        | inl d' ↦ elim rest [
          | inl (d, e) ↦
              (a', join resolve operator left' right' a' (a', h', inl (d', refl)), rw e r)
          | inr (b, d, i, e) ↦ (
            a',
            join resolve operator left' right' a' (a', h', inl (d', refl)),
            rw e (Refines-early operator b r d d'),
          )
        ]
        | inr d' ↦ elim rest [
          | inl (d, e) ↦ absurd (ground (arith, Refines-decides operator r d))
          | inr (b, d, i, e) ↦
              let (b', i', s) = g b i in
              (
                combine operator a' b',
                join resolve operator left' right' _ (a', h', inr (b', d', i', refl)),
                rw e (Refines-combine operator r s),
              )
        ]
      ]

  -- A CONTAIN predicate of no values, and the node that replaces it.
  rewrite_predicate-GivesRefined :
      (source : ValueSource) (p : BoundPredicate) (t : Truth)
      → Gives resolve (predicate_node source p) t
      → GivesRefined (rewrite_predicate source p) t
  unfolding rewrite_predicate evaluate
  rewrite_predicate-GivesRefined source p t h =
      elim (Bool-cases (length p.set == 0 && is_contain p.operator)) [
        | inr other ↦
            let now : rewrite_predicate source p ≡ predicate_node source p = ground arith in
            rw now (t, h, keeps t)
        | inl empty ↦ elim (Result-cases (resolve_source source resolve)) [
          | inr (e, f) ↦ absurd (ground arith)
          | inl (v, f) ↦
              let value : evaluate_predicate p v ≡ ok t = ground arith in
              let nothing = of_nothing-id p (ground arith) in
              let (kind, e) = empty-contain p v t (ground arith) (rw nothing at value) in
              let holds = holds_when_empty p.operator p.negated in
              (
                if holds then (if v.null then truth_false else truth_true) else truth_false,
                ground (arith, null-kind v kind),
                rw e (Refines-empty v.null holds),
              )
        ]
      ]

  rewrite-GivesRefined :
      (node : PlanNode) (t : Truth)
      → Gives resolve node t
      → GivesRefined (rewrite_bound_plan node) t
  unfolding rewrite_bound_plan
  rewrite-GivesRefined (constant_node value) t h = (t, h, keeps t)
  rewrite-GivesRefined (predicate_node source p) t h = rewrite_predicate-GivesRefined source p t h
  rewrite-GivesRefined (logical_node operator left right) t h =
      logical-GivesRefined operator left right _ _ t (rewrite-GivesRefined left)
        (rewrite-GivesRefined right) (sides resolve operator left right t h)

  -- A plan that evaluates still evaluates when it is optimized, to the same truth, but that UNKNOWN
  -- may become FALSE: it retains the same rows.
  pub optimize-GivesRefined :
      (node : PlanNode) (t : Truth)
      → evaluate node resolve ≡ ok t
      → (t' : Truth) × (evaluate (optimize node) resolve ≡ ok t') × Refines t t'
  unfolding optimize
  optimize-GivesRefined node t h =
      let (t', h', r) = rewrite-GivesRefined node t h in
      (t', optimize_plan-Gives resolve _ t' h', r)
