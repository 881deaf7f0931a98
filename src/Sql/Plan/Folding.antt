-- ===== src/Sql/Plan/Folding.antt =====
-- internal/db/sql/plan.go: the value of a plan when its constants are folded.
use zvec.Base.{◌≡◌, refl, sym, ap, ◌∙◌, true, false, Bool-cases, inl, inr, arith}
use zvec.Errors.{ok}
use zvec.Sql.Predicate.{Truth, truth_unknown, truth_false, truth_true}
use zvec.Sql.Plan.{
  Resolver, LogicalOperator, logical_and, logical_or, PlanNode, constant_node, logical_node,
  predicate_node, combine, decides, evaluate, is_constant, absorbing, neutral, fold_constants,
  optimize_plan,
}
use zvec.Sql.Plan.Sides.{Gives, Sides, sides, join, Sides-map}

decides-absorbing :
    (operator : LogicalOperator) (a : Truth) → decides operator a ≡ true → a ≡ absorbing operator
unfolding decides absorbing
decides-absorbing logical_and truth_false d = refl
decides-absorbing logical_or truth_true d = refl
decides-absorbing logical_and truth_true d = cc
decides-absorbing logical_and truth_unknown d = cc
decides-absorbing logical_or truth_false d = cc
decides-absorbing logical_or truth_unknown d = cc

combine-absorbing :
    (operator : LogicalOperator) (a : Truth)
    → combine operator a (absorbing operator) ≡ absorbing operator
unfolding combine absorbing
combine-absorbing logical_and truth_false = refl
combine-absorbing logical_and truth_true = refl
combine-absorbing logical_and truth_unknown = refl
combine-absorbing logical_or truth_false = refl
combine-absorbing logical_or truth_true = refl
combine-absorbing logical_or truth_unknown = refl

combine-neutral :
    (operator : LogicalOperator) (a : Truth)
    → (combine operator (neutral operator) a ≡ a) × (combine operator a (neutral operator) ≡ a)
unfolding combine neutral
combine-neutral logical_and truth_false = (refl, refl)
combine-neutral logical_and truth_true = (refl, refl)
combine-neutral logical_and truth_unknown = (refl, refl)
combine-neutral logical_or truth_false = (refl, refl)
combine-neutral logical_or truth_true = (refl, refl)
combine-neutral logical_or truth_unknown = (refl, refl)

decides-constants :
    (operator : LogicalOperator)
    → (decides operator (absorbing operator) ≡ true) × (decides operator (neutral operator) ≡ false)
unfolding decides absorbing neutral
decides-constants logical_and = (refl, refl)
decides-constants logical_or = (refl, refl)

is_constant-node :
    (t : Truth) (node : PlanNode) → is_constant t node ≡ true → node ≡ constant_node t
unfolding is_constant
is_constant-node truth_true (constant_node truth_true) h = refl
is_constant-node truth_false (constant_node truth_false) h = refl
is_constant-node truth_unknown (constant_node truth_unknown) h = refl
is_constant-node truth_true (constant_node truth_false) h = cc
is_constant-node truth_true (constant_node truth_unknown) h = cc
is_constant-node truth_false (constant_node truth_true) h = cc
is_constant-node truth_false (constant_node truth_unknown) h = cc
is_constant-node truth_unknown (constant_node truth_true) h = cc
is_constant-node truth_unknown (constant_node truth_false) h = cc
is_constant-node t (logical_node operator left right) h = absurd (ground arith)
is_constant-node t (predicate_node source predicate) h = absurd (ground arith)

module _ (resolve : Resolver) where
  constant-value :
      (v : Truth) (node : PlanNode) (t : Truth)
      → is_constant v node ≡ true
      → Gives resolve node t
      → t ≡ v
  unfolding evaluate
  constant-value v node t c h = ground (arith, is_constant-node v node c)

  left-absorbs :
      (operator : LogicalOperator) (left right : PlanNode) (t : Truth)
      → is_constant (absorbing operator) left ≡ true
      → Sides resolve operator left right t
      → t ≡ absorbing operator
  left-absorbs operator left right t c (a, f, inl (d, e)) = e ∙ decides-absorbing operator a d
  left-absorbs operator left right t c (a, f, inr (b, d, g, e)) =
      let now = constant-value (absorbing operator) left a c f in
      absurd (ground (arith, decides-constants operator))

  right-absorbs :
      (operator : LogicalOperator) (left right : PlanNode) (t : Truth)
      → is_constant (absorbing operator) right ≡ true
      → Sides resolve operator left right t
      → t ≡ absorbing operator
  right-absorbs operator left right t c (a, f, inl (d, e)) = e ∙ decides-absorbing operator a d
  right-absorbs operator left right t c (a, f, inr (b, d, g, e)) =
      e
      ∙ ap (combine operator a) (constant-value (absorbing operator) right b c g)
      ∙ combine-absorbing operator a

  left-neutral :
      (operator : LogicalOperator) (left right : PlanNode) (t : Truth)
      → is_constant (neutral operator) left ≡ true
      → Sides resolve operator left right t
      → Gives resolve right t
  left-neutral operator left right t c (a, f, inl (d, e)) =
      let now = constant-value (neutral operator) left a c f in
      absurd (ground (arith, decides-constants operator))
  left-neutral operator left right t c (a, f, inr (b, d, g, e)) =
      let now = constant-value (neutral operator) left a c f in
      let same = ap (λ x. combine operator x b) now ∙ (combine-neutral operator b).0 in
      g ∙ ap ok (sym (e ∙ same))

  right-neutral :
      (operator : LogicalOperator) (left right : PlanNode) (t : Truth)
      → is_constant (neutral operator) right ≡ true
      → Sides resolve operator left right t
      → Gives resolve left t
  right-neutral operator left right t c (a, f, inl (d, e)) = f ∙ ap ok (sym e)
  right-neutral operator left right t c (a, f, inr (b, d, g, e)) =
      let now = constant-value (neutral operator) right b c g in
      let same = ap (combine operator a) now ∙ (combine-neutral operator a).1 in
      f ∙ ap ok (sym (e ∙ same))

  constant-Gives : (v t : Truth) → t ≡ v → Gives resolve (constant_node v) t
  unfolding evaluate
  constant-Gives v t e = ap ok (sym e)

  fold-Gives :
      (operator : LogicalOperator) (left right : PlanNode) (t : Truth)
      → Gives resolve (logical_node operator left right) t
      → Gives resolve (fold_constants operator left right) t
  unfolding fold_constants
  fold-Gives operator left right t h =
      let s = sides resolve operator left right t h in
      elim (Bool-cases (is_constant (absorbing operator) left)) [
        | inl c ↦
            let now : fold_constants operator left right ≡ constant_node (absorbing operator) =
              ground arith in
            rw now (constant-Gives _ t (left-absorbs operator left right t c s))
        | inr c ↦ elim (Bool-cases (is_constant (absorbing operator) right)) [
          | inl d ↦
              let now : fold_constants operator left right ≡ constant_node (absorbing operator) =
                ground arith in
              rw now (constant-Gives _ t (right-absorbs operator left right t d s))
          | inr d ↦ elim (Bool-cases (is_constant (neutral operator) left)) [
            | inl e ↦
                let now : fold_constants operator left right ≡ right = ground arith in
                rw now (left-neutral operator left right t e s)
            | inr e ↦ elim (Bool-cases (is_constant (neutral operator) right)) [
              | inl f ↦
                  let now : fold_constants operator left right ≡ left = ground arith in
                  rw now (right-neutral operator left right t f s)
              | inr f ↦
                  let now : fold_constants operator left right ≡ logical_node operator left right =
                    ground arith in
                  rw now h
            ]
          ]
        ]
      ]

  -- Folding constants keeps the value of every node that has one.
  pub optimize_plan-Gives :
      (node : PlanNode) (t : Truth) → Gives resolve node t → Gives resolve (optimize_plan node) t
  unfolding optimize_plan
  optimize_plan-Gives (constant_node value) t h = h
  optimize_plan-Gives (predicate_node source predicate) t h = h
  optimize_plan-Gives (logical_node operator left right) t h = fold-Gives operator _ _ t (
      join resolve operator _ _ t (
        Sides-map resolve operator left right _ _ t (optimize_plan-Gives left)
          (optimize_plan-Gives right) (sides resolve operator left right t h)))
