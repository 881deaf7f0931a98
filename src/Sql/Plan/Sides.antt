-- ===== src/Sql/Plan/Sides.antt =====
-- internal/db/sql/plan.go: the value of a logical node from the values of its sides.
use zvec.Base.{◌≡◌, true, false, ◌⊎◌, Bool-cases, inl, inr, arith}
use zvec.Errors.{ok, Result-cases}
use zvec.Sql.Predicate.{Truth}
use zvec.Sql.Plan.{Resolver, LogicalOperator, PlanNode, logical_node, combine, decides, evaluate}

-- A plan whose value is `t` under `resolve`.
abbrev pub Gives : Resolver → PlanNode → Truth → Type 0
Gives resolve node t = evaluate node resolve ≡ ok t

-- The two sides of a logical node that has a value: the left one decides, or both have one.
abbrev pub Sides : Resolver → LogicalOperator → PlanNode → PlanNode → Truth → Type 0
Sides resolve operator left right t =
    (a : Truth) × Gives resolve left a
    × (((decides operator a ≡ true) × (t ≡ a))
        ⊎ ((b : Truth) × (decides operator a ≡ false)
            × Gives resolve right b
            × (t ≡ combine operator a b)))

module _ (resolve : Resolver) where
  pub sides :
      (operator : LogicalOperator) (left right : PlanNode) (t : Truth)
      → Gives resolve (logical_node operator left right) t
      → Sides resolve operator left right t
  unfolding evaluate
  sides operator left right t h = elim (Result-cases (evaluate left resolve)) [
    | inr (e, f) ↦ absurd (ground arith)
    | inl (a, f) ↦ elim (Bool-cases (decides operator a)) [
      | inl d ↦ (a, f, inl (d, ground arith))
      | inr d ↦ elim (Result-cases (evaluate right resolve)) [
        | inr (e, g) ↦ absurd (ground arith)
        | inl (b, g) ↦ (a, f, inr (b, d, g, ground arith))
      ]
    ]
  ]

  pub join :
      (operator : LogicalOperator) (left right : PlanNode) (t : Truth)
      → Sides resolve operator left right t
      → Gives resolve (logical_node operator left right) t
  unfolding evaluate
  join operator left right t (a, f, inl (d, e)) = ground arith
  join operator left right t (a, f, inr (b, d, g, e)) = ground arith

  -- What the sides of a node give, its new sides may give.
  pub Sides-map :
      (operator : LogicalOperator) (left right left' right' : PlanNode) (t : Truth)
      → ((a : Truth) → Gives resolve left a → Gives resolve left' a)
      → ((b : Truth) → Gives resolve right b → Gives resolve right' b)
      → Sides resolve operator left right t
      → Sides resolve operator left' right' t
  Sides-map operator left right left' right' t f g (a, h, inl (d, e)) = (a, f a h, inl (d, e))
  Sides-map operator left right left' right' t f g (a, h, inr (b, d, i, e)) =
      (a, f a h, inr (b, d, g b i, e))
