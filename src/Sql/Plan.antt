-- ===== src/Sql/Plan.antt =====
-- internal/db/sql/plan.go: the plan of a filter, its evaluation and its optimizer. The texts for
-- `Explain` and the counts of `PlanStats` are not modelled.
pub mod Sides
pub mod Folding
pub mod Optimizer
use zvec.Base.{
  ℕ, ◌-◌, ◌^◌, List, [], ◌∷◌, Bool, true, false, not, ◌&&◌, Option, none, some, ◌==◌, if◌then◌else◌,
  length, ltb,
}
use zvec.Errors.{Result, ok, err, ◌>>=◌, ◌>>◌, reject, array_length_operand, array_too_long}
use zvec.Sql.Value.{ValueKind, value_uint32, Value, null_value, uint32_value}
use zvec.Sql.Predicate.{
  Truth, truth_unknown, truth_false, truth_true, is_true, truth_and, truth_or, PredicateOperator,
  predicate_contain_all, predicate_contain_any, BoundPredicate, is_contain, new_null_predicate,
  evaluate_predicate,
}

pub record Field : Type 0 where
  pub name : List ℕ
  pub kind : ValueKind
  pub array : Bool
  pub nullable : Bool
  pub filterable : Bool
  pub indexed : Bool
  pub range_optimized : Bool
  pub extended_wildcard : Bool

abbrev pub Resolver : Type 0
Resolver = Field → Result Value

pub data LogicalOperator : Type 0 where
  logical_and logical_or : LogicalOperator

pub data ValueSource : Type 0 where
  field_source array_length_source : Field → ValueSource

pub data PlanNode : Type 0 where
  constant_node : Truth → PlanNode
  logical_node : LogicalOperator → PlanNode → PlanNode → PlanNode
  predicate_node : ValueSource → BoundPredicate → PlanNode

array_length : Value → Result Value
unfolding null_value uint32_value
array_length v = if v.null then null_value value_uint32 false else (do
  reject (not v.array) array_length_operand
  reject (ltb (2 ^ 32 - 1) (length v.elements)) array_too_long
  ok (uint32_value (length v.elements)))

unfoldable pub resolve_source : ValueSource → Resolver → Result Value
unfolding array_length
resolve_source (field_source field) resolve = resolve field
resolve_source (array_length_source field) resolve = resolve field >>= array_length

unfoldable pub combine : LogicalOperator → Truth → Truth → Truth
unfolding truth_and truth_or
combine logical_and left right = truth_and left right
combine logical_or left right = truth_or left right

-- Whether the left side decides
unfoldable pub decides : LogicalOperator → Truth → Bool
decides logical_and truth_false = true
decides logical_or truth_true = true
decides _ _ = false

unfoldable pub evaluate : PlanNode → Resolver → Result Truth
unfolding resolve_source combine decides evaluate_predicate
evaluate (constant_node value) resolve = ok value
evaluate (logical_node operator left right) resolve = do
  first ← evaluate left resolve
  elim (decides operator first) [
    | true ↦ ok first
    | false ↦ evaluate right resolve >>= λ second. ok (combine operator first second)
  ]
evaluate (predicate_node source predicate) resolve =
    resolve_source source resolve >>= evaluate_predicate predicate

-- (*Plan).Match
unfoldable pub match_plan : PlanNode → Resolver → Result Bool
unfolding evaluate is_true
match_plan root resolve = evaluate root resolve >>= λ result. ok (is_true result)

-- A CONTAIN_ALL of nothing, or a negated CONTAIN_ANY of nothing, holds for every array.
unfoldable pub holds_when_empty : PredicateOperator → Bool → Bool
holds_when_empty predicate_contain_all negated = not negated
holds_when_empty predicate_contain_any negated = negated
holds_when_empty _ negated = false

unfoldable pub rewrite_predicate : ValueSource → BoundPredicate → PlanNode
unfolding is_contain holds_when_empty new_null_predicate
rewrite_predicate source predicate =
    if length predicate.set == 0 && is_contain predicate.operator
    then if holds_when_empty predicate.operator predicate.negated
      then predicate_node source (new_null_predicate true)
      else constant_node truth_false
    else predicate_node source predicate

unfoldable pub rewrite_bound_plan : PlanNode → PlanNode
unfolding rewrite_predicate
rewrite_bound_plan (logical_node operator left right) =
    logical_node operator (rewrite_bound_plan left) (rewrite_bound_plan right)
rewrite_bound_plan (predicate_node source predicate) = rewrite_predicate source predicate
rewrite_bound_plan (constant_node value) = constant_node value

unfoldable pub is_constant : Truth → PlanNode → Bool
is_constant truth_true (constant_node truth_true) = true
is_constant truth_false (constant_node truth_false) = true
is_constant truth_unknown (constant_node truth_unknown) = true
is_constant _ _ = false

-- What the operator takes from one side whatever the other is, and what leaves the other as it is.
unfoldable pub absorbing : LogicalOperator → Truth
absorbing logical_and = truth_false
absorbing logical_or = truth_true

unfoldable pub neutral : LogicalOperator → Truth
neutral logical_and = truth_true
neutral logical_or = truth_false

unfoldable pub fold_constants : LogicalOperator → PlanNode → PlanNode → PlanNode
unfolding is_constant absorbing neutral
fold_constants operator left right = elim (is_constant (absorbing operator) left) [
  | true ↦ constant_node (absorbing operator)
  | false ↦ elim (is_constant (absorbing operator) right) [
    | true ↦ constant_node (absorbing operator)
    | false ↦ elim (is_constant (neutral operator) left) [
      | true ↦ right
      | false ↦ elim (is_constant (neutral operator) right) [
        | true ↦ left
        | false ↦ logical_node operator left right
      ]
    ]
  ]
]

unfoldable pub optimize_plan : PlanNode → PlanNode
unfolding fold_constants
optimize_plan (logical_node operator left right) =
    fold_constants operator (optimize_plan left) (optimize_plan right)
optimize_plan (predicate_node source predicate) = predicate_node source predicate
optimize_plan (constant_node value) = constant_node value

unfoldable pub optimize : PlanNode → PlanNode
unfolding rewrite_bound_plan optimize_plan
optimize node = optimize_plan (rewrite_bound_plan node)
