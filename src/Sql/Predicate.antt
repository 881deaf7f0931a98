-- ===== src/Sql/Predicate.antt =====
-- internal/db/sql/predicate.go: three-valued truth and the predicates of a plan.
use Prim.Native.Nat.{Ordering}
use zvec.Base.{
  ℕ, List, [], ◌∷◌, Bool, true, false, not, ◌||◌, ◌&&◌, Option, none, some, if◌then◌else◌, length,
  ltb,
}
use zvec.Errors.{
  Result, ok, err, ◌>>=◌, ◌>>◌, reject, not_comparison_operator, not_scalar_operand,
  not_set_operator, empty_in, too_many_contain_values, set_value_not_scalar, set_value_kind,
  invalid_value_kind, like_operand, in_operand, contain_operand, contain_kind, bool_order,
}
use zvec.Sql.Value.{
  ValueKind, value_invalid, value_string, value_bool, same_kind, valid, Scalar, Value, zero_scalar,
  scalar_value, compare_values,
}
use zvec.Sql.Like.{LikePattern, compile_like, like_match}

pub data Truth : Type 0 where
  truth_unknown truth_false truth_true : Truth

-- (Truth).Match
unfoldable pub is_true : Truth → Bool
is_true truth_true = true
is_true _ = false

unfoldable pub truth_not : Truth → Truth
truth_not truth_true = truth_false
truth_not truth_false = truth_true
truth_not truth_unknown = truth_unknown

unfoldable pub truth_and : Truth → Truth → Truth
truth_and truth_false _ = truth_false
truth_and truth_true truth_false = truth_false
truth_and truth_unknown truth_false = truth_false
truth_and truth_true truth_true = truth_true
truth_and _ _ = truth_unknown

unfoldable pub truth_or : Truth → Truth → Truth
truth_or truth_true _ = truth_true
truth_or truth_false truth_true = truth_true
truth_or truth_unknown truth_true = truth_true
truth_or truth_false truth_false = truth_false
truth_or _ _ = truth_unknown

unfoldable pub truth_from_bool : Bool → Truth
truth_from_bool true = truth_true
truth_from_bool false = truth_false

pub data PredicateOperator : Type 0 where
  predicate_eq predicate_ne predicate_lt predicate_le predicate_gt predicate_ge : PredicateOperator
  predicate_like predicate_in predicate_contain_all predicate_contain_any : PredicateOperator
  predicate_is_null : PredicateOperator

pub record BoundPredicate : Type 0 where
  pub operator : PredicateOperator
  pub negated : Bool
  pub right : Value
  pub set : List Value
  pub like : Option LikePattern

-- The fields that a composite literal leaves out
unfoldable pub bare : PredicateOperator → BoundPredicate
unfolding scalar_value zero_scalar
bare operator = record {
  operator = operator;
  negated = false;
  right = scalar_value (zero_scalar value_invalid);
  set = [];
  like = none;
}

unfoldable pub is_comparison : PredicateOperator → Bool
is_comparison predicate_eq = true
is_comparison predicate_ne = true
is_comparison predicate_lt = true
is_comparison predicate_le = true
is_comparison predicate_gt = true
is_comparison predicate_ge = true
is_comparison _ = false

unfoldable pub is_in : PredicateOperator → Bool
is_in predicate_in = true
is_in _ = false

unfoldable pub is_contain : PredicateOperator → Bool
is_contain predicate_contain_all = true
is_contain predicate_contain_any = true
is_contain _ = false

unfoldable pub is_plain : Value → Bool
unfolding valid
is_plain v = not (v.null || (v.array || not (valid v.scalar.kind)))

unfoldable pub new_comparison_predicate : PredicateOperator → Value → Result BoundPredicate
unfolding is_comparison is_plain bare
new_comparison_predicate operator right = do
  reject (not (is_comparison operator)) not_comparison_operator
  reject (not (is_plain right)) not_scalar_operand
  ok (record (bare operator) { right = right })

unfoldable pub new_like_predicate : List ℕ → Result BoundPredicate
unfolding bare
new_like_predicate pattern = do
  compiled ← compile_like pattern
  ok (record (bare predicate_like) { like = some compiled })

-- The loop of `NewSetPredicate` behind the first value, whose kind the others must have
unfoldable pub check_set : ValueKind → List Value → Result (Unit {0})
unfolding is_plain same_kind
check_set kind [] = ok tt
check_set kind (v ∷ values) = do
  reject (not (is_plain v)) set_value_not_scalar
  reject (not (same_kind v.scalar.kind kind)) set_value_kind
  check_set kind values

unfoldable pub check_set_values : List Value → Result (Unit {0})
unfolding check_set
check_set_values [] = ok tt
check_set_values (v ∷ values) = check_set v.scalar.kind (v ∷ values)

unfoldable pub is_empty : List Value → Bool
is_empty [] = true
is_empty (v ∷ values) = false

abbrev max_contain_values : ℕ
max_contain_values = 32

unfoldable pub new_set_predicate : PredicateOperator → Bool → List Value → Result BoundPredicate
unfolding is_in is_contain is_empty check_set_values bare
new_set_predicate operator negated values = do
  reject (not (is_in operator || is_contain operator)) not_set_operator
  reject (is_in operator && is_empty values) empty_in
  reject (not (is_in operator) && ltb max_contain_values (length values)) too_many_contain_values
  check_set_values values
  ok (record (bare operator) { negated = negated; set = values })

unfoldable pub new_null_predicate : Bool → BoundPredicate
unfolding bare
new_null_predicate negated = record (bare predicate_is_null) { negated = negated }

is_equal : Ordering → Bool
is_equal Ordering.eq = true
is_equal _ = false

-- `if p.negated { result = result.Not() }`
unfoldable pub signed : Bool → Bool → Truth
unfolding truth_not truth_from_bool
signed negated matched =
    if negated then truth_not (truth_from_bool matched) else truth_from_bool matched

-- The loop of `evaluateIn`, and of `containsValue` with the sides exchanged
unfoldable pub any_equal : Value → List Value → Result Bool
unfolding is_equal
any_equal left [] = ok false
any_equal left (candidate ∷ set) = elim (compare_values left candidate) [
  | err e ↦ err e
  | ok Ordering.eq ↦ ok true
  | ok Ordering.lt ↦ any_equal left set
  | ok Ordering.gt ↦ any_equal left set
]

unfoldable pub contains_value : List Scalar → Value → Result Bool
unfolding scalar_value
contains_value [] needle = ok false
contains_value (s ∷ elements) needle = elim (compare_values (scalar_value s) needle) [
  | err e ↦ err e
  | ok Ordering.eq ↦ ok true
  | ok Ordering.lt ↦ contains_value elements needle
  | ok Ordering.gt ↦ contains_value elements needle
]

-- The two loops of `evaluateContain`
unfoldable pub contains_all : List Scalar → List Value → Result Bool
contains_all elements [] = ok true
contains_all elements (needle ∷ set) = elim (contains_value elements needle) [
  | err e ↦ err e
  | ok false ↦ ok false
  | ok true ↦ contains_all elements set
]

unfoldable pub contains_any : List Scalar → List Value → Result Bool
contains_any elements [] = ok false
contains_any elements (needle ∷ set) = elim (contains_value elements needle) [
  | err e ↦ err e
  | ok true ↦ ok true
  | ok false ↦ contains_any elements set
]

unfoldable pub evaluate_in : BoundPredicate → Value → Result Truth
unfolding signed any_equal
evaluate_in p left = if left.null then ok truth_unknown else (do
  reject left.array in_operand
  matched ← any_equal left p.set
  ok (signed p.negated matched))

unfoldable pub first_kind_differs : Value → List Value → Bool
unfolding same_kind
first_kind_differs left [] = false
first_kind_differs left (v ∷ set) = not (same_kind left.scalar.kind v.scalar.kind)

unfoldable pub contain_matched : PredicateOperator → List Scalar → List Value → Result Bool
unfolding contains_value contains_all contains_any
contain_matched predicate_contain_all elements set = contains_all elements set
contain_matched _ elements set = contains_any elements set

unfoldable pub evaluate_contain : BoundPredicate → Value → Result Truth
unfolding signed first_kind_differs contain_matched
evaluate_contain p left = if left.null then ok truth_unknown else (do
  reject (not left.array) contain_operand
  reject (first_kind_differs left p.set) contain_kind
  matched ← contain_matched p.operator left.elements p.set
  ok (signed p.negated matched))

-- The inner switch of `Evaluate` on the sign of the comparison
unfoldable pub matches : PredicateOperator → Ordering → Bool
matches predicate_eq Ordering.eq = true
matches predicate_ne Ordering.lt = true
matches predicate_ne Ordering.gt = true
matches predicate_lt Ordering.lt = true
matches predicate_le Ordering.lt = true
matches predicate_le Ordering.eq = true
matches predicate_gt Ordering.gt = true
matches predicate_ge Ordering.gt = true
matches predicate_ge Ordering.eq = true
matches _ _ = false

unfoldable pub orders : PredicateOperator → Bool
orders predicate_eq = false
orders predicate_ne = false
orders _ = true

unfoldable pub evaluate_comparison : BoundPredicate → Value → Result Truth
unfolding orders matches same_kind truth_from_bool
evaluate_comparison p left = if left.null then ok truth_unknown else (do
  reject (same_kind left.scalar.kind value_bool && orders p.operator) bool_order
  comparison ← compare_values left p.right
  ok (truth_from_bool (matches p.operator comparison)))

evaluate_like : BoundPredicate → Value → Result Truth
unfolding like_match same_kind truth_from_bool
evaluate_like p left =
    if left.null
    then ok truth_unknown
    else if left.array || not (same_kind left.scalar.kind value_string)
    then err like_operand
    else elim p.like [
      | none ↦ err like_operand
      | some pattern ↦ ok (truth_from_bool (like_match pattern left.scalar.text))
    ]

unfoldable pub evaluate_by : PredicateOperator → BoundPredicate → Value → Result Truth
unfolding signed evaluate_like evaluate_in evaluate_contain evaluate_comparison
evaluate_by predicate_is_null p left = ok (signed p.negated left.null)
evaluate_by predicate_like p left = evaluate_like p left
evaluate_by predicate_in p left = evaluate_in p left
evaluate_by predicate_contain_all p left = evaluate_contain p left
evaluate_by predicate_contain_any p left = evaluate_contain p left
evaluate_by _ p left = evaluate_comparison p left

-- (BoundPredicate).Evaluate
unfoldable pub evaluate_predicate : BoundPredicate → Value → Result Truth
unfolding evaluate_by valid
evaluate_predicate p left = do
  reject (not (valid left.scalar.kind)) invalid_value_kind
  evaluate_by p.operator p left
