-- ===== src/Examples/Plans.antt =====
-- internal/db/sql: a filter whose equalities on one field become one IN.
use zvec.Base.{All, ℕ, ◌≡◌, refl, List, [], ◌∷◌, true, false, none, some, bytes_equal}
use zvec.Errors.{duplicate_field, ok, err, literal_range, unknown_field}
use zvec.Sql.Value.{
  value_uint32, value_int32, uint32_value, compare_values, scalar_value, zero_scalar, negsuc,
}
use zvec.Sql.Predicate.{
  Truth, truth_true, predicate_eq, predicate_in, bare, any_equal, evaluate_predicate,
}
use zvec.Sql.Plan.{
  Field, Resolver, PlanNode, predicate_node, logical_node, field_source, logical_or, evaluate,
}
use zvec.Sql.Plan.Optimizer.{Refines}
use zvec.Sql.Syntax.{
  LiteralExpr, literal_integer, identifier_expr, literal_expr, list_expr, Expr, logical_expr,
  predicate_expr,
}
use zvec.Sql.Schema.{Schema, new_schema, Usable, new_schema-AllUsable}
use zvec.Sql.Analyzer.{FloatParser, bind_expression, bind_literal}
use zvec.Sql.Rewrite.{rewrite_expression}
use zvec.Sql.Rewrite.Meaning.{rewrite_expression-Gives}
use zvec.Sql.Build.{build_plan, build_plan-Refines}

abbrev no_floats : FloatParser
no_floats bits text = none

abbrev number_field : List ℕ → Field
number_field name = record {
  name = name;
  kind = value_uint32;
  array = false;
  nullable = false;
  filterable = true;
  indexed = false;
  range_optimized = false;
  extended_wildcard = false;
}

abbrev name_a : List ℕ
name_a = b'a' ∷ []

abbrev name_b : List ℕ
name_b = b'b' ∷ []

abbrev two_fields : Schema
two_fields = number_field name_a ∷ number_field name_b ∷ []

abbrev digit : ℕ → LiteralExpr
digit d = record { kind = literal_integer; text = d ∷ [] }

abbrev equals : List ℕ → ℕ → Expr
equals name d = predicate_expr (record {
  operator = predicate_eq;
  left = identifier_expr name;
  right = some (literal_expr (digit d));
  negated = false;
})

abbrev within : List ℕ → List LiteralExpr → Expr
within name literals = predicate_expr (record {
  operator = predicate_in;
  left = identifier_expr name;
  right = some (list_expr literals);
  negated = false;
})

-- a = 1 OR b = 2 OR a IN (3, 4)
abbrev scattered : Expr
scattered =
    logical_expr logical_or (logical_expr logical_or (equals name_a b'1') (equals name_b b'2'))
      (within name_a (digit b'3' ∷ digit b'4' ∷ []))

-- a IN (1, 3, 4) OR b = 2
rewrite_test :
    rewrite_expression scattered
    ≡ logical_expr logical_or
        (within name_a (digit b'1' ∷ digit b'3' ∷ digit b'4' ∷ []))
        (equals name_b b'2')
unfolding rewrite_expression bytes_equal
rewrite_test = refl

-- Every field is 3.
abbrev all_three : Resolver
all_three field = ok (uint32_value 3)

abbrev eq_plan : List ℕ → ℕ → PlanNode
eq_plan name n =
    predicate_node (field_source (number_field name))
      (record (bare predicate_eq) { right = uint32_value n })

abbrev scattered_plan : PlanNode
scattered_plan =
    logical_node logical_or (logical_node logical_or (eq_plan name_a 1) (eq_plan name_b 2)) (
      predicate_node (field_source (number_field name_a))
        (record (bare predicate_in) { set = uint32_value 3 ∷ uint32_value 4 ∷ [] }))

scattered-binds : bind_expression no_floats two_fields scattered ≡ ok scattered_plan
unfolding bind_expression bytes_equal uint32_value bare
scattered-binds = refl

scattered-true : evaluate scattered_plan all_three ≡ ok truth_true
unfolding evaluate bare uint32_value evaluate_predicate compare_values any_equal
scattered-true = refl

rewrite_expression-Gives_example :
    (m : PlanNode) × (bind_expression no_floats two_fields (rewrite_expression scattered) ≡ ok m)
    × (evaluate m all_three ≡ ok truth_true)
rewrite_expression-Gives_example =
    rewrite_expression-Gives no_floats two_fields all_three scattered scattered_plan truth_true
      scattered-binds scattered-true

build_plan-Refines_example :
    (m : PlanNode) × (t : Truth) × (build_plan no_floats two_fields scattered ≡ ok m)
    × (evaluate m all_three ≡ ok t)
    × Refines truth_true t
build_plan-Refines_example =
    build_plan-Refines no_floats two_fields all_three scattered scattered_plan truth_true
      scattered-binds scattered-true

-- Bounds of literals, and a field that the schema does not have
analyzer_tests :
    (bind_literal no_floats (record { kind = literal_integer; text = b'-' ∷ b'7' ∷ [] }) value_int32
      ≡ ok (scalar_value (record (zero_scalar value_int32) { signed = negsuc 6 })))
    × (bind_literal no_floats
          (record { kind = literal_integer; text = b'-' ∷ b'7' ∷ [] })
          value_uint32
        ≡ err literal_range)
    × (bind_expression no_floats [] scattered ≡ err unknown_field)
unfolding bind_literal bind_expression
analyzer_tests = (refl, refl, refl)

two_fields_accepted : new_schema two_fields ≡ ok two_fields
unfolding new_schema bytes_equal
two_fields_accepted = refl

repeated_test :
    new_schema (number_field name_a ∷ number_field name_b ∷ number_field name_a ∷ [])
    ≡ err duplicate_field
unfolding new_schema bytes_equal
repeated_test = refl

new_schema-AllUsable_example : (two_fields ≡ two_fields) × All (Usable two_fields) two_fields
new_schema-AllUsable_example = new_schema-AllUsable two_fields two_fields two_fields_accepted
