-- ===== src/Examples/Filters.antt =====
-- internal/db/sql: patterns of LIKE and a plan that the optimizer changes.
use zvec.Base.{ℕ, ◌≡◌, ◌≢◌, ◌↔◌, refl, List, [], ◌∷◌, true, false}
use zvec.Errors.{ok, err, empty_in}
use zvec.Go.Utf8.{valid_string, runes}
use zvec.Sql.Like.{
  like_contains, like_general, LikePattern, like_pattern, compile_like, like_match, classify_like,
  tokenize_like,
}
use zvec.Sql.Like.Meaning.{IsLike, like_match_iff}
use zvec.Sql.Like.Modes.{Promises, compile_like-Promises}
use zvec.Sql.Value.{value_string, uint32_value, zero_scalar, compare_values}
use zvec.Sql.Predicate.{
  Truth, truth_unknown, truth_false, truth_true, predicate_contain_all, predicate_in, bare,
  new_set_predicate, evaluate_predicate,
}
use zvec.Sql.Plan.{
  Field, Resolver, PlanNode, logical_node, predicate_node, constant_node, logical_and, field_source,
  evaluate, match_plan, optimize,
}
use zvec.Sql.Plan.Optimizer.{Refines, optimize-GivesRefined}

-- a%%b
abbrev doubled : List ℕ
doubled = b'a' ∷ b'%' ∷ b'%' ∷ b'b' ∷ []

-- %é\%%, with é in two bytes
abbrev inner : List ℕ
inner = b'%' ∷ 0xc3 ∷ 0xa9 ∷ b'\\' ∷ b'%' ∷ b'%' ∷ []

doubled-compiles : compile_like doubled ≡ ok (like_pattern doubled)
unfolding compile_like valid_string runes like_pattern
doubled-compiles = refl

inner-compiles : compile_like inner ≡ ok (like_pattern (b'%' ∷ 0xe9 ∷ b'\\' ∷ b'%' ∷ b'%' ∷ []))
unfolding compile_like valid_string runes like_pattern
inner-compiles = refl

-- The mode of the second is CONTAINS, with its percent unescaped.
classify_test : classify_like (tokenize_like (runes inner)) ≡ (like_contains, 0xe9 ∷ b'%' ∷ [])
unfolding classify_like tokenize_like runes
classify_test = refl

like_match_test :
    (like_match (like_pattern doubled) (b'a' ∷ b'x' ∷ b'b' ∷ []) ≡ true)
    × (like_match (like_pattern doubled) (b'a' ∷ b'b' ∷ b'x' ∷ []) ≡ false)
unfolding like_match like_pattern valid_string runes
like_match_test = (refl, refl)

like_match_iff_example : (like_match (like_pattern doubled) (b'a' ∷ b'x' ∷ b'b' ∷ []) ≡ true) ↔ (
    (valid_string (b'a' ∷ b'x' ∷ b'b' ∷ []) ≡ true)
    × IsLike (runes doubled) (runes (b'a' ∷ b'x' ∷ b'b' ∷ [])))
like_match_iff_example =
    like_match_iff doubled (like_pattern doubled) (b'a' ∷ b'x' ∷ b'b' ∷ []) doubled-compiles

abbrev inner_pattern : LikePattern
inner_pattern = like_pattern (b'%' ∷ 0xe9 ∷ b'\\' ∷ b'%' ∷ b'%' ∷ [])

inner_contains : inner_pattern.mode ≢ like_general
unfolding like_pattern
inner_contains e = cc

compile_like-Promises_example :
    (like_match inner_pattern (b'x' ∷ 0xc3 ∷ 0xa9 ∷ b'%' ∷ []) ≡ true) ↔ (
      (valid_string (b'x' ∷ 0xc3 ∷ 0xa9 ∷ b'%' ∷ []) ≡ true)
      × Promises inner_pattern.mode inner_pattern.literal (runes (b'x' ∷ 0xc3 ∷ 0xa9 ∷ b'%' ∷ [])))
compile_like-Promises_example =
    compile_like-Promises inner inner_pattern (b'x' ∷ 0xc3 ∷ 0xa9 ∷ b'%' ∷ []) inner-compiles
      inner_contains

abbrev tags : Field
tags = record {
  name = b't' ∷ [];
  kind = value_string;
  array = true;
  nullable = true;
  filterable = true;
  indexed = false;
  range_optimized = false;
  extended_wildcard = false;
}

-- Every field is the NULL array of strings.
abbrev all_null : Resolver
all_null field = ok (record {
  scalar = record (zero_scalar value_string) { text = [] };
  null = true;
  array = true;
  elements = [];
})

-- t CONTAIN_ALL () AND TRUE
abbrev contains_nothing : PlanNode
contains_nothing =
    logical_node logical_and
      (predicate_node (field_source tags) (record (bare predicate_contain_all) { set = [] }))
      (constant_node truth_true)

-- On NULL the plan is UNKNOWN, and its optimized form FALSE.
optimize_test :
    (evaluate contains_nothing all_null ≡ ok truth_unknown)
    × (evaluate (optimize contains_nothing) all_null ≡ ok truth_false)
    × (match_plan contains_nothing all_null ≡ ok false)
unfolding evaluate optimize match_plan bare evaluate_predicate
optimize_test = (refl, refl, refl)

optimize-GivesRefined_example :
    (t : Truth) × (evaluate (optimize contains_nothing) all_null ≡ ok t) × Refines truth_unknown t
optimize-GivesRefined_example =
    optimize-GivesRefined all_null contains_nothing truth_unknown optimize_test.0

-- Predicates made by the constructors, with their errors
predicate_tests :
    (evaluate_predicate
        (record (bare predicate_in) { set = uint32_value 1 ∷ uint32_value 2 ∷ [] })
        (uint32_value 2)
      ≡ ok truth_true)
    × (new_set_predicate predicate_in false [] ≡ err (empty_in))
unfolding evaluate_predicate bare uint32_value new_set_predicate compare_values
predicate_tests = (refl, refl)
