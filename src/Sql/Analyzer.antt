-- ===== src/Sql/Analyzer.antt =====
-- internal/db/sql/analyzer.go: filters bound to the fields of a schema. Parsing a float is a parameter;
-- the list of fields that a plan reads is left out.
use zvec.Base.{
  ℕ, ◌+◌, ◌-◌, ◌*◌, ◌^◌, List, [], ◌∷◌, Bool, true, false, not, ◌&&◌, Option, none, some, ltb, leb,
  ◌==◌, bytes_equal, if◌then◌else◌,
}
use zvec.Errors.{
  Result, ok, err, ◌>>=◌, ◌>>◌, reject, unknown_field, unfilterable_field, array_operator,
  scalar_operator, bad_operand, bad_function, literal_type, literal_range, like_operand, bool_order,
}
use zvec.Sql.Value.{
  ValueKind, value_invalid, value_binary, value_string, value_bool, value_int32, value_int64,
  value_uint32, value_uint64, value_float32, value_float64, ℤ, pos, negsuc, Value, scalar_value,
  zero_scalar, same_kind,
}
use zvec.Sql.Predicate.{
  PredicateOperator, predicate_like, predicate_in, predicate_is_null, predicate_contain_all,
  predicate_contain_any, is_contain, is_comparison, orders, BoundPredicate,
  new_comparison_predicate, new_like_predicate, new_set_predicate, new_null_predicate,
}
use zvec.Sql.Plan.{
  Field, PlanNode, logical_node, predicate_node, ValueSource, field_source, array_length_source,
}
use zvec.Sql.Schema.{Schema, find_field}
use zvec.Sql.Syntax.{
  LiteralKind, literal_integer, literal_float, literal_string, literal_bool, LiteralExpr, ValueExpr,
  identifier_expr, call_expr, literal_expr, list_expr, Arguments, no_arguments, argument,
  PredicateExpr, Expr, logical_expr, predicate_expr,
}

-- strconv.ParseFloat for 32 or 64 bits: a finite float, or an error
abbrev pub FloatParser : Type 0
FloatParser = ℕ → List ℕ → Option ℤ

unfoldable pub require_field : Schema → List ℕ → Result Field
unfolding find_field
require_field schema name = elim (find_field name schema) [
  | none ↦ err unknown_field
  | some field ↦ if field.filterable then ok field else err unfilterable_field
]

-- The digits of a number in base 10, at least one
unfoldable pub parse_digits : ℕ → List ℕ → Option ℕ
parse_digits n [] = some n
parse_digits n (b ∷ digits) = elim (leb b'0' b && leb b b'9') [
  | true ↦ parse_digits (n * 10 + (b - b'0')) digits
  | false ↦ none
]

unfoldable pub parse_natural : List ℕ → Option ℕ
unfolding parse_digits
parse_natural [] = none
parse_natural (b ∷ digits) = parse_digits 0 (b ∷ digits)

-- strconv.ParseUint: the number, if it is below `limit`
unfoldable pub within_limit : ℕ → Option ℕ → Option ℕ
within_limit limit none = none
within_limit limit (some n) = if ltb n limit then some n else none

unfoldable pub negative : Option ℕ → Option ℤ
negative none = none
negative (some n) = if n == 0 then some (pos 0) else some (negsuc (n - 1))

unfoldable pub nonnegative : Option ℕ → Option ℤ
nonnegative none = none
nonnegative (some n) = some (pos n)

-- strconv.ParseInt: `half` is 2^31 or 2^63.
unfoldable pub parse_int : ℕ → List ℕ → Option ℤ
unfolding parse_natural within_limit negative nonnegative
parse_int half [] = none
parse_int half (b ∷ text) =
    if b == b'-'
    then negative (within_limit (half + 1) (parse_natural text))
    else if b == b'+'
    then nonnegative (within_limit half (parse_natural text))
    else nonnegative (within_limit half (parse_natural (b ∷ text)))

unfoldable pub signed_value : ValueKind → Option ℤ → Result Value
unfolding scalar_value zero_scalar
signed_value kind none = err literal_range
signed_value kind (some n) = ok (scalar_value (record (zero_scalar kind) { signed = n }))

unfoldable pub unsigned_value : ValueKind → Option ℕ → Result Value
unfolding scalar_value zero_scalar
unsigned_value kind none = err literal_range
unsigned_value kind (some n) = ok (scalar_value (record (zero_scalar kind) { unsigned = n }))

unfoldable pub number_value : ValueKind → Option ℤ → Result Value
unfolding scalar_value zero_scalar
number_value kind none = err literal_range
number_value kind (some n) = ok (scalar_value (record (zero_scalar kind) { number = n }))

-- strings.TrimSuffix with a suffix of one byte
unfoldable pub trim_suffix : ℕ → List ℕ → List ℕ
trim_suffix c [] = []
trim_suffix c (b ∷ []) = if b == c then [] else b ∷ []
trim_suffix c (b ∷ (next ∷ text)) = b ∷ trim_suffix c (next ∷ text)

-- The text of a float less its suffixes f, F, d and D, each once and in this order
unfoldable pub trim_float : List ℕ → List ℕ
unfolding trim_suffix
trim_float text = trim_suffix b'D' (trim_suffix b'd' (trim_suffix b'F' (trim_suffix b'f' text)))

unfoldable pub is_string : LiteralKind → Bool
is_string literal_string = true
is_string _ = false

unfoldable pub is_bool : LiteralKind → Bool
is_bool literal_bool = true
is_bool _ = false

unfoldable pub is_integer : LiteralKind → Bool
is_integer literal_integer = true
is_integer _ = false

unfoldable pub is_numeric : LiteralKind → Bool
is_numeric literal_integer = true
is_numeric literal_float = true
is_numeric _ = false

unfoldable pub bind_literal : FloatParser → LiteralExpr → ValueKind → Result Value
unfolding trim_float is_string is_bool is_integer is_numeric parse_int parse_natural within_limit
    signed_value unsigned_value number_value scalar_value zero_scalar
bind_literal parse_float l kind = elim kind [
  | value_invalid ↦ err literal_type
  | value_binary ↦
      if is_string l.kind
      then ok (scalar_value (record (zero_scalar value_binary) { binary = l.text }))
      else err literal_type
  | value_string ↦
      if is_string l.kind
      then ok (scalar_value (record (zero_scalar value_string) { text = l.text }))
      else err literal_type
  | value_bool ↦
      if is_bool l.kind
      then ok (
          scalar_value (record (zero_scalar value_bool) {
            boolean = bytes_equal l.text (b't' ∷ b'r' ∷ b'u' ∷ b'e' ∷ []);
          }))
      else err literal_type
  | value_int32 ↦
      if is_integer l.kind
      then signed_value value_int32 (parse_int (2 ^ 31) l.text)
      else err literal_type
  | value_int64 ↦
      if is_integer l.kind
      then signed_value value_int64 (parse_int (2 ^ 63) l.text)
      else err literal_type
  | value_uint32 ↦
      if is_integer l.kind
      then unsigned_value value_uint32 (within_limit (2 ^ 32) (parse_natural l.text))
      else err literal_type
  | value_uint64 ↦
      if is_integer l.kind
      then unsigned_value value_uint64 (within_limit (2 ^ 64) (parse_natural l.text))
      else err literal_type
  | value_float32 ↦
      if is_numeric l.kind
      then number_value value_float32 (parse_float 32 (trim_float l.text))
      else err literal_type
  | value_float64 ↦
      if is_numeric l.kind
      then number_value value_float64 (parse_float 64 (trim_float l.text))
      else err literal_type
]

unfoldable pub bind_literals : FloatParser → List LiteralExpr → ValueKind → Result (List Value)
unfolding bind_literal
bind_literals parse_float [] kind = ok []
bind_literals parse_float (l ∷ literals) kind = do
  value ← bind_literal parse_float l kind
  values ← bind_literals parse_float literals kind
  ok (value ∷ values)

-- "array_length"
abbrev array_length_name : List ℕ
array_length_name =
    b'a' ∷ b'r' ∷ b'r' ∷ b'a' ∷ b'y' ∷ b'_' ∷ b'l' ∷ b'e' ∷ b'n' ∷ b'g' ∷ b't' ∷ b'h' ∷ []

-- The argument of `array_length`, and the field that stands for its result; its name, which only the texts
-- of errors show, is the array's.
unfoldable pub bind_array_length : Schema → Arguments → Result (ValueSource × Field)
unfolding require_field
bind_array_length schema (argument (identifier_expr name) no_arguments) = do
  field ← require_field schema name
  reject (not field.array) scalar_operator
  ok (
    array_length_source field,
    record field {
      kind = value_uint32;
      array = false;
      filterable = true;
      indexed = false;
      range_optimized = false;
      extended_wildcard = false;
    },
  )
bind_array_length schema _ = err bad_function

unfoldable pub bind_source : Schema → ValueExpr → Result (ValueSource × Field)
unfolding require_field bind_array_length bytes_equal
bind_source schema (identifier_expr name) =
    require_field schema name >>= λ field. ok (field_source field, field)
bind_source schema (call_expr name arguments) =
    if bytes_equal name array_length_name
    then bind_array_length schema arguments
    else err bad_function
bind_source schema _ = err bad_operand

unfoldable pub is_array_length : ValueSource → Bool
is_array_length (array_length_source field) = true
is_array_length (field_source field) = false

unfoldable pub allows_array : PredicateOperator → Bool
unfolding is_contain
allows_array predicate_is_null = true
allows_array operator = is_contain operator

unfoldable pub bind_set_predicate :
    FloatParser → PredicateOperator → Bool → Option ValueExpr → ValueKind → Result BoundPredicate
unfolding bind_literals new_set_predicate
bind_set_predicate parse_float operator negated (some (list_expr literals)) kind = do
  values ← bind_literals parse_float literals kind
  new_set_predicate operator negated values
bind_set_predicate parse_float operator negated _ kind = err bad_operand

unfoldable pub bind_like : Option ValueExpr → Field → Result BoundPredicate
unfolding is_string new_like_predicate same_kind
bind_like (some (literal_expr l)) field = do
  reject (not (same_kind field.kind value_string)) like_operand
  reject (not (is_string l.kind)) bad_operand
  new_like_predicate l.text
bind_like _ field = do
  reject (not (same_kind field.kind value_string)) like_operand
  err bad_operand

unfoldable pub bind_comparison :
    FloatParser → PredicateOperator → Option ValueExpr → Field → Result BoundPredicate
unfolding bind_literal new_comparison_predicate same_kind orders
bind_comparison parse_float operator (some (literal_expr l)) field = do
  reject (same_kind field.kind value_bool && orders operator) bool_order
  value ← bind_literal parse_float l field.kind
  new_comparison_predicate operator value
bind_comparison parse_float operator _ field = do
  reject (same_kind field.kind value_bool && orders operator) bool_order
  err bad_operand

-- The switch of `bindPredicate`. Its tests for arrays repeat those in front of it.
unfoldable pub bind_operator : FloatParser → PredicateExpr → Field → Result BoundPredicate
unfolding new_null_predicate bind_like bind_set_predicate bind_comparison
bind_operator parse_float e field = elim e.operator [
  | predicate_is_null ↦ ok (new_null_predicate e.negated)
  | predicate_like ↦ bind_like e.right field
  | predicate_in ↦ bind_set_predicate parse_float e.operator e.negated e.right field.kind
  | predicate_contain_all ↦ bind_set_predicate parse_float e.operator e.negated e.right field.kind
  | predicate_contain_any ↦ bind_set_predicate parse_float e.operator e.negated e.right field.kind
  | _ ↦ bind_comparison parse_float e.operator e.right field
]

unfoldable pub bind_predicate : FloatParser → Schema → PredicateExpr → Result PlanNode
unfolding bind_source is_array_length is_comparison allows_array is_contain bind_operator
bind_predicate parse_float schema e = bind_source schema e.left >>= λ (source, field). do
  reject (is_array_length source && not (is_comparison e.operator)) bad_function
  reject (field.array && not (allows_array e.operator)) array_operator
  reject (not field.array && is_contain e.operator) scalar_operator
  predicate ← bind_operator parse_float e field
  ok (predicate_node source predicate)

unfoldable pub bind_expression : FloatParser → Schema → Expr → Result PlanNode
unfolding bind_predicate
bind_expression parse_float schema (logical_expr operator left right) = do
  first ← bind_expression parse_float schema left
  second ← bind_expression parse_float schema right
  ok (logical_node operator first second)
bind_expression parse_float schema (predicate_expr e) = bind_predicate parse_float schema e
