-- ===== src/Sql/Value.antt =====
-- internal/db/sql/value.go: typed values and their order.
use Prim.Native.Nat.{compare, Ordering}
use zvec.Base.{ℕ, List, [], ◌∷◌, Bool, true, false, not, ◌||◌, ◌==◌}
use zvec.Errors.{
  Result, ok, err, ◌>>◌, reject, null_comparison, array_comparison, kind_comparison,
  invalid_null_kind,
}

-- The kind of Go's zero `Value` is the only one that is not valid.
pub data ValueKind : Type 0 where
  value_invalid : ValueKind
  value_binary value_string value_bool value_int32 value_int64 value_uint32 value_uint64 : ValueKind
  value_float32 value_float64 : ValueKind

unfoldable pub kind_code : ValueKind → ℕ
kind_code value_invalid = 0
kind_code value_binary = 1
kind_code value_string = 2
kind_code value_bool = 3
kind_code value_int32 = 4
kind_code value_int64 = 5
kind_code value_uint32 = 6
kind_code value_uint64 = 7
kind_code value_float32 = 8
kind_code value_float64 = 9

unfoldable pub same_kind : ValueKind → ValueKind → Bool
unfolding kind_code
same_kind left right = kind_code left == kind_code right

unfoldable pub valid : ValueKind → Bool
valid value_invalid = false
valid _ = true

pub data ℤ : Type 0 where
  pos : ℕ → ℤ
  negsuc : ℕ → ℤ

-- The fields of a scalar. A finite float64 is its integer number of steps of 2^-1074.
pub record Scalar : Type 0 where
  pub kind : ValueKind
  pub binary : List ℕ
  pub text : List ℕ
  pub boolean : Bool
  pub signed : ℤ
  pub unsigned : ℕ
  pub number : ℤ

-- `ArrayValue` takes scalars alone, so an element is a `Scalar`.
pub record Value : Type 0 where
  pub scalar : Scalar
  pub null : Bool
  pub array : Bool
  pub elements : List Scalar

unfoldable pub zero_scalar : ValueKind → Scalar
zero_scalar kind = record {
  kind = kind;
  binary = [];
  text = [];
  boolean = false;
  signed = pos 0;
  unsigned = 0;
  number = pos 0;
}

unfoldable pub scalar_value : Scalar → Value
scalar_value s = record { scalar = s; null = false; array = false; elements = [] }

unfoldable pub null_value : ValueKind → Bool → Result Value
unfolding valid zero_scalar
null_value kind array = do
  reject (not (valid kind)) invalid_null_kind
  ok (record { scalar = zero_scalar kind; null = true; array = array; elements = [] })

unfoldable pub string_value : List ℕ → Value
unfolding scalar_value zero_scalar
string_value text = scalar_value (record (zero_scalar value_string) { text = text })

unfoldable pub uint32_value : ℕ → Value
unfolding scalar_value zero_scalar
uint32_value n = scalar_value (record (zero_scalar value_uint32) { unsigned = n })

-- bytes.Compare, and < on strings
unfoldable pub compare_bytes : List ℕ → List ℕ → Ordering
compare_bytes [] [] = Ordering.eq
compare_bytes [] (y ∷ ys) = Ordering.lt
compare_bytes (x ∷ xs) [] = Ordering.gt
compare_bytes (x ∷ xs) (y ∷ ys) = elim (compare x y) [
  | Ordering.lt ↦ Ordering.lt
  | Ordering.eq ↦ compare_bytes xs ys
  | Ordering.gt ↦ Ordering.gt
]

unfoldable pub compare_ints : ℤ → ℤ → Ordering
compare_ints (pos a) (pos b) = compare a b
compare_ints (pos a) (negsuc b) = Ordering.gt
compare_ints (negsuc a) (pos b) = Ordering.lt
compare_ints (negsuc a) (negsuc b) = compare b a

unfoldable pub compare_bools : Bool → Bool → Ordering
compare_bools false true = Ordering.lt
compare_bools true false = Ordering.gt
compare_bools _ _ = Ordering.eq

-- The switch of `compareValues` on the kind that both sides have
unfoldable pub compare_scalars : Scalar → Scalar → Result Ordering
unfolding compare_bytes compare_ints compare_bools
compare_scalars left right = elim left.kind [
  | value_invalid ↦ err kind_comparison
  | value_binary ↦ ok (compare_bytes left.binary right.binary)
  | value_string ↦ ok (compare_bytes left.text right.text)
  | value_bool ↦ ok (compare_bools left.boolean right.boolean)
  | value_int32 ↦ ok (compare_ints left.signed right.signed)
  | value_int64 ↦ ok (compare_ints left.signed right.signed)
  | value_uint32 ↦ ok (compare left.unsigned right.unsigned)
  | value_uint64 ↦ ok (compare left.unsigned right.unsigned)
  | value_float32 ↦ ok (compare_ints left.number right.number)
  | value_float64 ↦ ok (compare_ints left.number right.number)
]

unfoldable pub compare_values : Value → Value → Result Ordering
unfolding compare_scalars same_kind valid
compare_values left right = do
  reject (left.null || right.null) null_comparison
  reject (left.array || right.array) array_comparison
  reject (not (same_kind left.scalar.kind right.scalar.kind) || not (valid left.scalar.kind))
      kind_comparison
  compare_scalars left.scalar right.scalar
