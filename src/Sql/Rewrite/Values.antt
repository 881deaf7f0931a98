-- ===== src/Sql/Rewrite/Values.antt =====
-- internal/db/sql/predicate.go: the values of IN predicates on one field value, and of comparisons for equality.
use Prim.Native.Nat.{Ordering}
use zvec.Base.{
  ◌≡◌, refl, sym, ap, ◌∙◌, List, [], ◌∷◌, ◌++◌, Bool, true, false, ◌⊎◌, inl, inr, arith, Bool-cases,
  if◌then◌else◌,
}
use zvec.Errors.{Result, ok, Result-cases}
use zvec.Sql.Value.{
  ValueKind, Value, same_kind, valid, kind_code, Scalar, compare_scalars, compare_values,
}
use zvec.Sql.Predicate.{
  Truth, truth_unknown, truth_true, truth_or, truth_from_bool, predicate_eq, predicate_in, bare,
  is_plain, is_empty, any_equal, evaluate_in, evaluate_predicate, evaluate_by, evaluate_comparison,
  signed,
}

-- The value of an IN predicate on one field value
abbrev pub in_value : Value → List Value → Result Truth
in_value v values =
    evaluate_predicate (record (bare predicate_in) { negated = false; set = values }) v

abbrev pub eq_value : Value → Value → Result Truth
eq_value v w = evaluate_predicate (record (bare predicate_eq) { right = w }) v

any_equal-append :
    (v : Value) (xs ys : List Value) (b : Bool)
    → any_equal v xs ≡ ok b
    → any_equal v (xs ++ ys) ≡ (if b then ok true else any_equal v ys)
unfolding any_equal
any_equal-append v [] ys b h = ground arith
any_equal-append v (x ∷ xs) ys b h = elim (Result-cases (compare_values v x)) [
  | inr (e, f) ↦ absurd (ground arith)
  | inl (Ordering.eq, f) ↦ ground arith
  | inl (Ordering.lt, f) ↦ ground (arith, any_equal-append v xs ys b)
  | inl (Ordering.gt, f) ↦ ground (arith, any_equal-append v xs ys b)
]

-- Why an IN predicate has a value
abbrev InValue : Value → List Value → Truth → Type 0
InValue v values t =
    (valid v.scalar.kind ≡ true)
    × (((v.null ≡ true) × (t ≡ truth_unknown))
        ⊎ ((b : Bool) × (v.null ≡ false)
            × (v.array ≡ false)
            × (any_equal v values ≡ ok b)
            × (t ≡ truth_from_bool b)))

in_value-forms :
    (v : Value) (values : List Value) (t : Truth) → in_value v values ≡ ok t → InValue v values t
unfolding evaluate_predicate evaluate_by evaluate_in signed bare
in_value-forms v values t h =
    let kind : valid v.scalar.kind ≡ true = ground arith in
    elim (Bool-cases v.null) [
      | inl null ↦ (kind, inl (null, ground arith))
      | inr null ↦ elim (Result-cases (any_equal v values)) [
        | inr (e, f) ↦ absurd (ground arith)
        | inl (b, f) ↦ (kind, inr (b, null, ground arith, f, ground arith))
      ]
    ]

InValue-in_value :
    (v : Value) (values : List Value) (t : Truth) → InValue v values t → in_value v values ≡ ok t
unfolding evaluate_predicate evaluate_by evaluate_in signed bare
InValue-in_value v values t (kind, inl (null, e)) = ground arith
InValue-in_value v values t (kind, inr (b, null, array, f, e)) = ground arith

either : Bool → Bool → Bool
either true second = true
either false second = second

truth_or-either :
    (first second : Bool)
    → truth_or (truth_from_bool first) (truth_from_bool second)
      ≡ truth_from_bool (either first second)
unfolding truth_or truth_from_bool either
truth_or-either true true = refl
truth_or-either true false = refl
truth_or-either false true = refl
truth_or-either false false = refl

any_equal-either :
    (v : Value) (xs ys : List Value) (first second : Bool)
    → any_equal v xs ≡ ok first
    → any_equal v ys ≡ ok second
    → any_equal v (xs ++ ys) ≡ ok (either first second)
unfolding either
any_equal-either v xs ys true second f g = any_equal-append v xs ys true f
any_equal-either v xs ys false second f g = any_equal-append v xs ys false f ∙ g

InValue-append :
    (v : Value) (xs ys : List Value) (a b : Truth)
    → InValue v xs a
    → InValue v ys b
    → InValue v (xs ++ ys) (truth_or a b)
unfolding truth_or
InValue-append v xs ys a b (kind, inl (null, e)) (_, inl (_, f)) = (kind, inl (null, ground arith))
InValue-append v xs ys a b (kind, inl (null, e)) (_, inr (c, not_null, _, _, _)) =
    absurd (ground arith)
InValue-append v xs ys a b (kind, inr (c, not_null, _, _, _)) (_, inl (null, e)) =
    absurd (ground arith)
InValue-append v xs ys a b (kind, inr (c, null, array, f, e)) (_, inr (d, _, _, g, h)) = (
  kind,
  inr (either c d, null, array, any_equal-either v xs ys c d f g, rw (e, h) (truth_or-either c d)),
)

pub in_value-append :
    (v : Value) (xs ys : List Value) (a b : Truth)
    → in_value v xs ≡ ok a
    → in_value v ys ≡ ok b
    → in_value v (xs ++ ys) ≡ ok (truth_or a b)
in_value-append v xs ys a b h i =
    InValue-in_value v (xs ++ ys) (truth_or a b)
      (InValue-append v xs ys a b (in_value-forms v xs a h) (in_value-forms v ys b i))

InValue-true :
    (v : Value) (xs ys : List Value) → InValue v xs truth_true → InValue v (xs ++ ys) truth_true
unfolding truth_from_bool
InValue-true v xs ys (kind, inl (null, e)) = absurd (ground arith)
InValue-true v xs ys (kind, inr (true, null, array, f, e)) =
    (kind, inr (true, null, array, any_equal-append v xs ys true f, refl))
InValue-true v xs ys (kind, inr (false, null, array, f, e)) = absurd (ground arith)

compare-scalar : (v w : Value) (o : Ordering) → compare_values v w ≡ ok o → v.array ≡ false
unfolding compare_values
compare-scalar v w o h = ground arith

-- A match among the first values is enough.
pub in_value-true :
    (v : Value) (xs ys : List Value)
    → in_value v xs ≡ ok truth_true
    → in_value v (xs ++ ys) ≡ ok truth_true
in_value-true v xs ys h =
    InValue-in_value v (xs ++ ys) truth_true
      (InValue-true v xs ys (in_value-forms v xs truth_true h))

pub eq_value-in_value : (v w : Value) (t : Truth) → eq_value v w ≡ ok t → in_value v (w ∷ []) ≡ ok t
unfolding evaluate_predicate evaluate_by evaluate_in evaluate_comparison signed bare any_equal
eq_value-in_value v w t h = elim (Result-cases (compare_values v w)) [
  | inr (e, f) ↦ ground arith
  | inl (Ordering.eq, f) ↦ ground (arith, compare-scalar v w Ordering.eq f)
  | inl (Ordering.lt, f) ↦ ground (arith, compare-scalar v w Ordering.lt f)
  | inl (Ordering.gt, f) ↦ ground (arith, compare-scalar v w Ordering.gt f)
]

-- Plain scalars of one kind
abbrev pub AllKind : ValueKind → List Value → Type 0
AllKind kind [] = Unit {0}
AllKind kind (v ∷ values) = (is_plain v ≡ true) × (v.scalar.kind ≡ kind) × AllKind kind values

scalars-compare :
    (v w : Scalar) → valid v.kind ≡ true → (o : Ordering) × (compare_scalars v w ≡ ok o)
unfolding compare_scalars valid
scalars-compare v w k = elim (Result-cases (compare_scalars v w)) [
  | inl (o, f) ↦ (o, f)
  | inr (e, f) ↦ absurd (ground arith)
]

-- A scalar is compared with every plain scalar of its kind.
compare-plain :
    (v w : Value)
    → v.null ≡ false
    → v.array ≡ false
    → valid v.scalar.kind ≡ true
    → is_plain w ≡ true
    → kind_code v.scalar.kind ≡ kind_code w.scalar.kind
    → (o : Ordering) × (compare_values v w ≡ ok o)
unfolding compare_values is_plain same_kind
compare-plain v w n a k p j = let (o, e) = scalars-compare v.scalar w.scalar k in (o, ground arith)

any_equal-step :
    (v w : Value) (values : List Value) (o : Ordering) (b : Bool)
    → compare_values v w ≡ ok o
    → any_equal v values ≡ ok b
    → (c : Bool) × (any_equal v (w ∷ values) ≡ ok c)
unfolding any_equal
any_equal-step v w values Ordering.eq b f g = (true, ground arith)
any_equal-step v w values Ordering.lt b f g = (b, ground arith)
any_equal-step v w values Ordering.gt b f g = (b, ground arith)

any_equal-plain :
    (v : Value) (kind : ValueKind) (values : List Value)
    → v.null ≡ false
    → v.array ≡ false
    → valid v.scalar.kind ≡ true
    → kind_code v.scalar.kind ≡ kind_code kind
    → AllKind kind values
    → (b : Bool) × (any_equal v values ≡ ok b)
unfolding any_equal
any_equal-plain v kind [] n a k j all = (false, refl)
any_equal-plain v kind (w ∷ values) n a k j (plain, same, all) =
    let (o, f) = compare-plain v w n a k plain (j ∙ ap kind_code (sym same)) in
    let (b, g) = any_equal-plain v kind values n a k j all in any_equal-step v w values o b f g

-- The kind of a value that was compared
compare-kind :
    (v w : Value) (o : Ordering)
    → compare_values v w ≡ ok o
    → kind_code v.scalar.kind ≡ kind_code w.scalar.kind
unfolding compare_values same_kind
compare-kind v w o h = ground arith

first-compared :
    (v x : Value) (xs : List Value) (b : Bool)
    → any_equal v (x ∷ xs) ≡ ok b
    → kind_code v.scalar.kind ≡ kind_code x.scalar.kind
unfolding any_equal
first-compared v x xs b h = elim (Result-cases (compare_values v x)) [
  | inr (e, f) ↦ absurd (ground arith)
  | inl (o, f) ↦ compare-kind v x o f
]

-- A field value that an IN predicate was evaluated on has a value for every IN of the same kind.
pub in_value-next :
    (v : Value) (kind : ValueKind) (xs ys : List Value) (t : Truth)
    → is_empty xs ≡ false
    → AllKind kind xs
    → AllKind kind ys
    → in_value v xs ≡ ok t
    → (u : Truth) × (in_value v ys ≡ ok u)
unfolding is_empty
in_value-next v kind [] ys t e all more h = absurd (ground arith)
in_value-next v kind (x ∷ xs) ys t e (plain, same, all) more h =
    let (valid_kind, why) = in_value-forms v (x ∷ xs) t h in
    elim why [
      | inl (null, _) ↦
          (truth_unknown, InValue-in_value v ys truth_unknown (valid_kind, inl (null, refl)))
      | inr (b, null, array, f, _) ↦
          let code = first-compared v x xs b f ∙ ap kind_code same in
          let (c, g) = any_equal-plain v kind ys null array valid_kind code more in
          (
            truth_from_bool c,
            InValue-in_value v ys (truth_from_bool c) (valid_kind, inr (c, null, array, g, refl)),
          )
    ]
