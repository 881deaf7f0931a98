-- ===== src/Sql/Rewrite/Candidates.antt =====
-- internal/db/sql/rewrite.go: the equalities and IN predicates that the rewriter collects, and what the analyzer binds them to.
use zvec.Base.{
  ℕ, ◌≡◌, refl, ap, ◌∙◌, List, [], ◌∷◌, ◌++◌, true, false, Option, some, ◌⊎◌, inl, inr, arith,
}
use zvec.Errors.{ok, Result-cases}
use zvec.Sql.Value.{ValueKind, Value, same_kind, valid, scalar_value, zero_scalar}
use zvec.Sql.Predicate.{
  Truth, PredicateOperator, predicate_eq, predicate_in, bare, is_plain, check_set, check_set_values,
  is_empty, new_set_predicate, new_comparison_predicate,
}
use zvec.Sql.Plan.{Resolver, PlanNode, predicate_node, field_source, Field, evaluate}
use zvec.Sql.Syntax.{
  LiteralExpr, ValueExpr, identifier_expr, literal_expr, list_expr, Expr, logical_expr,
  predicate_expr,
}
use zvec.Sql.Schema.{Schema}
use zvec.Sql.Analyzer.{
  FloatParser, require_field, bind_literal, bind_literals, bind_source, bind_set_predicate,
  bind_comparison, bind_operator, bind_predicate, bind_expression, signed_value, unsigned_value,
  number_value,
}
use zvec.Sql.Rewrite.{in_list, equality_set_candidate, set_values, set_of_field}
use zvec.Sql.Rewrite.Values.{AllKind}

-- A value that was bound for a kind is a plain scalar of it.
bind_literal-plain :
    (parse : FloatParser) (l : LiteralExpr) (kind : ValueKind) (v : Value)
    → bind_literal parse l kind ≡ ok v
    → (is_plain v ≡ true) × (v.scalar.kind ≡ kind)
unfolding bind_literal signed_value unsigned_value number_value is_plain valid scalar_value
    zero_scalar
bind_literal-plain parse l kind v h = ground arith

abbrev pub eq_literal : List ℕ → LiteralExpr → Expr
eq_literal field l = predicate_expr (record {
  operator = predicate_eq;
  left = identifier_expr field;
  right = some (literal_expr l);
  negated = false;
})

set_values-forms :
    (operator : PredicateOperator) (right : Option ValueExpr) (values : List LiteralExpr)
    → set_values operator right ≡ some values
    → ((operator ≡ predicate_in) × (right ≡ some (list_expr values)))
      ⊎ ((l : LiteralExpr) × (operator ≡ predicate_eq)
          × (right ≡ some (literal_expr l))
          × (values ≡ l ∷ []))
unfolding set_values
set_values-forms predicate_in (some (list_expr literals)) values h = inl (refl, ground arith)
set_values-forms predicate_eq (some (literal_expr l)) values h = inr (l, refl, refl, ground arith)
set_values-forms operator right values h = absurd (ground arith)

set_of_field-forms :
    (left : ValueExpr) (o : Option (List LiteralExpr)) (field : List ℕ) (values : List LiteralExpr)
    → set_of_field left o ≡ some (field, values)
    → (left ≡ identifier_expr field) × (o ≡ some values)
unfolding set_of_field
set_of_field-forms left o field values h = ground arith

pub candidate-forms :
    (e : Expr) (field : List ℕ) (values : List LiteralExpr)
    → equality_set_candidate e ≡ some (field, values)
    → (e ≡ in_list field values)
      ⊎ ((l : LiteralExpr) × (values ≡ l ∷ []) × (e ≡ eq_literal field l))
unfolding equality_set_candidate
candidate-forms (logical_expr operator left right) field values h = absurd (ground arith)
candidate-forms (predicate_expr p) field values h =
    let plain : p.negated ≡ false = ground arith in
    let set : set_of_field p.left (set_values p.operator p.right) ≡ some (field, values) =
      ground arith in
    let (left, e) = set_of_field-forms p.left (set_values p.operator p.right) field values set in
    elim (set_values-forms p.operator p.right values e) [
      | inl (op, right) ↦ inl (cc)
      | inr (l, op, right, one) ↦ inr (l, one, cc)
    ]

module _ (parse : FloatParser) (schema : Schema) where
  -- A filter that the analyzer accepts, and one that also has a value under a resolver
  abbrev pub Binds : Expr → Type 0
  Binds e = (n : PlanNode) × (bind_expression parse schema e ≡ ok n)

  abbrev pub Gives : Resolver → Expr → Truth → Type 0
  Gives resolve e t =
      (n : PlanNode) × (bind_expression parse schema e ≡ ok n) × (evaluate n resolve ≡ ok t)

  -- The field and the values that an IN predicate is bound to
  abbrev pub Bound : List ℕ → List LiteralExpr → Field → List Value → Type 0
  Bound name literals field values =
      (require_field schema name ≡ ok field)
      × (field.array ≡ false)
      × (bind_literals parse literals field.kind ≡ ok values)
      × (is_empty values ≡ false)

  abbrev pub in_node : Field → List Value → PlanNode
  in_node field values =
      predicate_node (field_source field)
        (record (bare predicate_in) { negated = false; set = values })

  pub in_list-Bound :
      (name : List ℕ) (literals : List LiteralExpr) (n : PlanNode)
      → bind_expression parse schema (in_list name literals) ≡ ok n
      → (field : Field) × (values : List Value) × Bound name literals field values
        × (n ≡ in_node field values)
  unfolding bind_expression bind_predicate bind_source bind_operator bind_set_predicate
      new_set_predicate
  in_list-Bound name literals n h = elim (Result-cases (require_field schema name)) [
    | inr (e, f) ↦ absurd (ground arith)
    | inl (field, f) ↦ elim (Result-cases (bind_literals parse literals field.kind)) [
      | inr (e, g) ↦ absurd (ground arith)
      | inl (values, g) ↦ (field, values, (f, ground arith, g, ground arith), ground arith)
    ]
  ]

  abbrev pub eq_node : Field → Value → PlanNode
  eq_node field v = predicate_node (field_source field) (record (bare predicate_eq) { right = v })

  pub eq_literal-Bound :
      (name : List ℕ) (l : LiteralExpr) (n : PlanNode)
      → bind_expression parse schema (eq_literal name l) ≡ ok n
      → (field : Field) × (v : Value) × Bound name (l ∷ []) field (v ∷ []) × (n ≡ eq_node field v)
  unfolding bind_expression bind_predicate bind_source bind_operator bind_comparison
      new_comparison_predicate bind_literals is_empty
  eq_literal-Bound name l n h = elim (Result-cases (require_field schema name)) [
    | inr (e, f) ↦ absurd (ground arith)
    | inl (field, f) ↦ elim (Result-cases (bind_literal parse l field.kind)) [
      | inr (e, g) ↦ absurd (ground arith)
      | inl (v, g) ↦ (field, v, (f, ground arith, ground arith, refl), ground arith)
    ]
  ]

  pub bind_literals-AllKind :
      (literals : List LiteralExpr) (kind : ValueKind) (values : List Value)
      → bind_literals parse literals kind ≡ ok values
      → AllKind kind values
  unfolding bind_literals
  bind_literals-AllKind [] kind values h =
      let none_left : values ≡ [] = ground arith in rw none_left tt
  bind_literals-AllKind (l ∷ literals) kind values h =
      elim (Result-cases (bind_literal parse l kind)) [
        | inr (e, f) ↦ absurd (ground arith)
        | inl (v, f) ↦ elim (Result-cases (bind_literals parse literals kind)) [
          | inr (e, g) ↦ absurd (ground arith)
          | inl (rest, g) ↦
              let made : values ≡ v ∷ rest = ground arith in
              let (plain, same) = bind_literal-plain parse l kind v f in
              rw made (plain, same, bind_literals-AllKind literals kind rest g)
        ]
      ]

  AllKind-check_set :
      (kind : ValueKind) (values : List Value) → AllKind kind values → check_set kind values ≡ ok tt
  unfolding check_set same_kind
  AllKind-check_set kind [] a = refl
  AllKind-check_set kind (v ∷ values) (plain, same, a) =
      ground (arith, AllKind-check_set kind values a)

  AllKind-check_set_values :
      (kind : ValueKind) (values : List Value)
      → AllKind kind values
      → check_set_values values ≡ ok tt
  unfolding check_set_values
  AllKind-check_set_values kind [] a = refl
  AllKind-check_set_values kind (v ∷ values) (plain, same, a) =
      ap (λ k. check_set k (v ∷ values)) same ∙ AllKind-check_set kind (v ∷ values) (plain, same, a)

  pub Bound-in_list :
      (name : List ℕ) (literals : List LiteralExpr) (field : Field) (values : List Value)
      → Bound name literals field values
      → bind_expression parse schema (in_list name literals) ≡ ok (in_node field values)
  unfolding bind_expression bind_predicate bind_source bind_operator bind_set_predicate
      new_set_predicate is_empty
  Bound-in_list name literals field values (f, plain, g, nonempty) =
      let checked =
        AllKind-check_set_values field.kind values
          (bind_literals-AllKind literals field.kind values g) in
      ground arith

  pub bind_literals-append :
      (left right : List LiteralExpr) (kind : ValueKind) (xs ys : List Value)
      → bind_literals parse left kind ≡ ok xs
      → bind_literals parse right kind ≡ ok ys
      → bind_literals parse (left ++ right) kind ≡ ok (xs ++ ys)
  unfolding bind_literals
  bind_literals-append [] right kind xs ys f g = ground arith
  bind_literals-append (l ∷ left) right kind xs ys f g =
      elim (Result-cases (bind_literal parse l kind)) [
        | inr (e, h) ↦ absurd (ground arith)
        | inl (v, h) ↦ elim (Result-cases (bind_literals parse left kind)) [
          | inr (e, i) ↦ absurd (ground arith)
          | inl (rest, i) ↦ ground (arith, bind_literals-append left right kind rest ys i g)
        ]
      ]
