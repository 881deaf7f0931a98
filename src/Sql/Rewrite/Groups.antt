-- ===== src/Sql/Rewrite/Groups.antt =====
-- internal/db/sql/rewrite.go: equalities and IN predicates on one field, and the IN predicate of all their values.
use zvec.Base.{ℕ, ◌≡◌, refl, List, [], ◌∷◌, ◌++◌, some, inl, inr, arith}
use zvec.Errors.{Result, ok, Result-cases}
use zvec.Sql.Value.{Value}
use zvec.Sql.Predicate.{Truth, truth_true, truth_or, BoundPredicate, is_empty, evaluate_predicate}
use zvec.Sql.Plan.{Resolver, predicate_node, field_source, Field, resolve_source, evaluate}
use zvec.Sql.Syntax.{LiteralExpr, Expr}
use zvec.Sql.Schema.{Schema}
use zvec.Sql.Analyzer.{FloatParser, bind_literals}
use zvec.Sql.Rewrite.{in_list, equality_set_candidate}
use zvec.Sql.Rewrite.Values.{
  in_value, in_value-append, in_value-true, eq_value-in_value, in_value-next,
}
use zvec.Sql.Rewrite.Candidates.{
  candidate-forms, Binds, Gives, Bound, in_node, in_list-Bound, eq_literal-Bound,
  bind_literals-AllKind, Bound-in_list, bind_literals-append,
}

same-values : (r : Result (List Value)) (w v : List Value) → r ≡ ok w → r ≡ ok v → w ≡ v
same-values r w v e f = cc

same-truth : (r : Result Truth) (a b : Truth) → r ≡ ok a → r ≡ ok b → a ≡ b
same-truth r a b e f = cc

same-result : (r : Result Value) (w v : Value) → r ≡ ok w → r ≡ ok v → w ≡ v
same-result r w v e f = cc

module _ (parse : FloatParser) (schema : Schema) where
  -- The literals bind as an IN predicate on the field, and the predicate has a value.
  abbrev pub SetBinds : List ℕ → List LiteralExpr → Type 0
  SetBinds name literals =
      (field : Field) × (values : List Value) × Bound parse schema name literals field values

  abbrev pub SetGives : Resolver → List ℕ → List LiteralExpr → Truth → Type 0
  SetGives resolve name literals t =
      (field : Field) × (values : List Value) × (v : Value) × Bound parse schema name literals field
        values
      × (resolve field ≡ ok v)
      × (in_value v values ≡ ok t)

  node-value :
      (resolve : Resolver) (field : Field) (p : BoundPredicate) (t : Truth)
      → evaluate (predicate_node (field_source field) p) resolve ≡ ok t
      → (v : Value) × (resolve field ≡ ok v) × (evaluate_predicate p v ≡ ok t)
  unfolding evaluate resolve_source
  node-value resolve field p t h = elim (Result-cases (resolve field)) [
    | inr (e, f) ↦ absurd (ground arith)
    | inl (v, f) ↦ (v, f, ground arith)
  ]

  pub candidate-SetBinds :
      (e : Expr) (name : List ℕ) (literals : List LiteralExpr)
      → equality_set_candidate e ≡ some (name, literals)
      → Binds parse schema e
      → SetBinds name literals
  candidate-SetBinds e name literals c (n, h) = elim (candidate-forms e name literals c) [
    | inl form ↦
        let (field, values, bound, _) = in_list-Bound parse schema name literals n (rw form at h) in
        (field, values, bound)
    | inr (l, one, form) ↦
        let (field, v, bound, _) = eq_literal-Bound parse schema name l n (rw form at h) in
        (field, v ∷ [], rw one bound)
  ]

  pub candidate-SetGives :
      (resolve : Resolver) (e : Expr) (name : List ℕ) (literals : List LiteralExpr) (t : Truth)
      → equality_set_candidate e ≡ some (name, literals)
      → Gives parse schema resolve e t
      → SetGives resolve name literals t
  candidate-SetGives resolve e name literals t c (n, h, g) =
      elim (candidate-forms e name literals c) [
        | inl form ↦
            let (field, values, bound, node) =
              in_list-Bound parse schema name literals n (rw form at h) in
            let (v, r, value) = node-value resolve field _ t (rw node at g) in
            (field, values, v, bound, r, value)
        | inr (l, one, form) ↦
            let (field, w, bound, node) = eq_literal-Bound parse schema name l n (rw form at h) in
            let (v, r, value) = node-value resolve field _ t (rw node at g) in
            (field, w ∷ [], v, rw one bound, r, eq_value-in_value v w t value)
      ]

  pub SetBinds-in_list :
      (name : List ℕ) (literals : List LiteralExpr)
      → SetBinds name literals
      → Binds parse schema (in_list name literals)
  SetBinds-in_list name literals (field, values, bound) = (
    in_node parse schema field values,
    Bound-in_list parse schema name literals field values bound,
  )

  pub SetGives-in_list :
      (resolve : Resolver) (name : List ℕ) (literals : List LiteralExpr) (t : Truth)
      → SetGives resolve name literals t
      → Gives parse schema resolve (in_list name literals) t
  unfolding evaluate resolve_source
  SetGives-in_list resolve name literals t (field, values, v, bound, r, value) = (
    in_node parse schema field values,
    Bound-in_list parse schema name literals field values bound,
    ground arith,
  )

  Bound-append :
      (name : List ℕ) (left right : List LiteralExpr) (field other : Field) (xs ys : List Value)
      → Bound parse schema name left field xs
      → Bound parse schema name right other ys
      → (other ≡ field) × Bound parse schema name (left ++ right) field (xs ++ ys)
  unfolding is_empty
  Bound-append name left right field other [] ys (f, a, g, e) (f', a', g', e') =
      absurd (ground arith)
  Bound-append name left right field other (x ∷ xs) ys (f, a, g, e) (f', a', g', e') =
      let same : other ≡ field = cc in
      (
        same,
        (
          f,
          a,
          bind_literals-append parse schema left right field.kind (x ∷ xs) ys g (rw same at g'),
          refl,
        ),
      )

  pub SetBinds-append :
      (name : List ℕ) (left right : List LiteralExpr)
      → SetBinds name left
      → SetBinds name right
      → SetBinds name (left ++ right)
  SetBinds-append name left right (field, xs, b) (other, ys, c) =
      (field, xs ++ ys, (Bound-append name left right field other xs ys b c).1)

  pub SetGives-append :
      (resolve : Resolver) (name : List ℕ) (left right : List LiteralExpr) (a b : Truth)
      → SetGives resolve name left a
      → SetGives resolve name right b
      → SetGives resolve name (left ++ right) (truth_or a b)
  SetGives-append resolve name left right a b (field, xs, v, bound, r, h)
        (other, ys, w, bound', s, i) =
      let (same, both) = Bound-append name left right field other xs ys bound bound' in
      let one : w ≡ v = same-result (resolve field) w v (rw same at s) r in
      (field, xs ++ ys, v, both, r, in_value-append v xs ys a b h (rw one at i))

  -- A match among the values on the left is enough.
  pub SetGives-true :
      (resolve : Resolver) (name : List ℕ) (left right : List LiteralExpr)
      → SetGives resolve name left truth_true
      → SetBinds name right
      → SetGives resolve name (left ++ right) truth_true
  SetGives-true resolve name left right (field, xs, v, bound, r, h) (other, ys, bound') =
      let (same, both) = Bound-append name left right field other xs ys bound bound' in
      (field, xs ++ ys, v, both, r, in_value-true v xs ys h)

  pub SetGives-next :
      (resolve : Resolver) (name : List ℕ) (left right : List LiteralExpr) (a : Truth)
      → SetGives resolve name left a
      → SetBinds name right
      → (b : Truth) × SetGives resolve name right b
  SetGives-next resolve name left right a (field, xs, v, (f, plain, g, e), r, h)
        (other, ys, (f', plain', g', e')) =
      let same : other ≡ field = cc in
      let bound : bind_literals parse right field.kind ≡ ok ys = rw same at g' in
      let xs_kind = bind_literals-AllKind parse schema left field.kind xs g in
      let ys_kind = bind_literals-AllKind parse schema right field.kind ys bound in
      let (b, i) = in_value-next v field.kind xs ys a e xs_kind ys_kind h in
      (b, (field, ys, v, (f, plain, bound, e'), r, i))

  pub in_list-SetBinds :
      (name : List ℕ) (literals : List LiteralExpr)
      → Binds parse schema (in_list name literals)
      → SetBinds name literals
  in_list-SetBinds name literals (n, h) =
      let (field, values, bound, _) = in_list-Bound parse schema name literals n h in
      (field, values, bound)

  pub in_list-SetGives :
      (resolve : Resolver) (name : List ℕ) (literals : List LiteralExpr) (t : Truth)
      → Gives parse schema resolve (in_list name literals) t
      → SetGives resolve name literals t
  in_list-SetGives resolve name literals t (n, h, g) =
      let (field, values, bound, node) = in_list-Bound parse schema name literals n h in
      let (v, r, value) = node-value resolve field _ t (rw node at g) in
      (field, values, v, bound, r, value)

  pub SetGives-same :
      (resolve : Resolver) (name : List ℕ) (literals : List LiteralExpr) (a b : Truth)
      → SetGives resolve name literals a
      → SetGives resolve name literals b
      → a ≡ b
  SetGives-same resolve name literals a b (field, xs, v, (f, _, g, _), r, h)
        (other, ys, w, (f', _, g', _), s, i) =
      let same : other ≡ field = cc in
      let values : ys ≡ xs = same-values _ ys xs (rw same at g') g in
      let one : w ≡ v = same-result (resolve field) w v (rw same at s) r in
      same-truth (in_value v xs) a b h (rw (one, values) at i)
