-- ===== src/Sql/Rewrite.antt =====
-- internal/db/sql/rewrite.go: equalities and IN predicates under OR become one IN. The counts of
-- `RewriteStats` are not modelled.
pub mod Values
pub mod Candidates
pub mod Groups
pub mod Terms
pub mod Slots
pub mod Meaning
use zvec.Base.{
  ℕ, suc, ◌+◌, List, [], ◌∷◌, ◌++◌, Bool, true, false, not, Option, none, some, ltb, bytes_equal,
  if◌then◌else◌,
}
use zvec.Sql.Predicate.{PredicateOperator, predicate_eq, predicate_in}
use zvec.Sql.Plan.{LogicalOperator, logical_and, logical_or}
use zvec.Sql.Syntax.{
  LiteralExpr, ValueExpr, identifier_expr, literal_expr, list_expr, PredicateExpr, Expr,
  logical_expr, predicate_expr,
}

-- The literals of an equality or IN
unfoldable pub set_values : PredicateOperator → Option ValueExpr → Option (List LiteralExpr)
set_values predicate_eq (some (literal_expr l)) = some (l ∷ [])
set_values predicate_in (some (list_expr literals)) = some literals
set_values _ _ = none

unfoldable pub set_of_field :
    ValueExpr → Option (List LiteralExpr) → Option (List ℕ × List LiteralExpr)
set_of_field (identifier_expr name) (some literals) = some (name, literals)
set_of_field _ _ = none

unfoldable pub equality_set_candidate : Expr → Option (List ℕ × List LiteralExpr)
unfolding set_values set_of_field
equality_set_candidate (logical_expr operator left right) = none
equality_set_candidate (predicate_expr p) =
    if p.negated then none else set_of_field p.left (set_values p.operator p.right)

-- A place of `kept`: a term that stays, or a group with its field, its values, the number of its terms
-- and the first of them
pub data Slot : Type 0 where
  kept_term : Expr → Slot
  group_of : List ℕ → List LiteralExpr → ℕ → Expr → Slot

-- The group of a field takes the values of one more term, or is made behind the slots.
unfoldable pub add_to_group : List ℕ → List LiteralExpr → Expr → List Slot → List Slot
add_to_group field values term [] = group_of field values 1 term ∷ []
add_to_group field values term (kept_term e ∷ slots) =
    kept_term e ∷ add_to_group field values term slots
add_to_group field values term (group_of f vs n first ∷ slots) = elim (bytes_equal f field) [
  | true ↦ group_of f (vs ++ values) (suc n) first ∷ slots
  | false ↦ group_of f vs n first ∷ add_to_group field values term slots
]

unfoldable pub add_term : Expr → List Slot → List Slot
unfolding equality_set_candidate add_to_group
add_term term slots = elim (equality_set_candidate term) [
  | none ↦ slots ++ (kept_term term ∷ [])
  | some (field, values) ↦ add_to_group field values term slots
]

unfoldable pub add_terms : List Expr → List Slot → List Slot
unfolding add_term
add_terms [] slots = slots
add_terms (term ∷ terms) slots = add_terms terms (add_term term slots)

abbrev pub in_list : List ℕ → List LiteralExpr → Expr
in_list field values = predicate_expr (record {
  operator = predicate_in;
  left = identifier_expr field;
  right = some (list_expr values);
  negated = false;
})

unfoldable pub slot_expr : Slot → Expr
slot_expr (kept_term e) = e
slot_expr (group_of field values n first) = if ltb n 2 then first else in_list field values

unfoldable pub slot_exprs : List Slot → List Expr
unfolding slot_expr
slot_exprs [] = []
slot_exprs (s ∷ slots) = slot_expr s ∷ slot_exprs slots

-- `joinLogical` behind its first expression
unfoldable pub join_logical : Expr → List Expr → Expr
join_logical joined [] = joined
join_logical joined (e ∷ expressions) = join_logical (logical_expr logical_or joined e) expressions

-- No list of terms that `rewriteExpression` joins is empty.
unfoldable pub join_terms : Expr → List Expr → Expr
unfolding join_logical
join_terms default [] = default
join_terms default (e ∷ expressions) = join_logical e expressions

unfoldable pub rewrite_equality_sets : Expr → List Expr → Expr
unfolding join_terms slot_exprs add_terms
rewrite_equality_sets default terms = join_terms default (slot_exprs (add_terms terms []))

-- `rewriteExpression`, and its terms: those of `flattenLogical` under OR, each rewritten
unfoldable mutual
  unfolding rewrite_equality_sets

  pub rewrite_expression : Expr → Expr
  rewrite_expression (predicate_expr p) = predicate_expr p
  rewrite_expression (logical_expr logical_and left right) =
      logical_expr logical_and (rewrite_expression left) (rewrite_expression right)
  rewrite_expression (logical_expr logical_or left right) =
      rewrite_equality_sets left (rewrite_terms left ++ rewrite_terms right)

  pub rewrite_terms : Expr → List Expr
  rewrite_terms (predicate_expr p) = predicate_expr p ∷ []
  rewrite_terms (logical_expr logical_and left right) =
      logical_expr logical_and (rewrite_expression left) (rewrite_expression right) ∷ []
  rewrite_terms (logical_expr logical_or left right) = rewrite_terms left ++ rewrite_terms right
