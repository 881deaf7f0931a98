-- ===== src/Sql/Syntax.antt =====
-- internal/db/sql/ast.go: the syntax trees of filters, without the raw texts of literals and the
-- source positions.
use zvec.Base.{ℕ, List, Bool, Option}
use zvec.Sql.Predicate.{PredicateOperator}
use zvec.Sql.Plan.{LogicalOperator}

pub data LiteralKind : Type 0 where
  literal_integer literal_float literal_string literal_bool : LiteralKind

pub record LiteralExpr : Type 0 where
  pub kind : LiteralKind
  pub text : List ℕ

-- `ValueExpr`, and the arguments of a call
mutual
  pub data ValueExpr : Type 0 where
    identifier_expr : List ℕ → ValueExpr
    call_expr : List ℕ → Arguments → ValueExpr
    literal_expr : LiteralExpr → ValueExpr
    list_expr : List LiteralExpr → ValueExpr
    vector_expr : List (List LiteralExpr) → Bool → ValueExpr

  pub data Arguments : Type 0 where
    no_arguments : Arguments
    argument : ValueExpr → Arguments → Arguments

-- A filter; IS NULL has no right operand.
pub record PredicateExpr : Type 0 where
  pub operator : PredicateOperator
  pub left : ValueExpr
  pub right : Option ValueExpr
  pub negated : Bool

pub data Expr : Type 0 where
  logical_expr : LogicalOperator → Expr → Expr → Expr
  predicate_expr : PredicateExpr → Expr
