-- ===== src/Sql/Build.antt =====
-- internal/db/sql/analyzer.go: BuildPlan behind the parser, which rewrites, binds and optimizes a filter.
use zvec.Base.{◌≡◌, refl}
use zvec.Errors.{Result, ok, ◌>>=◌}
use zvec.Sql.Predicate.{Truth}
use zvec.Sql.Plan.{Resolver, PlanNode, evaluate, optimize}
use zvec.Sql.Plan.Optimizer.{Refines, optimize-GivesRefined}
use zvec.Sql.Syntax.{Expr}
use zvec.Sql.Schema.{Schema}
use zvec.Sql.Analyzer.{FloatParser, bind_expression}
use zvec.Sql.Rewrite.{rewrite_expression}
use zvec.Sql.Rewrite.Meaning.{rewrite_expression-Gives}

unfoldable pub build_plan : FloatParser → Schema → Expr → Result PlanNode
unfolding bind_expression rewrite_expression optimize
build_plan parse_float schema expression = do
  root ← bind_expression parse_float schema (rewrite_expression expression)
  ok (optimize root)

-- Let the analyzer accept a filter as it was parsed, and let that plan have a value under a resolver.
-- Then `BuildPlan` succeeds, and its rewritten and optimized plan has the same value, but that UNKNOWN
-- may become FALSE.
pub build_plan-Refines :
    (parse_float : FloatParser) (schema : Schema) (resolve : Resolver) (expression : Expr)
    (n : PlanNode) (t : Truth)
    → bind_expression parse_float schema expression ≡ ok n
    → evaluate n resolve ≡ ok t
    → (m : PlanNode) × (t' : Truth) × (build_plan parse_float schema expression ≡ ok m)
      × (evaluate m resolve ≡ ok t')
      × Refines t t'
unfolding build_plan
build_plan-Refines parse_float schema resolve expression n t b v =
    let (root, c, w) = rewrite_expression-Gives parse_float schema resolve expression n t b v in
    let (t', x, r) = optimize-GivesRefined resolve root t w in (optimize root, t', rw c refl, x, r)
