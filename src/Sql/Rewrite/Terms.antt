-- ===== src/Sql/Rewrite/Terms.antt =====
-- internal/db/sql/rewrite.go: the value of terms under OR, in their order: the first TRUE ends it, and then the others need only
-- be accepted by the analyzer.
use zvec.Base.{◌≡◌, refl, sym, ap, ◌∙◌, List, [], ◌∷◌, ◌++◌, true, false, ◌⊎◌, inl, inr, arith, All}
use zvec.Errors.{ok, Result-cases}
use zvec.Sql.Predicate.{Truth, truth_unknown, truth_false, truth_true, is_true, truth_or}
use zvec.Sql.Plan.{Resolver, PlanNode, logical_node, LogicalOperator, logical_or, combine, decides}
use zvec.Sql.Plan.Sides.{sides, join}
use zvec.Sql.Syntax.{Expr, logical_expr}
use zvec.Sql.Schema.{Schema}
use zvec.Sql.Analyzer.{FloatParser, bind_expression}
use zvec.Sql.Rewrite.{join_logical}
use zvec.Sql.Rewrite.Candidates.{Binds, Gives}

pub or_false : (a : Truth) → (truth_or truth_false a ≡ a) × (truth_or a truth_false ≡ a)
unfolding truth_or
or_false truth_true = (refl, refl)
or_false truth_false = (refl, refl)
or_false truth_unknown = (refl, refl)

pub or_assoc : (a b c : Truth) → truth_or (truth_or a b) c ≡ truth_or a (truth_or b c)
unfolding truth_or
or_assoc a b c = ground arith

pub or_comm : (a b : Truth) → truth_or a b ≡ truth_or b a
unfolding truth_or
or_comm a b = ground arith

pub or_true : (a : Truth) → truth_or a truth_true ≡ truth_true
unfolding truth_or
or_true a = ground arith

pub or-is_true :
    (a b : Truth) → is_true a ≡ false → is_true b ≡ false → is_true (truth_or a b) ≡ false
unfolding truth_or is_true
or-is_true a b h i = ground arith

pub or-ne_true :
    (a b : Truth) → is_true (truth_or a b) ≡ false → (is_true a ≡ false) × (is_true b ≡ false)
unfolding truth_or is_true
or-ne_true a b h = ground arith

pub or-eq_true : (a b : Truth) → is_true a ≡ false → truth_or a b ≡ truth_true → b ≡ truth_true
unfolding truth_or is_true
or-eq_true a b h i = ground arith

pub true-cases : (a : Truth) → (a ≡ truth_true) ⊎ (is_true a ≡ false)
unfolding is_true
true-cases truth_true = inl refl
true-cases truth_false = inr refl
true-cases truth_unknown = inr refl

pub not_both {ℓ} : {A : Type ℓ} (a : Truth) → a ≡ truth_true → is_true a ≡ false → A
unfolding is_true
not_both a e f = absurd (ground arith)

module _ (parse : FloatParser) (schema : Schema) (resolve : Resolver) where
  abbrev pub AllBind : List Expr → Type 0
  AllBind es = All (Binds parse schema) es

  abbrev pub OrGives : List Expr → Truth → Type 0
  OrGives [] t = t ≡ truth_false
  OrGives (e ∷ es) t =
      (a : Truth) × Gives parse schema resolve e a
      × (((a ≡ truth_true) × (t ≡ truth_true) × AllBind es)
          ⊎ ((b : Truth) × (is_true a ≡ false) × OrGives es b × (t ≡ truth_or a b)))

  -- What the terms behind one of value `a` have to give
  abbrev pub Continues : Truth → List Expr → Truth → Type 0
  Continues a es t =
      ((a ≡ truth_true) × (t ≡ truth_true) × AllBind es)
      ⊎ ((b : Truth) × (is_true a ≡ false) × OrGives es b × (t ≡ truth_or a b))

  pub AllBind-append : (es fs : List Expr) → AllBind es → AllBind fs → AllBind (es ++ fs)
  AllBind-append [] fs h i = i
  AllBind-append (e ∷ es) fs h i = (h.0, AllBind-append es fs h.1 i)

  pub Gives-Binds : (e : Expr) (t : Truth) → Gives parse schema resolve e t → Binds parse schema e
  Gives-Binds e t (n, h, g) = (n, h)

  pub OrGives-AllBind : (es : List Expr) (t : Truth) → OrGives es t → AllBind es
  OrGives-AllBind [] t h = tt
  OrGives-AllBind (e ∷ es) t (a, g, inl (_, _, binds)) = (Gives-Binds e a g, binds)
  OrGives-AllBind (e ∷ es) t (a, g, inr (b, _, rest, _)) =
      (Gives-Binds e a g, OrGives-AllBind es b rest)

  pub Gives-same :
      (e : Expr) (a b : Truth)
      → Gives parse schema resolve e a
      → Gives parse schema resolve e b
      → a ≡ b
  Gives-same e a b (n, h, g) (n', h', g') = let same : n ≡ n' = cc in cc

  -- The two parts of a logical filter
  pub logical-parts :
      (operator : LogicalOperator) (left right : Expr) (n : PlanNode)
      → bind_expression parse schema (logical_expr operator left right) ≡ ok n
      → (x : PlanNode) × (y : PlanNode) × (bind_expression parse schema left ≡ ok x)
        × (bind_expression parse schema right ≡ ok y)
        × (n ≡ logical_node operator x y)
  unfolding bind_expression
  logical-parts operator left right n h = elim (Result-cases (bind_expression parse schema left)) [
    | inr (e, f) ↦ absurd (ground arith)
    | inl (x, f) ↦ elim (Result-cases (bind_expression parse schema right)) [
      | inr (e, g) ↦ absurd (ground arith)
      | inl (y, g) ↦ (x, y, f, g, ground arith)
    ]
  ]

  pub parts-logical :
      (operator : LogicalOperator) (left right : Expr) (x y : PlanNode)
      → bind_expression parse schema left ≡ ok x
      → bind_expression parse schema right ≡ ok y
      → bind_expression parse schema (logical_expr operator left right)
        ≡ ok (logical_node operator x y)
  unfolding bind_expression
  parts-logical operator left right x y f g = ground arith

  or-decides :
      (a : Truth)
      → (decides logical_or a ≡ true → a ≡ truth_true)
        × (decides logical_or a ≡ false → is_true a ≡ false)
  unfolding decides is_true
  or-decides truth_true = (λ h. refl, λ h. cc)
  or-decides truth_false = (λ h. cc, λ h. refl)
  or-decides truth_unknown = (λ h. cc, λ h. refl)

  decides-or :
      (a : Truth)
      → (a ≡ truth_true → decides logical_or a ≡ true)
        × (is_true a ≡ false → decides logical_or a ≡ false)
  unfolding decides is_true
  decides-or truth_true = (λ h. refl, λ h. cc)
  decides-or truth_false = (λ h. cc, λ h. refl)
  decides-or truth_unknown = (λ h. cc, λ h. refl)

  pub or-Gives :
      (left right : Expr) (t : Truth)
      → Gives parse schema resolve (logical_expr logical_or left right) t
      → (a : Truth) × Gives parse schema resolve left a
        × (((a ≡ truth_true) × (t ≡ truth_true) × Binds parse schema right)
            ⊎ ((b : Truth) × (is_true a ≡ false)
                × Gives parse schema resolve right b
                × (t ≡ truth_or a b)))
  unfolding combine
  or-Gives left right t (n, h, g) =
      let (x, y, f, i, node) = logical-parts logical_or left right n h in
      let (a, ga, rest) = sides resolve logical_or x y t (rw node at g) in
      (
        a,
        (x, f, ga),
        elim rest [
          | inl (d, e) ↦ inl ((or-decides a).0 d, e ∙ (or-decides a).0 d, (y, i))
          | inr (b, d, gb, e) ↦ inr (b, (or-decides a).1 d, (y, i, gb), e)
        ],
      )

  pub Gives-or_true :
      (left right : Expr)
      → Gives parse schema resolve left truth_true
      → Binds parse schema right
      → Gives parse schema resolve (logical_expr logical_or left right) truth_true
  Gives-or_true left right (x, f, g) (y, i) = (
    logical_node logical_or x y,
    parts-logical logical_or left right x y f i,
    join resolve logical_or x y truth_true
        (truth_true, g, inl ((decides-or truth_true).0 refl, refl)),
  )

  pub Gives-or :
      (left right : Expr) (a b : Truth)
      → Gives parse schema resolve left a
      → is_true a ≡ false
      → Gives parse schema resolve right b
      → Gives parse schema resolve (logical_expr logical_or left right) (truth_or a b)
  unfolding combine
  Gives-or left right a b (x, f, g) d (y, i, gb) = (
    logical_node logical_or x y,
    parts-logical logical_or left right x y f i,
    join resolve logical_or x y (truth_or a b) (a, g, inr (b, (decides-or a).1 d, gb, refl)),
  )

  -- Terms in front of others
  pub OrGives-append :
      (es fs : List Expr) (a t : Truth) → OrGives es a → Continues a fs t → OrGives (es ++ fs) t
  OrGives-append [] fs a t none_left (inl (now, _, _)) = absurd (ground arith)
  OrGives-append [] fs a t none_left (inr (b, _, rest, e)) =
      rw (e ∙ ap (λ z. truth_or z b) none_left ∙ (or_false b).0) rest
  OrGives-append (e ∷ es) fs a t (x, g, inl (xt, at, binds)) (inl (now, te, fbinds)) =
      (x, g, inl (xt, te, AllBind-append es fs binds fbinds))
  OrGives-append (e ∷ es) fs a t (x, g, inl (xt, at, binds)) (inr (b, na, rest, te)) =
      not_both a at na
  OrGives-append (e ∷ es) fs a t (x, g, inr (y, nx, rest, ae)) (inl (now, te, fbinds)) =
      let yt : y ≡ truth_true = or-eq_true x y nx (sym ae ∙ now) in
      (
        x,
        g,
        inr (
          truth_true,
          nx,
          OrGives-append es fs y truth_true rest (inl (yt, refl, fbinds)),
          te ∙ sym (or_true x),
        ),
      )
  OrGives-append (e ∷ es) fs a t (x, g, inr (y, nx, rest, ae)) (inr (b, na, more, te)) =
      let (_, ny) = or-ne_true x y (rw ae at na) in
      (
        x,
        g,
        inr (
          truth_or y b,
          nx,
          OrGives-append es fs y (truth_or y b) rest (inr (b, ny, more, refl)),
          te ∙ ap (λ z. truth_or z b) ae ∙ or_assoc x y b,
        ),
      )

  pub Continues-join :
      (acc : Expr) (es : List Expr) (a t : Truth)
      → Gives parse schema resolve acc a
      → Continues a es t
      → Gives parse schema resolve (join_logical acc es) t
  unfolding join_logical
  Continues-join acc [] a t g (inl (now, te, _)) = rw (te ∙ sym now) g
  Continues-join acc [] a t g (inr (b, na, rest, te)) =
      rw (te ∙ ap (truth_or a) rest ∙ (or_false a).1) g
  Continues-join acc (e ∷ es) a t g (inl (now, te, binds)) =
      Continues-join _ es truth_true t (Gives-or_true acc e (rw now at g) binds.0)
        (inl (refl, te, binds.1))
  Continues-join acc (e ∷ es) a t g (inr (b, na, (x, gx, inl (xt, bt, binds)), te)) =
      Continues-join _ es (truth_or a x) t (Gives-or acc e a x g na gx)
        (inl (ap (truth_or a) xt ∙ or_true a, te ∙ ap (truth_or a) bt ∙ or_true a, binds))
  Continues-join acc (e ∷ es) a t g (inr (b, na, (x, gx, inr (y, nx, rest, be)), te)) =
      Continues-join _ es (truth_or a x) t (Gives-or acc e a x g na gx)
        (inr (y, or-is_true a x na nx, rest, te ∙ ap (truth_or a) be ∙ sym (or_assoc a x y)))
