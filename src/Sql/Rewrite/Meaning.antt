-- ===== src/Sql/Rewrite/Meaning.antt =====
-- internal/db/sql/rewrite.go: the value of a filter and of the filter that it is rewritten to.
use mathlib.Core.Path.{subst}
use zvec.Base.{
  ℕ, suc, ◌≡◌, refl, sym, ap, List, [], ◌∷◌, ◌++◌, append-nil, some, inl, inr, arith, bytes_equal,
  Bool-cases, Option-cases,
}
use zvec.Errors.{ok}
use zvec.Sql.Predicate.{Truth, truth_false}
use zvec.Sql.Plan.{Resolver, PlanNode, logical_and, logical_or, logical_node, evaluate}
use zvec.Sql.Plan.Sides.{sides, join}
use zvec.Sql.Syntax.{LiteralExpr, Expr, logical_expr, predicate_expr}
use zvec.Sql.Schema.{Schema}
use zvec.Sql.Analyzer.{FloatParser, bind_expression}
use zvec.Sql.Rewrite.{
  Slot, kept_term, group_of, equality_set_candidate, add_to_group, add_term, add_terms, slot_expr,
  slot_exprs, join_logical, join_terms, rewrite_equality_sets, rewrite_expression, rewrite_terms,
}
use zvec.Sql.Rewrite.Candidates.{Binds, Gives}
use zvec.Sql.Rewrite.Terms.{
  AllBind, OrGives, AllBind-append, OrGives-append, Continues-join, or-Gives, logical-parts,
  true-cases, or_false, parts-logical,
}
use zvec.Sql.Rewrite.Slots.{AreSlots, AreSlots-add, add_group-Accepts, add_group-Ors}

-- A list that is not empty
abbrev Cons {ℓ} : {A : Type ℓ} → List A → Type ℓ
Cons {A} xs = (y : A) × (ys : List A) × (xs ≡ y ∷ ys)

append-Cons {ℓ} : {A : Type ℓ} (xs ys : List A) → Cons xs → Cons (xs ++ ys)
append-Cons xs ys (z, zs, e) = (z, zs ++ ys, ap (λ w. w ++ ys) e)

rewrite_terms-Cons : (e : Expr) → Cons (rewrite_terms e)
unfolding rewrite_terms
rewrite_terms-Cons (predicate_expr p) = (predicate_expr p, [], refl)
rewrite_terms-Cons (logical_expr logical_and left right) = (_, [], refl)
rewrite_terms-Cons (logical_expr logical_or left right) =
    append-Cons (rewrite_terms left) (rewrite_terms right) (rewrite_terms-Cons left)

add_to_group-Cons :
    (name : List ℕ) (values : List LiteralExpr) (term : Expr) (slots : List Slot)
    → Cons (add_to_group name values term slots)
unfolding add_to_group
add_to_group-Cons name values term [] = (_, [], refl)
add_to_group-Cons name values term (kept_term e ∷ slots) = (_, _, refl)
add_to_group-Cons name values term (group_of f vs n first ∷ slots) =
    elim (Bool-cases (bytes_equal f name)) [
      | inl e ↦ (group_of f (vs ++ values) (suc n) first, slots, ground arith)
      | inr e ↦ (group_of f vs n first, add_to_group name values term slots, ground arith)
    ]

snoc-Cons : (slots : List Slot) (e : Expr) → Cons (slots ++ (kept_term e ∷ []))
snoc-Cons [] e = (kept_term e, [], refl)
snoc-Cons (s ∷ slots) e = (s, slots ++ (kept_term e ∷ []), refl)

-- Adding a term: a slot of its own at the end, or the group of its field
add_term-forms :
    (term : Expr) (slots : List Slot)
    → (P : List Slot → Type 0) → P (slots ++ (kept_term term ∷ []))
    → ((name : List ℕ) (values : List LiteralExpr)
        → equality_set_candidate term ≡ some (name, values)
        → P (add_to_group name values term slots))
    → P (add_term term slots)
unfolding add_term
add_term-forms term slots P p q = elim (Option-cases (equality_set_candidate term)) [
  | inl e ↦
      let now : add_term term slots ≡ slots ++ (kept_term term ∷ []) = ground arith in
      subst P (sym now) p
  | inr ((name, values), e) ↦
      let now : add_term term slots ≡ add_to_group name values term slots = ground arith in
      subst P (sym now) (q name values e)
]

add_terms-Cons : (terms : List Expr) (slots : List Slot) → Cons slots → Cons (add_terms terms slots)
unfolding add_terms
add_terms-Cons [] slots c = c
add_terms-Cons (x ∷ terms) slots c = add_terms-Cons terms (add_term x slots) (
    add_term-forms x slots Cons (snoc-Cons slots x)
      (λ name values e. add_to_group-Cons name values x slots))

slot_exprs-snoc :
    (slots : List Slot) (e : Expr) (rest : List Expr)
    → slot_exprs (slots ++ (kept_term e ∷ [])) ++ rest ≡ slot_exprs slots ++ (e ∷ rest)
unfolding slot_exprs slot_expr
slot_exprs-snoc [] e rest = refl
slot_exprs-snoc (s ∷ slots) e rest = ap (λ t. slot_expr s ∷ t) (slot_exprs-snoc slots e rest)

AreSlots-snoc :
    (slots : List Slot) (e : Expr) → AreSlots slots → AreSlots (slots ++ (kept_term e ∷ []))
AreSlots-snoc [] e a = (tt, tt)
AreSlots-snoc (s ∷ slots) e (i, a) = (i, AreSlots-snoc slots e a)

module _ (parse : FloatParser) (schema : Schema) (resolve : Resolver) where
  abbrev Ors : List Expr → Truth → Type 0
  Ors = OrGives parse schema resolve

  abbrev Accepts : List Expr → Type 0
  Accepts = AllBind parse schema resolve

  abbrev HasValue : Expr → Truth → Type 0
  HasValue = Gives parse schema resolve

  add_terms-Ors :
      (terms : List Expr) (slots : List Slot) (t : Truth)
      → AreSlots slots
      → Ors (slot_exprs slots ++ terms) t
      → Ors (slot_exprs (add_terms terms slots)) t
  unfolding add_terms
  add_terms-Ors [] slots t a h = subst (λ es. Ors es t) (append-nil (slot_exprs slots)) h
  add_terms-Ors (x ∷ terms) slots t a h =
      let (b, g) =
        add_term-forms x slots (λ s. AreSlots s × Ors (slot_exprs s ++ terms) t)
          (AreSlots-snoc slots x a, subst (λ es. Ors es t) (sym (slot_exprs-snoc slots x terms)) h)
          (λ name values c. (
            AreSlots-add parse schema resolve name values x slots c a,
            add_group-Ors parse schema resolve name values x slots terms t c a h,
          )) in
      add_terms-Ors terms (add_term x slots) t b g

  add_terms-Accepts :
      (terms : List Expr) (slots : List Slot)
      → AreSlots slots
      → Accepts (slot_exprs slots ++ terms)
      → Accepts (slot_exprs (add_terms terms slots))
  unfolding add_terms
  add_terms-Accepts [] slots a h = subst Accepts (append-nil (slot_exprs slots)) h
  add_terms-Accepts (x ∷ terms) slots a h =
      let (b, g) =
        add_term-forms x slots (λ s. AreSlots s × Accepts (slot_exprs s ++ terms))
          (AreSlots-snoc slots x a, subst Accepts (sym (slot_exprs-snoc slots x terms)) h)
          (λ name values c. (
            AreSlots-add parse schema resolve name values x slots c a,
            add_group-Accepts parse schema resolve name values x slots terms c a h,
          )) in
      add_terms-Accepts terms (add_term x slots) b g

  slots-Cons : (terms : List Expr) → Cons terms → Cons (slot_exprs (add_terms terms []))
  unfolding add_terms slot_exprs
  slots-Cons terms (x, xs, e) =
      let made =
        add_term-forms x [] Cons (snoc-Cons [] x)
          (λ name values c. add_to_group-Cons name values x []) in
      let (s, slots, f) = add_terms-Cons xs (add_term x []) made in
      rw e (slot_expr s, slot_exprs slots, ap slot_exprs f)

  join_terms-HasValue :
      (default : Expr) (es : List Expr) (t : Truth)
      → Cons es
      → Ors es t
      → HasValue (join_terms default es) t
  unfolding join_terms
  join_terms-HasValue default [] t (x, xs, e) h = absurd (ground arith)
  join_terms-HasValue default (e ∷ es) t c (a, g, more) =
      Continues-join parse schema resolve e es a t g more

  join-Binds :
      (acc : Expr) (es : List Expr)
      → Binds parse schema acc
      → Accepts es
      → Binds parse schema (join_logical acc es)
  unfolding join_logical
  join-Binds acc [] b h = b
  join-Binds acc (e ∷ es) (n, f) ((m, g), h) =
      join-Binds _ es
        (logical_node logical_or n m, parts-logical parse schema resolve logical_or acc e n m f g) h

  join_terms-Binds :
      (default : Expr) (es : List Expr)
      → Cons es
      → Accepts es
      → Binds parse schema (join_terms default es)
  unfolding join_terms
  join_terms-Binds default [] (x, xs, e) h = absurd (ground arith)
  join_terms-Binds default (e ∷ es) c (b, h) = join-Binds e es b h

  sets-HasValue :
      (default : Expr) (terms : List Expr) (t : Truth)
      → Cons terms
      → Ors terms t
      → HasValue (rewrite_equality_sets default terms) t
  unfolding rewrite_equality_sets slot_exprs
  sets-HasValue default terms t c h =
      join_terms-HasValue default _ t (slots-Cons terms c) (add_terms-Ors terms [] t tt h)

  sets-Binds :
      (default : Expr) (terms : List Expr)
      → Cons terms
      → Accepts terms
      → Binds parse schema (rewrite_equality_sets default terms)
  unfolding rewrite_equality_sets slot_exprs
  sets-Binds default terms c h =
      join_terms-Binds default _ (slots-Cons terms c) (add_terms-Accepts terms [] tt h)

  -- What rewriting keeps of one filter: acceptance and value, as a filter and as terms under OR
  record IsKept (e : Expr) : Type 0 where
    binds : Binds parse schema e → Binds parse schema (rewrite_expression e)
    value : (t : Truth) → HasValue e t → HasValue (rewrite_expression e) t
    terms_bind : Binds parse schema e → Accepts (rewrite_terms e)
    terms_value : (t : Truth) → HasValue e t → Ors (rewrite_terms e) t

  single-Ors : (e : Expr) (t : Truth) → HasValue e t → Ors (e ∷ []) t
  single-Ors e t g = elim (true-cases t) [
    | inl now ↦ (t, g, inl (now, now, tt))
    | inr other ↦ (t, g, inr (truth_false, other, refl, sym (or_false t).1))
  ]

  and-Binds :
      (l r l' r' : Expr)
      → (Binds parse schema l → Binds parse schema l')
      → (Binds parse schema r → Binds parse schema r')
      → Binds parse schema (logical_expr logical_and l r)
      → Binds parse schema (logical_expr logical_and l' r')
  and-Binds l r l' r' f g (n, h) =
      let (x, y, i, j, _) = logical-parts parse schema resolve logical_and l r n h in
      let (x', i') = f (x, i) in
      let (y', j') = g (y, j) in
      (
        logical_node logical_and x' y',
        parts-logical parse schema resolve logical_and l' r' x' y' i' j',
      )

  and-HasValue :
      (l r l' r' : Expr) (t : Truth)
      → ((a : Truth) → HasValue l a → HasValue l' a)
      → (Binds parse schema r → Binds parse schema r')
      → ((a : Truth) → HasValue r a → HasValue r' a)
      → HasValue (logical_expr logical_and l r) t
      → HasValue (logical_expr logical_and l' r') t
  and-HasValue l r l' r' t f b g (n, h, v) =
      let (x, y, i, j, node) = logical-parts parse schema resolve logical_and l r n h in
      let (a, va, rest) = sides resolve logical_and x y t (rw node at v) in
      let (x', i', va') = f a (x, i, va) in
      elim rest [
        | inl (d, e) ↦
            let (y', j') = b (y, j) in
            (
              logical_node logical_and x' y',
              parts-logical parse schema resolve logical_and l' r' x' y' i' j',
              join resolve logical_and x' y' t (a, va', inl (d, e)),
            )
        | inr (c, d, vc, e) ↦
            let (y', j', vc') = g c (y, j, vc) in
            (
              logical_node logical_and x' y',
              parts-logical parse schema resolve logical_and l' r' x' y' i' j',
              join resolve logical_and x' y' t (a, va', inr (c, d, vc', e)),
            )
      ]

  or-Accepts :
      (left right : Expr)
      → IsKept left
      → IsKept right
      → Binds parse schema (logical_expr logical_or left right)
      → Accepts (rewrite_terms left ++ rewrite_terms right)
  or-Accepts left right l r (n, h) =
      let (x, y, i, j, _) = logical-parts parse schema resolve logical_or left right n h in
      AllBind-append parse schema resolve (rewrite_terms left) (rewrite_terms right)
        (l.terms_bind (x, i)) (r.terms_bind (y, j))

  or-Ors :
      (left right : Expr) (t : Truth)
      → IsKept left
      → IsKept right
      → HasValue (logical_expr logical_or left right) t
      → Ors (rewrite_terms left ++ rewrite_terms right) t
  or-Ors left right t l r v =
      let (a, va, rest) = or-Gives parse schema resolve left right t v in
      OrGives-append parse schema resolve (rewrite_terms left) (rewrite_terms right) a t
        (l.terms_value a va)
        (elim rest [
          | inl (now, te, b) ↦ inl (now, te, r.terms_bind b)
          | inr (c, na, vc, te) ↦ inr (c, na, r.terms_value c vc, te)
        ])

  or-Cons : (left right : Expr) → Cons (rewrite_terms left ++ rewrite_terms right)
  or-Cons left right =
      append-Cons (rewrite_terms left) (rewrite_terms right) (rewrite_terms-Cons left)

  kept : (e : Expr) → IsKept e
  unfolding rewrite_expression
  kept (predicate_expr p) = record {
    binds = λ b. b;
    value = λ t v. v;
    terms_bind = λ b. (b, tt);
    terms_value = λ t v. single-Ors (predicate_expr p) t v;
  }
  kept (logical_expr logical_and left right) =
      let l = kept left in
      let r = kept right in
      let l' = rewrite_expression left in
      let r' = rewrite_expression right in
      record {
        binds = and-Binds left right l' r' l.binds r.binds;
        value = λ t v. and-HasValue left right l' r' t l.value r.binds r.value v;
        terms_bind = λ b. (and-Binds left right l' r' l.binds r.binds b, tt);
        terms_value = λ t v.
            single-Ors (logical_expr logical_and l' r') t
              (and-HasValue left right l' r' t l.value r.binds r.value v);
      }
  kept (logical_expr logical_or left right) =
      let l = kept left in
      let r = kept right in
      let terms = rewrite_terms left ++ rewrite_terms right in
      record {
        binds = λ b. sets-Binds left terms (or-Cons left right) (or-Accepts left right l r b);
        value = λ t v. sets-HasValue left terms t (or-Cons left right) (or-Ors left right t l r v);
        terms_bind = or-Accepts left right l r;
        terms_value = λ t v. or-Ors left right t l r v;
      }

  -- A filter that the analyzer accepts for a schema and that has a value under a resolver is accepted
  -- when it is rewritten, and has the same value: true, false or unknown.
  pub rewrite_expression-Gives :
      (e : Expr) (n : PlanNode) (t : Truth)
      → bind_expression parse schema e ≡ ok n
      → evaluate n resolve ≡ ok t
      → (m : PlanNode) × (bind_expression parse schema (rewrite_expression e) ≡ ok m)
        × (evaluate m resolve ≡ ok t)
  rewrite_expression-Gives e n t b v = (kept e).value t (n, b, v)
