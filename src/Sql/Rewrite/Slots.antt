-- ===== src/Sql/Rewrite/Slots.antt =====
-- internal/db/sql/rewrite.go: the value of the terms when one moves into the group of its field.
use mathlib.Core.Path.{subst}
use zvec.Base.{
  ℕ, suc, ◌≡◌, refl, sym, ap, ◌∙◌, List, [], ◌∷◌, ◌++◌, false, some, ◌⊎◌, inl, inr, arith, ltb,
  bytes_equal, bytes_equal_iff, Bool-cases,
}
use zvec.Sql.Predicate.{Truth, truth_true, truth_or}
use zvec.Sql.Plan.{Resolver}
use zvec.Sql.Syntax.{LiteralExpr, Expr}
use zvec.Sql.Schema.{Schema}
use zvec.Sql.Analyzer.{FloatParser}
use zvec.Sql.Rewrite.{
  Slot, kept_term, group_of, in_list, equality_set_candidate, add_to_group, slot_expr, slot_exprs,
}
use zvec.Sql.Rewrite.Candidates.{Binds, Gives}
use zvec.Sql.Rewrite.Groups.{
  SetBinds, SetGives, candidate-SetBinds, candidate-SetGives, SetBinds-in_list, SetGives-in_list,
  SetBinds-append, SetGives-append, SetGives-true, SetGives-next, in_list-SetBinds,
  in_list-SetGives, SetGives-same,
}
use zvec.Sql.Rewrite.Terms.{
  AllBind, OrGives, Continues, Gives-Binds, OrGives-AllBind, or_assoc, or_comm, or_true, or-is_true,
  true-cases,
}

-- A group of one term is that term's field and values.
abbrev IsSlot : Slot → Type 0
IsSlot (kept_term e) = Unit {0}
IsSlot (group_of name values n first) =
    (ltb n 2 ≡ false) ⊎ ((n ≡ 1) × (equality_set_candidate first ≡ some (name, values)))

abbrev pub AreSlots : List Slot → Type 0
AreSlots [] = Unit {0}
AreSlots (s ∷ slots) = IsSlot s × AreSlots slots

module _ (parse : FloatParser) (schema : Schema) (resolve : Resolver) where
  abbrev Ors : List Expr → Truth → Type 0
  Ors = OrGives parse schema resolve

  abbrev Accepts : List Expr → Type 0
  Accepts = AllBind parse schema resolve

  -- A term between others may be taken first.
  pulls-Accepts :
      (es : List Expr) (x : Expr) (rest : List Expr)
      → Accepts (es ++ (x ∷ rest))
      → Binds parse schema x × Accepts (es ++ rest)
  pulls-Accepts [] x rest h = h
  pulls-Accepts (e ∷ es) x rest (b, h) =
      let (bx, more) = pulls-Accepts es x rest h in (bx, (b, more))

  pulls :
      (es : List Expr) (x : Expr) (rest : List Expr) (y t : Truth)
      → ((z : Truth) → Gives parse schema resolve x z → y ≡ z)
      → Ors (es ++ (x ∷ rest)) t
      → Continues parse schema resolve y (es ++ rest) t
  pulls [] x rest y t g (z, gz, more) = rw (g z gz) more
  pulls (e ∷ es) x rest y t g (z, gz, inl (zt, te, binds)) =
      let (_, others) = pulls-Accepts es x rest binds in
      elim (true-cases y) [
        | inl yt ↦ inl (yt, te, (Gives-Binds parse schema resolve e z gz, others))
        | inr ny ↦ inr (truth_true, ny, (z, gz, inl (zt, refl, others)), te ∙ sym (or_true y))
      ]
  pulls (e ∷ es) x rest y t g (z, gz, inr (b, nz, more, te)) = elim (pulls es x rest y b g more) [
    | inl (yt, bt, others) ↦
        inl (
          yt,
          te ∙ ap (truth_or z) bt ∙ or_true z,
          (Gives-Binds parse schema resolve e z gz, others),
        )
    | inr (c, ny, others, be) ↦ inr (
      truth_or z c,
      ny,
      (z, gz, inr (c, nz, others, refl)),
      te
          ∙ ap (truth_or z) be
          ∙ sym (or_assoc z y c)
          ∙ ap (λ w. truth_or w c) (or_comm z y)
          ∙ or_assoc y z c,
    )
  ]

  slot-SetBinds :
      (name : List ℕ) (values : List LiteralExpr) (n : ℕ) (first : Expr)
      → IsSlot (group_of name values n first)
      → Binds parse schema (slot_expr (group_of name values n first))
      → SetBinds parse schema name values
  unfolding slot_expr
  slot-SetBinds name values n first (inl many) b =
      in_list-SetBinds parse schema name values (rw many at b)
  slot-SetBinds name values n first (inr (one, c)) b =
      candidate-SetBinds parse schema first name values c (rw one at b)

  slot-SetGives :
      (name : List ℕ) (values : List LiteralExpr) (n : ℕ) (first : Expr) (t : Truth)
      → IsSlot (group_of name values n first)
      → Gives parse schema resolve (slot_expr (group_of name values n first)) t
      → SetGives parse schema resolve name values t
  unfolding slot_expr
  slot-SetGives name values n first t (inl many) g =
      in_list-SetGives parse schema resolve name values t (rw many at g)
  slot-SetGives name values n first t (inr (one, c)) g =
      candidate-SetGives parse schema resolve first name values t c (rw one at g)

  -- A term whose field and values have a value has that value.
  pulls-set :
      (name : List ℕ) (values : List LiteralExpr) (x : Expr) (es rest : List Expr) (y t : Truth)
      → equality_set_candidate x ≡ some (name, values)
      → SetGives parse schema resolve name values y
      → Ors (es ++ (x ∷ rest)) t
      → Continues parse schema resolve y (es ++ rest) t
  pulls-set name values x es rest y t c g more =
      pulls es x rest y t
        (λ z gz.
          SetGives-same parse schema resolve name values y z g
            (candidate-SetGives parse schema resolve x name values z c gz))
        more

  -- A group that has taken one more term has two at least.
  IsSlot-more :
      (name : List ℕ) (values more : List LiteralExpr) (n : ℕ) (first : Expr)
      → IsSlot (group_of name values n first)
      → (ltb (suc n) 2 ≡ false)
  IsSlot-more name values more n first (inl many) = ground arith
  IsSlot-more name values more n first (inr (one, c)) = ground arith

  slot-in_list :
      (name : List ℕ) (vs more : List LiteralExpr) (n : ℕ) (first : Expr)
      → IsSlot (group_of name vs n first)
      → slot_expr (group_of name (vs ++ more) (suc n) first) ≡ in_list name (vs ++ more)
  unfolding slot_expr
  slot-in_list name vs more n first s =
      let many = IsSlot-more name vs more n first s in rw many refl

  -- The group of the field at the head takes the values, or the rest of the slots does.
  add_to_head :
      (name : List ℕ) (values : List LiteralExpr) (term : Expr) (f : List ℕ) (vs : List LiteralExpr)
      (n : ℕ) (first : Expr) (slots : List Slot)
      → ((f ≡ name)
          × (add_to_group name values term (group_of f vs n first ∷ slots)
              ≡ group_of f (vs ++ values) (suc n) first ∷ slots))
        ⊎ (add_to_group name values term (group_of f vs n first ∷ slots)
            ≡ group_of f vs n first ∷ add_to_group name values term slots)
  unfolding add_to_group
  add_to_head name values term f vs n first slots = elim (Bool-cases (bytes_equal f name)) [
    | inl e ↦ inl ((bytes_equal_iff f name).0 e, ground arith)
    | inr e ↦ inr (ground arith)
  ]

  pub AreSlots-add :
      (name : List ℕ) (values : List LiteralExpr) (term : Expr) (slots : List Slot)
      → equality_set_candidate term ≡ some (name, values)
      → AreSlots slots
      → AreSlots (add_to_group name values term slots)
  unfolding add_to_group
  AreSlots-add name values term [] c a = (inr (refl, c), tt)
  AreSlots-add name values term (kept_term e ∷ slots) c (_, a) =
      (tt, AreSlots-add name values term slots c a)
  AreSlots-add name values term (group_of f vs n first ∷ slots) c (s, a) =
      elim (add_to_head name values term f vs n first slots) [
        | inl (e, now) ↦ subst AreSlots (sym now) (inl (IsSlot-more f vs values n first s), a)
        | inr now ↦ subst AreSlots (sym now) (s, AreSlots-add name values term slots c a)
      ]

  merged-Accepts :
      (name : List ℕ) (vs values : List LiteralExpr) (n : ℕ) (first term : Expr)
      → IsSlot (group_of name vs n first)
      → equality_set_candidate term ≡ some (name, values)
      → Binds parse schema (slot_expr (group_of name vs n first))
      → Binds parse schema term
      → Binds parse schema (in_list name (vs ++ values))
  merged-Accepts name vs values n first term s c b bx =
      SetBinds-in_list parse schema name (vs ++ values) (
        SetBinds-append parse schema name vs values (slot-SetBinds name vs n first s b)
          (candidate-SetBinds parse schema term name values c bx))

  merged-Ors :
      (name : List ℕ) (vs values : List LiteralExpr) (n : ℕ) (first term : Expr)
      (es rest : List Expr) (t : Truth)
      → IsSlot (group_of name vs n first)
      → equality_set_candidate term ≡ some (name, values)
      → Ors (slot_expr (group_of name vs n first) ∷ (es ++ (term ∷ rest))) t
      → Ors (in_list name (vs ++ values) ∷ (es ++ rest)) t
  merged-Ors name vs values n first term es rest t s c (a, g, inl (now, te, binds)) =
      let (bx, others) = pulls-Accepts es term rest binds in
      let left = slot-SetGives name vs n first truth_true s (rw now at g) in
      let right = candidate-SetBinds parse schema term name values c bx in
      (
        truth_true,
        SetGives-in_list parse schema resolve name (vs ++ values) truth_true
            (SetGives-true parse schema resolve name vs values left right),
        inl (refl, te, others),
      )
  merged-Ors name vs values n first term es rest t s c (a, g, inr (b, na, more, te)) =
      let (bx, _) = pulls-Accepts es term rest (OrGives-AllBind parse schema resolve _ b more) in
      let left = slot-SetGives name vs n first a s g in
      let right = candidate-SetBinds parse schema term name values c bx in
      let (y, next) = SetGives-next parse schema resolve name vs values a left right in
      let both =
        SetGives-in_list parse schema resolve name (vs ++ values) (truth_or a y)
          (SetGives-append parse schema resolve name vs values a y left next) in
      elim (pulls-set name values term es rest y b c next more) [
        | inl (yt, bt, others) ↦ (
          truth_or a y,
          both,
          inl (ap (truth_or a) yt ∙ or_true a, te ∙ ap (truth_or a) bt ∙ or_true a, others),
        )
        | inr (d, ny, others, be) ↦ (
          truth_or a y,
          both,
          inr (d, or-is_true a y na ny, others, te ∙ ap (truth_or a) be ∙ sym (or_assoc a y d)),
        )
      ]

  -- One term moves in front of the others behind it, into its group or a slot of its own.
  pub add_group-Accepts :
      (name : List ℕ) (values : List LiteralExpr) (term : Expr) (slots : List Slot)
      (rest : List Expr)
      → equality_set_candidate term ≡ some (name, values)
      → AreSlots slots
      → Accepts (slot_exprs slots ++ (term ∷ rest))
      → Accepts (slot_exprs (add_to_group name values term slots) ++ rest)
  unfolding slot_exprs slot_expr add_to_group
  add_group-Accepts name values term [] rest c a h = h
  add_group-Accepts name values term (kept_term e ∷ slots) rest c (_, a) (b, h) =
      (b, add_group-Accepts name values term slots rest c a h)
  add_group-Accepts name values term (group_of f vs n first ∷ slots) rest c (s, a) (b, h) =
      elim (add_to_head name values term f vs n first slots) [
        | inr now ↦
            subst (λ x. Accepts (slot_exprs x ++ rest)) (sym now)
              (b, add_group-Accepts name values term slots rest c a h)
        | inl (e, now) ↦
            let (bx, others) = pulls-Accepts (slot_exprs slots) term rest h in
            let merged = merged-Accepts f vs values n first term s (rw (← e) at c) b bx in
            subst (λ x. Accepts (slot_exprs x ++ rest)) (sym now)
              (subst (Binds parse schema) (sym (slot-in_list f vs values n first s)) merged, others)
      ]

  pub add_group-Ors :
      (name : List ℕ) (values : List LiteralExpr) (term : Expr) (slots : List Slot)
      (rest : List Expr) (t : Truth)
      → equality_set_candidate term ≡ some (name, values)
      → AreSlots slots
      → Ors (slot_exprs slots ++ (term ∷ rest)) t
      → Ors (slot_exprs (add_to_group name values term slots) ++ rest) t
  unfolding slot_exprs slot_expr add_to_group
  add_group-Ors name values term [] rest t c a h = h
  add_group-Ors name values term (kept_term e ∷ slots) rest t c (_, a)
        (x, g, inl (now, te, binds)) =
      (x, g, inl (now, te, add_group-Accepts name values term slots rest c a binds))
  add_group-Ors name values term (kept_term e ∷ slots) rest t c (_, a) (x, g, inr (b, nx, h, te)) =
      (x, g, inr (b, nx, add_group-Ors name values term slots rest b c a h, te))
  add_group-Ors name values term (group_of f vs n first ∷ slots) rest t c (s, a) (x, g, h) =
      elim (add_to_head name values term f vs n first slots) [
        | inr now ↦
            subst (λ z. Ors (slot_exprs z ++ rest) t) (sym now)
              (
                x,
                g,
                elim h [
                  | inl (xt, te, binds) ↦
                      inl (xt, te, add_group-Accepts name values term slots rest c a binds)
                  | inr (b, nx, more, te) ↦
                      inr (b, nx, add_group-Ors name values term slots rest b c a more, te)
                ],
              )
        | inl (e, now) ↦
            let merged =
              merged-Ors f vs values n first term (slot_exprs slots) rest t s (rw (← e) at c)
                (x, g, h) in
            subst (λ z. Ors (slot_exprs z ++ rest) t) (sym now)
              (subst (λ z. Ors (z ∷ (slot_exprs slots ++ rest)) t)
                (sym (slot-in_list f vs values n first s)) merged)
      ]
