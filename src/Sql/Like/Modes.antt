-- ===== src/Sql/Like/Modes.antt =====
-- internal/db/sql/like.go: the mode and the literal of a pattern, and what it matches.
use zvec.Base.{
  ℕ, suc, ◌-◌, ◌≡◌, ◌≢◌, refl, sym, ap, ◌∙◌, List, [], ◌∷◌, ◌++◌, append-nil, true, ◌&&◌, ◌↔◌, ◌==◌,
  some, Bool-cases, Option-cases, inl, inr, arith, length, drop, map,
}
use mathlib.Core.Path.{subst}
use zvec.Errors.{ok}
use zvec.Go.Utf8.{valid_string, runes}
use zvec.Sql.Like.{
  tokenize_like, LikeMode, LikeToken, like_literal, like_any_sequence, like_any_rune, like_exact,
  like_any, like_prefix, like_suffix, like_contains, like_general, is_any_sequence, count_wildcards,
  literals, first_is_any, last_is_any, leading, prefix_literal, suffix_literal, contains_literal,
  or_empty, classify_like, match_tokens, any_suffix, LikePattern, like_pattern, compile_like,
  like_match,
}
use zvec.Sql.Like.Meaning.{EndHas, any_suffix_iff, empty_sound}

-- What each mode promises, with its literal, of the texts that match.
abbrev pub Promises : LikeMode → List ℕ → List ℕ → Type 0
Promises like_exact literal value = value ≡ literal
Promises like_any literal value = Unit {0}
Promises like_prefix literal value = (rest : List ℕ) × (value ≡ literal ++ rest)
Promises like_suffix literal value = (before : List ℕ) × (value ≡ before ++ literal)
Promises like_contains literal value =
    (before : List ℕ) × (rest : List ℕ) × (value ≡ before ++ (literal ++ rest))
Promises like_general literal value = Unit {0}

literals-map :
    (tokens : List LikeToken) (literal : List ℕ)
    → literals tokens ≡ some literal
    → tokens ≡ map like_literal literal
unfolding literals
literals-map [] literal h = ground arith
literals-map (like_literal r ∷ tokens) literal h = elim (Option-cases (literals tokens)) [
  | inl e ↦ ground arith
  | inr (value, e) ↦ ground (arith, literals-map tokens value e)
]
literals-map (like_any_sequence ∷ tokens) literal h = ground arith
literals-map (like_any_rune ∷ tokens) literal h = ground arith

-- Literal tokens eat their runes, and the rest of the tokens the rest of the text.
literal-match :
    (literal : List ℕ) (tokens : List LikeToken) (value : List ℕ)
    → match_tokens (map like_literal literal ++ tokens) value ≡ true
    → (rest : List ℕ) × (value ≡ literal ++ rest) × (match_tokens tokens rest ≡ true)
unfolding match_tokens
literal-match [] tokens value h = (value, refl, h)
literal-match (r ∷ literal) tokens [] h = absurd (ground arith)
literal-match (r ∷ literal) tokens (c ∷ value) h =
    let (rest, e, t) = literal-match literal tokens value (ground arith) in (rest, ground arith, t)

match-literal :
    (literal : List ℕ) (tokens : List LikeToken) (rest : List ℕ)
    → match_tokens tokens rest ≡ true
    → match_tokens (map like_literal literal ++ tokens) (literal ++ rest) ≡ true
unfolding match_tokens
match-literal [] tokens rest h = h
match-literal (r ∷ literal) tokens rest h = ground (arith, match-literal literal tokens rest h)

any-match : (value : List ℕ) → match_tokens (like_any_sequence ∷ []) value ≡ true
unfolding match_tokens any_suffix
any-match [] = refl
any-match (c ∷ value) = any-match value

last_is_any-leading :
    (tokens : List LikeToken)
    → last_is_any tokens ≡ true
    → tokens ≡ leading tokens ++ (like_any_sequence ∷ [])
unfolding last_is_any is_any_sequence
last_is_any-leading [] h = cc
last_is_any-leading (like_any_sequence ∷ []) h = refl
last_is_any-leading (like_literal r ∷ []) h = cc
last_is_any-leading (like_any_rune ∷ []) h = cc
last_is_any-leading (t ∷ u ∷ tokens) h =
    let shift : suc (suc (length tokens)) - 1 ≡ suc (suc (length tokens) - 1) = omega arith in
    rw shift (ap (λ x. t ∷ x) (last_is_any-leading (u ∷ tokens) h))

first_is_any-drop :
    (tokens : List LikeToken)
    → first_is_any tokens ≡ true
    → tokens ≡ like_any_sequence ∷ drop 1 tokens
unfolding first_is_any is_any_sequence
first_is_any-drop [] h = cc
first_is_any-drop (like_any_sequence ∷ tokens) h = refl
first_is_any-drop (like_literal r ∷ tokens) h = cc
first_is_any-drop (like_any_rune ∷ tokens) h = cc

literals-count :
    (tokens : List LikeToken)
    → count_wildcards tokens ≡ 0
    → literals tokens ≡ some (or_empty (literals tokens))
unfolding count_wildcards literals or_empty
literals-count [] h = refl
literals-count (like_literal r ∷ tokens) h = ground (arith, literals-count tokens h)
literals-count (like_any_sequence ∷ tokens) h = absurd (omega arith)
literals-count (like_any_rune ∷ tokens) h = absurd (omega arith)

-- The tokens that a mode with its literal stands for.
Shape : LikeMode → List ℕ → List LikeToken → Type 0
Shape like_exact literal tokens = tokens ≡ map like_literal literal ++ []
Shape like_any literal tokens = tokens ≡ like_any_sequence ∷ []
Shape like_prefix literal tokens = tokens ≡ map like_literal literal ++ (like_any_sequence ∷ [])
Shape like_suffix literal tokens = tokens ≡ like_any_sequence ∷ (map like_literal literal ++ [])
Shape like_contains literal tokens =
    tokens ≡ like_any_sequence ∷ (map like_literal literal ++ (like_any_sequence ∷ []))
Shape like_general literal tokens = Unit {0}

prefix-Shape :
    (tokens : List LikeToken) (literal : List ℕ)
    → prefix_literal tokens ≡ some literal
    → Shape like_prefix literal tokens
unfolding prefix_literal Shape
prefix-Shape tokens literal h =
    let last : last_is_any tokens ≡ true = ground arith in
    last_is_any-leading tokens last
    ∙ ap (λ x. x ++ (like_any_sequence ∷ [])) (literals-map (leading tokens) literal (ground arith))

suffix-Shape :
    (tokens : List LikeToken) (literal : List ℕ)
    → suffix_literal tokens ≡ some literal
    → Shape like_suffix literal tokens
unfolding suffix_literal Shape
suffix-Shape tokens literal h =
    let first : first_is_any tokens ≡ true = ground arith in
    let rest = literals-map (drop 1 tokens) literal (ground arith) in
    first_is_any-drop tokens first
    ∙ ap (λ x. like_any_sequence ∷ x) (rest ∙ sym (append-nil (map like_literal literal)))

contains-Shape :
    (tokens : List LikeToken) (literal : List ℕ)
    → contains_literal tokens ≡ some literal
    → Shape like_contains literal tokens
unfolding contains_literal Shape
contains-Shape [] literal h = absurd (ground arith)
contains-Shape (t ∷ []) literal h = absurd (ground arith)
contains-Shape (t ∷ u ∷ tokens) literal h =
    let shift : suc (suc (length tokens)) - 1 ≡ suc (suc (length tokens) - 1) = omega arith in
    let first : first_is_any (t ∷ u ∷ tokens) ≡ true = ground arith in
    let last : last_is_any (u ∷ tokens) ≡ true = ground arith in
    let middle : literals (drop 1 (leading (t ∷ u ∷ tokens))) ≡ some literal = ground arith in
    let inner = literals-map (leading (u ∷ tokens)) literal (rw shift at middle) in
    first_is_any-drop _ first
    ∙ ap (λ x. like_any_sequence ∷ x)
        (last_is_any-leading (u ∷ tokens) last ∙ ap (λ x. x ++ (like_any_sequence ∷ [])) inner)

exact_iff :
    (literal value : List ℕ)
    → (match_tokens (map like_literal literal ++ []) value ≡ true) ↔ (value ≡ literal)
unfolding match_tokens
exact_iff literal value = (
  λ h.
      let (rest, split, t) = literal-match literal [] value h in
      split ∙ ap (λ x. literal ++ x) (empty_sound rest t) ∙ append-nil literal,
  λ e. rw e (rw (append-nil literal) at (match-literal literal [] [] refl)),
)

prefix_iff :
    (literal value : List ℕ)
    → (match_tokens (map like_literal literal ++ (like_any_sequence ∷ [])) value ≡ true)
      ↔ Promises like_prefix literal value
prefix_iff literal value = (
  λ h. let (rest, split, t) = literal-match literal _ value h in (rest, split),
  λ (rest, split). rw split (match-literal literal _ rest (any-match rest)),
)

any_iff :
    (tokens : List LikeToken) (value : List ℕ)
    → (match_tokens (like_any_sequence ∷ tokens) value ≡ true)
      ↔ EndHas (λ rest. match_tokens tokens rest ≡ true) value
unfolding match_tokens
any_iff tokens value = any_suffix_iff (match_tokens tokens) value

suffix_iff :
    (literal value : List ℕ)
    → (match_tokens (like_any_sequence ∷ (map like_literal literal ++ [])) value ≡ true)
      ↔ Promises like_suffix literal value
suffix_iff literal value = (
  λ h.
      let (before, rest, split, t) = (any_iff _ value).0 h in
      (before, split ∙ ap (λ x. before ++ x) ((exact_iff literal rest).0 t)),
  λ (before, split).
      (any_iff _ value).1 (before, literal, split, (exact_iff literal literal).1 refl),
)

contains_iff :
    (literal value : List ℕ)
    → (match_tokens
          (like_any_sequence ∷ (map like_literal literal ++ (like_any_sequence ∷ [])))
          value
        ≡ true)
      ↔ Promises like_contains literal value
contains_iff literal value = (
  λ h.
      let (before, end, split, t) = (any_iff _ value).0 h in
      let (rest, e) = (prefix_iff literal end).0 t in
      (before, rest, split ∙ ap (λ x. before ++ x) e),
  λ (before, rest, split).
      (any_iff _ value).1 (before, literal ++ rest, split, (prefix_iff literal _).1 (rest, refl)),
)

Shape-Promises :
    (mode : LikeMode) (literal : List ℕ) (tokens : List LikeToken) (value : List ℕ)
    → mode ≢ like_general
    → Shape mode literal tokens
    → (match_tokens tokens value ≡ true) ↔ Promises mode literal value
unfolding Shape
Shape-Promises like_exact literal tokens value n e = rw e (exact_iff literal value)
Shape-Promises like_any literal tokens value n e = rw e (λ h. tt, λ h. any-match value)
Shape-Promises like_prefix literal tokens value n e = rw e (prefix_iff literal value)
Shape-Promises like_suffix literal tokens value n e = rw e (suffix_iff literal value)
Shape-Promises like_contains literal tokens value n e = rw e (contains_iff literal value)
Shape-Promises like_general literal tokens value n e = absurd (n refl)

any-Shape :
    (tokens : List LikeToken)
    → length tokens == 1 && first_is_any tokens ≡ true
    → Shape like_any [] tokens
unfolding Shape
any-Shape [] h = absurd (ground arith)
any-Shape (t ∷ []) h = first_is_any-drop (t ∷ []) h
any-Shape (t ∷ u ∷ tokens) h = absurd (ground arith)

exact-Shape :
    (tokens : List LikeToken)
    → count_wildcards tokens == 0 ≡ true
    → Shape like_exact (or_empty (literals tokens)) tokens
unfolding Shape
exact-Shape tokens h =
    literals-map tokens _ (literals-count tokens (ground arith)) ∙ sym (append-nil _)

-- The goal at a mode and a literal that the classification is known to give.
abbrev HasShape : List LikeToken → LikeMode × List ℕ → Type 0
HasShape tokens result = Shape result.0 result.1 tokens

classify-Shape : (tokens : List LikeToken) → HasShape tokens (classify_like tokens)
unfolding classify_like
classify-Shape tokens = elim (Bool-cases (count_wildcards tokens == 0)) [
  | inl e ↦
      let now : classify_like tokens ≡ (like_exact, or_empty (literals tokens)) = ground arith in
      subst (HasShape tokens) (sym now) (exact-Shape tokens e)
  | inr e ↦ elim (Bool-cases (length tokens == 1 && first_is_any tokens)) [
    | inl f ↦
        let now : classify_like tokens ≡ (like_any, []) = ground arith in
        subst (HasShape tokens) (sym now) (any-Shape tokens f)
    | inr f ↦ elim (Option-cases (prefix_literal tokens)) [
      | inr (literal, g) ↦
          let now : classify_like tokens ≡ (like_prefix, literal) = ground arith in
          subst (HasShape tokens) (sym now) (prefix-Shape tokens literal g)
      | inl g ↦ elim (Option-cases (suffix_literal tokens)) [
        | inr (literal, h) ↦
            let now : classify_like tokens ≡ (like_suffix, literal) = ground arith in
            subst (HasShape tokens) (sym now) (suffix-Shape tokens literal h)
        | inl h ↦ elim (Option-cases (contains_literal tokens)) [
          | inr (literal, i) ↦
              let now : classify_like tokens ≡ (like_contains, literal) = ground arith in
              subst (HasShape tokens) (sym now) (contains-Shape tokens literal i)
          | inl i ↦
              let now : classify_like tokens ≡ (like_general, []) = ground arith in
              subst (HasShape tokens) (sym now) (unfold Shape in tt)
        ]
      ]
    ]
  ]
]

-- Unless the mode of a pattern that compiles is GENERAL, it matches exactly the valid texts that its
-- mode and literal describe: the one text, every text, or those that begin with, end with or contain
-- the literal.
pub compile_like-Promises :
    (pattern : List ℕ) (p : LikePattern) (value : List ℕ)
    → compile_like pattern ≡ ok p
    → p.mode ≢ like_general
    → (like_match p value ≡ true)
      ↔ ((valid_string value ≡ true) × Promises p.mode p.literal (runes value))
unfolding compile_like like_match like_pattern
compile_like-Promises pattern p value e n =
    let tokens = tokenize_like (runes pattern) in
    let built : p ≡ like_pattern (runes pattern) = ground arith in
    let (sound, complete) =
      Shape-Promises _ _ tokens (runes value) (rw built at n) (classify-Shape tokens) in
    rw built (
      λ h. (ground arith, sound (ground arith)),
      λ (valid, promised). ground (arith, complete promised),
    )
