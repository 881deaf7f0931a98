-- ===== src/Sql/Like/Meaning.antt =====
-- internal/db/sql/like.go: what a pattern of LIKE means, with no token in it, and matching.
use zvec.Base.{
  ℕ, ◌≡◌, ◌≢◌, refl, sym, ap, ◌∙◌, List, [], ◌∷◌, ◌++◌, Bool, true, false, ◌↔◌, inl, inr,
  Bool-cases, arith,
}
use native.Mathlib.Decide.{ℕ_discrete}
use zvec.Errors.{ok}
use zvec.Go.Utf8.{valid_string, runes}
use zvec.Sql.Like.{
  LikeToken, like_literal, like_any_sequence, like_any_rune, tokenize_from, tokenize_like,
  any_suffix, match_tokens, LikePattern, like_pattern, compile_like, like_match,
}

-- Percent stands for any runes, underscore for one rune, and backslash makes the next rune literal;
-- a backslash at the end stands for itself.
pub data IsLike : List ℕ → List ℕ → Type 0 where
  ended : {pattern value : List ℕ} → pattern ≡ [] → value ≡ [] → IsLike pattern value
  percent :
      {pattern value : List ℕ} (p skipped rest : List ℕ)
      → pattern ≡ b'%' ∷ p
      → value ≡ skipped ++ rest
      → IsLike p rest
      → IsLike pattern value
  underscore :
      {pattern value : List ℕ} (c : ℕ) (p rest : List ℕ)
      → pattern ≡ b'_' ∷ p
      → value ≡ c ∷ rest
      → IsLike p rest
      → IsLike pattern value
  escape :
      {pattern value : List ℕ} (c : ℕ) (p rest : List ℕ)
      → pattern ≡ b'\\' ∷ c ∷ p
      → value ≡ c ∷ rest
      → IsLike p rest
      → IsLike pattern value
  last_backslash :
      {pattern value : List ℕ} → pattern ≡ b'\\' ∷ [] → value ≡ b'\\' ∷ [] → IsLike pattern value
  rune :
      {pattern value : List ℕ} (c : ℕ) (p rest : List ℕ)
      → c ≢ b'%'
      → c ≢ b'_'
      → c ≢ b'\\'
      → pattern ≡ c ∷ p
      → value ≡ c ∷ rest
      → IsLike p rest
      → IsLike pattern value

-- Some end of a text has a property.
abbrev pub EndHas : (List ℕ → Type 0) → List ℕ → Type 0
EndHas P value = (skipped : List ℕ) × (rest : List ℕ) × (value ≡ skipped ++ rest) × P rest

any_suffix_sound :
    (f : List ℕ → Bool) (value : List ℕ)
    → any_suffix f value ≡ true
    → EndHas (λ rest. f rest ≡ true) value
unfolding any_suffix
any_suffix_sound f [] h = ([], [], refl, h)
any_suffix_sound f (c ∷ value) h = elim (Bool-cases (f (c ∷ value))) [
  | inl now ↦ ([], c ∷ value, refl, now)
  | inr later ↦
      let (skipped, rest, e, t) = any_suffix_sound f value (rw later at h) in
      (c ∷ skipped, rest, ap (λ t. c ∷ t) e, t)
]

any_suffix_complete :
    (f : List ℕ → Bool) (skipped rest : List ℕ)
    → f rest ≡ true
    → any_suffix f (skipped ++ rest) ≡ true
unfolding any_suffix
any_suffix_complete f [] [] h = h
any_suffix_complete f [] (c ∷ rest) h = rw h refl
any_suffix_complete f (c ∷ skipped) rest h = ground (arith, any_suffix_complete f skipped rest h)

pub any_suffix_iff :
    (f : List ℕ → Bool) (value : List ℕ)
    → (any_suffix f value ≡ true) ↔ EndHas (λ rest. f rest ≡ true) value
any_suffix_iff f value =
    (any_suffix_sound f value, λ (skipped, rest, e, h). rw e (any_suffix_complete f skipped rest h))

any_suffix_twice :
    (f : List ℕ → Bool) (value : List ℕ) → any_suffix (any_suffix f) value ≡ any_suffix f value
unfolding any_suffix
any_suffix_twice f [] = refl
any_suffix_twice f (c ∷ value) = ground (arith, any_suffix_twice f value)

-- Percents behind a percent may be dropped.
any_suffix-tokenize :
    (pattern value : List ℕ)
    → any_suffix (match_tokens (tokenize_from true pattern)) value
      ≡ any_suffix (match_tokens (tokenize_from false pattern)) value
unfolding tokenize_from match_tokens
any_suffix-tokenize [] value = refl
any_suffix-tokenize (c ∷ []) value = ground (arith, any_suffix_twice (match_tokens []) value)
any_suffix-tokenize (c ∷ d ∷ p) value =
    ground (arith, any_suffix_twice (match_tokens (tokenize_from true (d ∷ p))) value)

tokenize-percent :
    (p : List ℕ) → tokenize_from false (b'%' ∷ p) ≡ like_any_sequence ∷ tokenize_from true p
unfolding tokenize_from
tokenize-percent [] = refl
tokenize-percent (d ∷ p) = refl

tokenize-underscore :
    (p : List ℕ) → tokenize_from false (b'_' ∷ p) ≡ like_any_rune ∷ tokenize_from false p
unfolding tokenize_from
tokenize-underscore [] = refl
tokenize-underscore (d ∷ p) = refl

tokenize-rune :
    (c : ℕ) (p : List ℕ)
    → c ≢ b'%'
    → c ≢ b'_'
    → c ≢ b'\\'
    → tokenize_from false (c ∷ p) ≡ like_literal c ∷ tokenize_from false p
unfolding tokenize_from
tokenize-rune c [] h i j = ground arith
tokenize-rune c (d ∷ p) h i j = ground arith

pub empty_sound : (value : List ℕ) → match_tokens [] value ≡ true → value ≡ []
unfolding match_tokens
empty_sound [] h = refl
empty_sound (c ∷ value) h = cc

literal_sound :
    (r : ℕ) (tokens : List LikeToken) (value : List ℕ)
    → match_tokens (like_literal r ∷ tokens) value ≡ true
    → (rest : List ℕ) × (value ≡ r ∷ rest) × (match_tokens tokens rest ≡ true)
unfolding match_tokens
literal_sound r tokens [] h = cc
literal_sound r tokens (c ∷ rest) h = (rest, ground arith, ground arith)

rune_sound :
    (tokens : List LikeToken) (value : List ℕ)
    → match_tokens (like_any_rune ∷ tokens) value ≡ true
    → (c : ℕ) × (rest : List ℕ) × (value ≡ c ∷ rest) × (match_tokens tokens rest ≡ true)
unfolding match_tokens
rune_sound tokens [] h = cc
rune_sound tokens (c ∷ rest) h = (c, rest, refl, h)

percent_sound :
    (p value : List ℕ)
    → match_tokens (tokenize_from false (b'%' ∷ p)) value ≡ true
    → EndHas (λ rest. match_tokens (tokenize_from false p) rest ≡ true) value
unfolding match_tokens
percent_sound p value h =
    any_suffix_sound _ value (sym (any_suffix-tokenize p value) ∙ rw (tokenize-percent p) at h)

-- One pattern's tokens match only what the pattern means.
abbrev IsSound : List ℕ → Type 0
IsSound p = (value : List ℕ) → match_tokens (tokenize_from false p) value ≡ true → IsLike p value

IsSound-cons : (c : ℕ) (p : List ℕ) → c ≢ b'\\' → IsSound p → IsSound (c ∷ p)
IsSound-cons c p not_escape ih value h = elim (ℕ_discrete c b'%') [
  | yes e ↦
      let (skipped, rest, split, t) = percent_sound p value (rw e at h) in
      percent p skipped rest (ap (λ x. x ∷ p) e) split (ih rest t)
  | no not_percent ↦ elim (ℕ_discrete c b'_') [
    | yes e ↦
        let (d, rest, split, t) = rune_sound _ value (rw (e, tokenize-underscore p) at h) in
        underscore d p rest (ap (λ x. x ∷ p) e) split (ih rest t)
    | no not_underscore ↦
        let tokens = tokenize-rune c p not_percent not_underscore not_escape in
        let (rest, split, t) = literal_sound c _ value (rw tokens at h) in
        rune c p rest not_percent not_underscore not_escape refl split (ih rest t)
  ]
]

pattern-IsSound : (pattern : List ℕ) → IsSound pattern
unfolding match_tokens tokenize_from
pattern-IsSound [] [] h = ended refl refl
pattern-IsSound [] (c ∷ value) h = absurd (ground arith)
pattern-IsSound (c ∷ []) value h = elim (ℕ_discrete c b'\\') [
  | yes e ↦
      let (rest, split, t) = literal_sound b'\\' [] value (rw e at h) in
      last_backslash (ap (λ x. x ∷ []) e) (split ∙ ap (λ x. b'\\' ∷ x) (empty_sound rest t))
  | no n ↦ IsSound-cons c [] n (pattern-IsSound []) value h
]
pattern-IsSound (c ∷ d ∷ p) value h = elim (ℕ_discrete c b'\\') [
  | yes e ↦
      let (rest, split, t) = literal_sound d _ value (rw e at h) in
      escape d p rest (ap (λ x. x ∷ d ∷ p) e) split (pattern-IsSound p rest t)
  | no n ↦ IsSound-cons c (d ∷ p) n (pattern-IsSound (d ∷ p)) value h
]

IsLike-match :
    {pattern value : List ℕ}
    → IsLike pattern value
    → match_tokens (tokenize_from false pattern) value ≡ true
unfolding match_tokens tokenize_from
IsLike-match (ended e f) = rw (e, f) refl
IsLike-match (percent p skipped rest e f d) =
    rw (e, tokenize-percent p, f)
      (any_suffix-tokenize p (skipped ++ rest)
        ∙ any_suffix_complete _ skipped rest (IsLike-match d))
IsLike-match (underscore c p rest e f d) = rw (e, tokenize-underscore p, f) (IsLike-match d)
IsLike-match (escape c p rest e f d) = ground (arith, IsLike-match d)
IsLike-match (last_backslash e f) = rw (e, f) refl
IsLike-match (rune c p rest h i j e f d) =
    rw (e, tokenize-rune c p h i j, f) (ground (arith, IsLike-match d))

-- A pattern that compiles matches exactly the valid texts that it means by its runes: dropping a
-- percent behind a percent changes nothing.
pub like_match_iff :
    (pattern : List ℕ) (p : LikePattern) (value : List ℕ)
    → compile_like pattern ≡ ok p
    → (like_match p value ≡ true)
      ↔ ((valid_string value ≡ true) × IsLike (runes pattern) (runes value))
unfolding like_match compile_like tokenize_like like_pattern
like_match_iff pattern p value e =
    let tokens : p.expression ≡ tokenize_from false (runes pattern) = ground arith in
    rw tokens (
      λ h. (ground arith, pattern-IsSound (runes pattern) (runes value) (ground arith)),
      λ (valid, d). ground (arith, IsLike-match d),
    )
