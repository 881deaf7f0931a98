-- ===== src/Sql/Like.antt =====
-- internal/db/sql/like.go: the patterns of LIKE. A string is its bytes; behind the check that
-- it is valid UTF-8, a text is the list of its runes.
pub mod Meaning
pub mod Modes
use zvec.Base.{
  ℕ, ◌+◌, ◌-◌, ◌≤◌, List, [], ◌∷◌, ◌++◌, Bool, true, false, not, ◌&&◌, ◌||◌, Option, none, some,
  length, take, drop, slice, ltb, leb, ◌==◌, if◌then◌else◌, map,
}
use zvec.Errors.{Result, ok, ◌>>=◌, ◌>>◌, reject, like_pattern_too_large, invalid_utf8_like_pattern}
use zvec.Go.Utf8.{valid_string, runes}

pub data LikeMode : Type 0 where
  like_exact like_any like_prefix like_suffix like_contains like_general : LikeMode

pub data LikeToken : Type 0 where
  like_literal : ℕ → LikeToken
  like_any_sequence : LikeToken
  like_any_rune : LikeToken

-- The loop of `tokenizeLike`. The flag tells whether the last token so far is an any-sequence; the
-- cases of one rune and of more differ for a backslash, which is literal at the end.
unfoldable pub tokenize_from : Bool → List ℕ → List LikeToken
tokenize_from after_any [] = []
tokenize_from after_any (current ∷ []) = elim (current == b'%') [
  | true ↦ if after_any then [] else like_any_sequence ∷ []
  | false ↦ if current == b'_' then like_any_rune ∷ [] else like_literal current ∷ []
]
tokenize_from after_any (current ∷ escaped ∷ runes) = elim (current == b'\\') [
  | true ↦ like_literal escaped ∷ tokenize_from false runes
  | false ↦ elim (current == b'%') [
    | true ↦
        if after_any
        then tokenize_from true (escaped ∷ runes)
        else like_any_sequence ∷ tokenize_from true (escaped ∷ runes)
    | false ↦
        (if current == b'_' then like_any_rune else like_literal current)
        ∷ tokenize_from false (escaped ∷ runes)
  ]
]

unfoldable pub tokenize_like : List ℕ → List LikeToken
unfolding tokenize_from
tokenize_like pattern = tokenize_from false pattern

is_any_sequence : LikeToken → Bool
is_any_sequence like_any_sequence = true
is_any_sequence _ = false

count_wildcards : List LikeToken → ℕ
count_wildcards [] = 0
count_wildcards (like_literal r ∷ tokens) = count_wildcards tokens
count_wildcards (_ ∷ tokens) = 1 + count_wildcards tokens

-- `literalBetween` on the tokens that it ranges over
literals : List LikeToken → Option (List ℕ)
literals [] = some []
literals (like_literal r ∷ tokens) = elim (literals tokens) [
  | none ↦ none
  | some value ↦ some (r ∷ value)
]
literals (_ ∷ tokens) = none

first_is_any : List LikeToken → Bool
first_is_any [] = false
first_is_any (t ∷ tokens) = is_any_sequence t

last_is_any : List LikeToken → Bool
last_is_any [] = false
last_is_any (t ∷ []) = is_any_sequence t
last_is_any (t ∷ u ∷ tokens) = last_is_any (u ∷ tokens)

or_empty : Option (List ℕ) → List ℕ
or_empty none = []
or_empty (some value) = value

abbrev leading : List LikeToken → List LikeToken
leading tokens = take (length tokens - 1) tokens

prefix_literal : List LikeToken → Option (List ℕ)
unfolding last_is_any literals
prefix_literal tokens = if last_is_any tokens then literals (leading tokens) else none

suffix_literal : List LikeToken → Option (List ℕ)
unfolding first_is_any literals
suffix_literal tokens = if first_is_any tokens then literals (drop 1 tokens) else none

contains_literal : List LikeToken → Option (List ℕ)
unfolding first_is_any last_is_any literals
contains_literal tokens =
    if leb 2 (length tokens) && (first_is_any tokens && last_is_any tokens)
    then literals (drop 1 (leading tokens))
    else none

unfoldable pub classify_like : List LikeToken → LikeMode × List ℕ
unfolding is_any_sequence count_wildcards or_empty literals prefix_literal suffix_literal
    contains_literal
classify_like tokens = elim (count_wildcards tokens == 0) [
  | true ↦ (like_exact, or_empty (literals tokens))
  | false ↦ elim (length tokens == 1 && first_is_any tokens) [
    | true ↦ (like_any, [])
    | false ↦ elim (prefix_literal tokens) [
      | some literal ↦ (like_prefix, literal)
      | none ↦ elim (suffix_literal tokens) [
        | some literal ↦ (like_suffix, literal)
        | none ↦ elim (contains_literal tokens) [
          | some literal ↦ (like_contains, literal)
          | none ↦ (like_general, [])
        ]
      ]
    ]
  ]
]

unfoldable pub any_suffix : (List ℕ → Bool) → List ℕ → Bool
any_suffix accepts [] = accepts []
any_suffix accepts (c ∷ value) = accepts (c ∷ value) || any_suffix accepts value

-- The compiled expression on a whole text: `\A`, each rune as itself, `.*` and `.` under `(?s)`, `\z`.
unfoldable pub match_tokens : List LikeToken → List ℕ → Bool
match_tokens [] [] = true
match_tokens [] (c ∷ value) = false
match_tokens (like_literal r ∷ tokens) [] = false
match_tokens (like_literal r ∷ tokens) (c ∷ value) = r == c && match_tokens tokens value
match_tokens (like_any_rune ∷ tokens) [] = false
match_tokens (like_any_rune ∷ tokens) (c ∷ value) = match_tokens tokens value
match_tokens (like_any_sequence ∷ tokens) value = any_suffix (match_tokens tokens) value

-- `raw` and `literal` by their runes; the tokens stand for the compiled expression.
pub record LikePattern : Type 0 where
  pub raw : List ℕ
  pub mode : LikeMode
  pub literal : List ℕ
  pub expression : List LikeToken

-- The pattern that `CompileLike` builds from valid runes.
unfoldable pub like_pattern : List ℕ → LikePattern
unfolding tokenize_like classify_like
like_pattern pattern =
    let tokens = tokenize_like pattern in
    let classified = classify_like tokens in
    record { raw = pattern; mode = classified.0; literal = classified.1; expression = tokens }

-- 1 << 20
abbrev max_filter_bytes : ℕ
max_filter_bytes = 1048576

unfoldable pub compile_like : List ℕ → Result LikePattern
unfolding like_pattern
compile_like pattern = do
  reject (ltb max_filter_bytes (length pattern)) like_pattern_too_large
  reject (not (valid_string pattern)) invalid_utf8_like_pattern
  ok (like_pattern (runes pattern))

-- (*LikePattern).Match
unfoldable pub like_match : LikePattern → List ℕ → Bool
unfolding match_tokens any_suffix
like_match p value = valid_string value && match_tokens p.expression (runes value)
