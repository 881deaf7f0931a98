-- ===== src/Go/Path.antt =====
-- path.Clean and path.IsAbs, as validatePortableRelativePath of internal/db/snapshot.go uses them.
use zvec.Base.{
  ℕ, List, [], ◌∷◌, ◌++◌, Bool, true, false, not, ◌||◌, ◌==◌, if◌then◌else◌, bytes_equal, take, ◌≡◌,
  refl,
}

-- The parts of a path between its slashes, the first of them in `part` so far
split_slash : List ℕ → List ℕ → List (List ℕ)
split_slash part [] = part ∷ []
split_slash part (b ∷ path) = elim (b == b'/') [
  | true ↦ part ∷ split_slash [] path
  | false ↦ split_slash (part ++ (b ∷ [])) path
]

abbrev dot : List ℕ
dot = b'.' ∷ []

abbrev dot_dot : List ℕ
dot_dot = b'.' ∷ b'.' ∷ []

-- One part on the parts kept so far, the last of them first; `..` drops one unless there is none.
clean_part : List ℕ → List (List ℕ) → List (List ℕ)
clean_part part [] = if bytes_equal part [] || bytes_equal part dot then [] else part ∷ []
clean_part part (last ∷ kept) =
    if bytes_equal part [] || bytes_equal part dot
    then last ∷ kept
    else if bytes_equal part dot_dot
    then if bytes_equal last dot_dot then part ∷ last ∷ kept else kept
    else part ∷ last ∷ kept

clean_parts : List (List ℕ) → List (List ℕ) → List (List ℕ)
unfolding clean_part
clean_parts kept [] = kept
clean_parts kept (part ∷ parts) = clean_parts (clean_part part kept) parts

-- The parts, the last first, with slashes between them, in front of `path`
join_slash : List (List ℕ) → List ℕ → List ℕ
join_slash [] path = path
join_slash (part ∷ []) path = part ++ path
join_slash (part ∷ next ∷ kept) path = join_slash (next ∷ kept) (b'/' ∷ (part ++ path))

or_dot : List ℕ → List ℕ
or_dot [] = dot
or_dot (b ∷ path) = b ∷ path

-- path.Clean on a path that does not begin with a slash
clean : List ℕ → List ℕ
unfolding split_slash clean_parts join_slash or_dot
clean path = or_dot (join_slash (clean_parts [] (split_slash [] path)) [])

is_abs : List ℕ → Bool
is_abs [] = false
is_abs (b ∷ path) = b == b'/'

contains_byte : ℕ → List ℕ → Bool
contains_byte b [] = false
contains_byte b (c ∷ path) = b == c || contains_byte b path

-- `validatePortableRelativePath` returns no error.
unfoldable pub is_portable : List ℕ → Bool
unfolding is_abs clean contains_byte
is_portable name = not (
    bytes_equal name []
    || (is_abs name
        || (not (bytes_equal (clean name) name)
            || (bytes_equal name dot
                || (bytes_equal (take 3 name) (b'.' ∷ b'.' ∷ b'/' ∷ [])
                    || contains_byte b'\\' name)))))

-- "a/b" is portable, and so is ".."; "a//b", "/a", "./a", "a/../b" and "../a" are not.
is_portable_tests :
    (is_portable (b'a' ∷ b'/' ∷ b'b' ∷ []) ≡ true)
    × (is_portable dot_dot ≡ true)
    × (is_portable (b'a' ∷ b'/' ∷ b'/' ∷ b'b' ∷ []) ≡ false)
    × (is_portable (b'/' ∷ b'a' ∷ []) ≡ false)
    × (is_portable (b'.' ∷ b'/' ∷ b'a' ∷ []) ≡ false)
    × (is_portable (b'a' ∷ b'/' ∷ b'.' ∷ b'.' ∷ b'/' ∷ b'b' ∷ []) ≡ false)
    × (is_portable (b'.' ∷ b'.' ∷ b'/' ∷ b'a' ∷ []) ≡ false)
unfolding is_portable bytes_equal
is_portable_tests = (refl, refl, refl, refl, refl, refl, refl)
