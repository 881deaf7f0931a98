-- ===== src/Versions.antt =====
-- internal/db/version_manager.go: the names of manifests, the pointer CURRENT and the publication of
-- versions. A directory is what a process finds in it; temporary files are left out of it.
pub mod Names
pub mod Publish
pub mod Safety
pub mod Opening
pub mod Reopen
pub mod Updates
pub mod History
use zvec.Base.{
  ℕ, zero, suc, ◌+◌, ◌-◌, ◌*◌, ◌/◌, ◌%◌, ◌^◌, List, [], ◌∷◌, ◌++◌, Bool, true, false, not, ◌||◌,
  ◌&&◌, Option, none, some, length, take, drop, slice, put_at, replicate, le_bytes, from_le,
  bytes_equal, ltb, leb, ◌==◌, if◌then◌else◌, max,
}
use zvec.Errors.{
  Error, Result, ok, err, ◌>>=◌, ◌>>◌, reject, Context, check_context, manifest_corrupt,
  manifest_not_found, manifest_conflict, manifest_exists, generation_exhausted,
  directory_sync_failed, current_not_replaced, write_failed, lock_unavailable,
}
use zvec.Go.Checksum.{crc32c}
use zvec.Manifest.{Manifest, Json, validate, disk_format_version}
use zvec.Manifest.Codec.{marshal_manifest, unmarshal_manifest}

-- "MANIFEST-"
abbrev pub manifest_prefix : List ℕ
manifest_prefix = b'M' ∷ b'A' ∷ b'N' ∷ b'I' ∷ b'F' ∷ b'E' ∷ b'S' ∷ b'T' ∷ b'-' ∷ []

abbrev pub manifest_digits : ℕ
manifest_digits = 20

-- `%0*d` for a number of at most `width` digits, in front of `rest`
unfoldable pub decimal : ℕ → ℕ → List ℕ → List ℕ
decimal zero n rest = rest
decimal (suc width) n rest = decimal width (n / 10) ((b'0' + n % 10) ∷ rest)

unfoldable pub manifest_file_name : ℕ → List ℕ
unfolding decimal
manifest_file_name generation = manifest_prefix ++ decimal manifest_digits generation []

unfoldable pub is_digit : ℕ → Bool
is_digit b = leb b'0' b && leb b b'9'

-- strconv.ParseUint in base 10, for 64 bits
unfoldable pub parse_uint : ℕ → List ℕ → Option ℕ
unfolding is_digit
parse_uint n [] = if ltb n (2 ^ 64) then some n else none
parse_uint n (b ∷ digits) = elim (is_digit b) [
  | true ↦ parse_uint (n * 10 + (b - b'0')) digits
  | false ↦ none
]

unfoldable pub positive : Option ℕ → Option ℕ
positive none = none
positive (some n) = if n == 0 then none else some n

unfoldable pub parse_manifest_file_name : List ℕ → Option ℕ
unfolding parse_uint positive
parse_manifest_file_name name =
    if not (length name == length manifest_prefix + manifest_digits)
      || not (bytes_equal (take (length manifest_prefix) name) manifest_prefix)
    then none
    else positive (parse_uint 0 (drop (length manifest_prefix) name))

-- The files by name, and what CURRENT holds
pub record Directory : Type 0 where
  pub files : List (List ℕ × List ℕ)
  pub current : Option (List ℕ)

unfoldable pub lookup_file : List ℕ → List (List ℕ × List ℕ) → Option (List ℕ)
lookup_file name [] = none
lookup_file name ((n, contents) ∷ files) =
    if bytes_equal n name then some contents else lookup_file name files

unfoldable pub greatest : List (List ℕ × List ℕ) → ℕ
unfolding parse_manifest_file_name
greatest [] = 0
greatest ((name, contents) ∷ files) = elim (parse_manifest_file_name name) [
  | none ↦ greatest files
  | some generation ↦ max generation (greatest files)
]

unfoldable pub next_manifest_generation : Directory → Result ℕ
unfolding greatest
next_manifest_generation dir = do
  reject (greatest dir.files == 2 ^ 64 - 1) generation_exhausted
  ok (greatest dir.files + 1)

abbrev pub current_magic : List ℕ
current_magic = b'Z' ∷ b'V' ∷ b'E' ∷ b'C' ∷ b'C' ∷ b'U' ∷ b'R' ∷ b'1' ∷ []

abbrev current_header_length : ℕ
current_header_length = 16

unfoldable pub current_header : List ℕ → List ℕ
current_header name =
    let start = put_at 0 current_magic (replicate 16 0) in
    let measured = put_at 8 (le_bytes 2 (length name)) start in
    let size = put_at 10 (le_bytes 2 current_header_length) measured in
    put_at 12 (le_bytes 4 (crc32c name)) size

unfoldable pub is_manifest_name : List ℕ → Bool
unfolding parse_manifest_file_name
is_manifest_name name = elim (parse_manifest_file_name name) [ none ↦ false | some n ↦ true ]

unfoldable pub marshal_current : List ℕ → Result (List ℕ)
unfolding is_manifest_name current_header
marshal_current name = do
  reject (not (is_manifest_name name)) manifest_corrupt
  ok (current_header name ++ name)

unfoldable pub decode_current : List ℕ → Result (List ℕ)
unfolding is_manifest_name
decode_current encoded = do
  reject (ltb (length encoded) current_header_length || ltb 1024 (length encoded)) manifest_corrupt
  reject (not (bytes_equal (take 8 encoded) current_magic)) manifest_corrupt
  reject (not (from_le (slice 10 12 encoded) == current_header_length)) manifest_corrupt
  reject (not (from_le (slice 8 10 encoded) == length encoded - current_header_length))
      manifest_corrupt
  let name = drop current_header_length encoded
  reject (not (crc32c name == from_le (slice 12 16 encoded))) manifest_corrupt
  reject (not (is_manifest_name name)) manifest_corrupt
  ok name

unfoldable pub read_current : Directory → Result (List ℕ)
unfolding decode_current
read_current dir = elim dir.current [
  | none ↦ err manifest_not_found
  | some encoded ↦ decode_current encoded
]

unfoldable pub read_manifest_file : Json → Directory → List ℕ → Result Manifest
unfolding lookup_file
read_manifest_file json dir name = elim (lookup_file name dir.files) [
  | none ↦ err manifest_not_found
  | some encoded ↦ do
    reject (ltb (length encoded) 32 || ltb (32 + 67108864) (length encoded)) manifest_corrupt
    unmarshal_manifest json encoded
]
