-- ===== src/Versions/Names.antt =====
-- internal/db/version_manager.go: writing and reading the names of manifests and the pointer to one.
use native.Mathlib.Nat.{pow-suc}
use zvec.Base.{
  ℕ, zero, suc, ◌+◌, ◌-◌, ◌*◌, ◌/◌, ◌%◌, ◌^◌, ◌<◌, ◌≡◌, refl, ap, ◌∙◌, List, [], ◌∷◌, ◌++◌, true,
  some, length, take, drop, slice, from_le, from_le-le_bytes, bytes_equal, bytes_equal_refl, arith,
  Option-cases, inl, inr,
}
use zvec.Errors.{ok}
use zvec.Go.Checksum.{crc32c, crc32c-lt}
use zvec.Versions.{
  manifest_prefix, manifest_digits, decimal, parse_uint, is_digit, positive, manifest_file_name,
  parse_manifest_file_name, is_manifest_name, current_header, current_magic, marshal_current,
  decode_current, greatest, next_manifest_generation, Directory,
}

length-decimal : (width n : ℕ) (rest : List ℕ) → length (decimal width n rest) ≡ width + length rest
unfolding decimal
length-decimal zero n rest = omega arith
length-decimal (suc width) n rest =
    omega (arith, length-decimal width (n / 10) ((b'0' + n % 10) ∷ rest))

parse-digit :
    (acc d : ℕ) (rest : List ℕ)
    → d < 10
    → parse_uint acc ((b'0' + d) ∷ rest) ≡ parse_uint (acc * 10 + d) rest
unfolding parse_uint is_digit
parse-digit acc d rest h =
    let value : acc * 10 + (b'0' + d - b'0') ≡ acc * 10 + d = omega arith in ground (arith, value)

parse-decimal :
    (width acc n : ℕ) (rest : List ℕ)
    → n < 10 ^ width
    → parse_uint acc (decimal width n rest) ≡ parse_uint (acc * 10 ^ width + n) rest
unfolding decimal
parse-decimal zero acc n rest h = let same : acc * 10 ^ 0 + n ≡ acc = omega arith in rw same refl
parse-decimal (suc width) acc n rest h =
    let small : n / 10 < 10 ^ width = omega (arith, pow-suc 10 width) in
    let inner = parse-decimal width acc (n / 10) ((b'0' + n % 10) ∷ rest) small in
    let digit = parse-digit (acc * 10 ^ width + n / 10) (n % 10) rest (omega arith) in
    let value : (acc * 10 ^ width + n / 10) * 10 + n % 10 ≡ acc * 10 ^ suc width + n =
      rw (pow-suc 10 width) (omega arith) in
    inner ∙ digit ∙ rw value refl

parse-prefix :
    (digits : List ℕ)
    → length digits ≡ manifest_digits
    → parse_manifest_file_name (manifest_prefix ++ digits) ≡ positive (parse_uint 0 digits)
unfolding parse_manifest_file_name bytes_equal
parse-prefix digits h =
    let size : length (manifest_prefix ++ digits) ≡ 29 = omega arith in ground arith

pub parse-manifest_file_name :
    (generation : ℕ)
    → 0 < generation
    → generation < 2 ^ 64
    → parse_manifest_file_name (manifest_file_name generation) ≡ some generation
unfolding manifest_file_name positive parse_uint
parse-manifest_file_name generation p h =
    let digits = parse-decimal 20 0 generation [] (omega arith) in
    let none_before : 0 * 10 ^ 20 + generation ≡ generation = omega arith in
    parse-prefix (decimal 20 generation []) (length-decimal 20 generation [])
    ∙ ap positive (digits ∙ ap (λ x. parse_uint x []) none_before)
    ∙ ground arith

length-manifest_file_name : (generation : ℕ) → length (manifest_file_name generation) ≡ 29
unfolding manifest_file_name
length-manifest_file_name generation = omega (arith, length-decimal 20 generation [])

-- The pointer to a manifest's name is read as that name.
module _ (name : List ℕ) where
  abbrev pub pointer : List ℕ
  pointer = current_header name ++ name

  pointer_size : length pointer ≡ 16 + length name
  unfolding current_header
  pointer_size = omega arith

  pointer_constants :
      (bytes_equal (take 8 pointer) current_magic ≡ true)
      × (from_le (slice 10 12 pointer) ≡ 16)
      × (drop 16 pointer ≡ name)
  unfolding current_header from_le
  pointer_constants = (bytes_equal_refl current_magic, refl, refl)

  pointer_words :
      length name < 256 ^ 2
      → (from_le (slice 8 10 pointer) ≡ length name) × (from_le (slice 12 16 pointer) ≡ crc32c name)
  unfolding current_header
  pointer_words h =
      (from_le-le_bytes 2 (length name) h, from_le-le_bytes 4 (crc32c name) (crc32c-lt name))

  pub decode-pointer :
      is_manifest_name name ≡ true → length name ≡ 29 → decode_current pointer ≡ ok name
  unfolding decode_current
  decode-pointer h size =
      ground (arith, pointer_size, pointer_constants, pointer_words (omega arith))

  pub marshal-pointer :
      (generation : ℕ)
      → parse_manifest_file_name name ≡ some generation
      → (is_manifest_name name ≡ true) × (marshal_current name ≡ ok pointer)
  unfolding marshal_current is_manifest_name
  marshal-pointer generation h = ground arith

-- The name of every manifest, of a generation that is positive and has 64 bits, is parsed to that
-- generation, and the pointer CURRENT that is written for it is read as that name.
pub decode-marshal_current :
    (generation : ℕ)
    → 0 < generation
    → generation < 2 ^ 64
    → (parse_manifest_file_name (manifest_file_name generation) ≡ some generation)
      × (marshal_current (manifest_file_name generation)
          ≡ ok (pointer (manifest_file_name generation)))
      × (decode_current (pointer (manifest_file_name generation))
          ≡ ok (manifest_file_name generation))
decode-marshal_current generation p h =
    let name = manifest_file_name generation in
    let parsed = parse-manifest_file_name generation p h in
    let (named, written) = marshal-pointer name generation parsed in
    (parsed, written, decode-pointer name named (length-manifest_file_name generation))

parse_uint-lt : (acc : ℕ) (digits : List ℕ) (n : ℕ) → parse_uint acc digits ≡ some n → n < 2 ^ 64
unfolding parse_uint
parse_uint-lt acc [] n h = ground arith
parse_uint-lt acc (b ∷ digits) n h = ground (arith, parse_uint-lt (acc * 10 + (b - b'0')) digits n)

parse_name-lt : (name : List ℕ) (n : ℕ) → parse_manifest_file_name name ≡ some n → n < 2 ^ 64
unfolding parse_manifest_file_name positive
parse_name-lt name n h = ground (arith, parse_uint-lt 0 (drop 9 name) n)

greatest-lt : (files : List (List ℕ × List ℕ)) → greatest files < 2 ^ 64
unfolding greatest
greatest-lt [] = omega arith
greatest-lt ((name, contents) ∷ files) = elim (Option-cases (parse_manifest_file_name name)) [
  | inl e ↦ ground (arith, greatest-lt files)
  | inr (n, e) ↦ ground (arith, greatest-lt files, parse_name-lt name n e)
]

-- The next generation is positive, has 64 bits and is above that of every file.
pub next_manifest_generation-bounds :
    (dir : Directory) (generation : ℕ)
    → next_manifest_generation dir ≡ ok generation
    → (0 < generation) × (generation < 2 ^ 64) × (greatest dir.files < generation)
unfolding next_manifest_generation
next_manifest_generation-bounds dir generation h = ground (arith, greatest-lt dir.files)
