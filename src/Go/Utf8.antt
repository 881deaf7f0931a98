-- ===== src/Go/Utf8.antt =====
-- unicode/utf8.ValidString and the order of strings; a string is its bytes.
use zvec.Base.{
  ℕ, ◌+◌, ◌-◌, ◌*◌, ◌%◌, List, [], ◌∷◌, Bool, true, false, Option, none, some, ◌&&◌, ltb, leb, ◌==◌,
  if◌then◌else◌, ◌≡◌, refl,
}

-- How many bytes of the current code point are still to come, and the range of the next one.
record Decoder : Type 0 where
  missing : ℕ
  low : ℕ
  high : ℕ

abbrev within : ℕ → ℕ → ℕ → Bool
within low high b = leb low b && leb b high

abbrev expect : ℕ → ℕ → ℕ → Option Decoder
expect missing low high = some (record { missing = missing; low = low; high = high })

first_byte : ℕ → Option Decoder
first_byte b =
    if ltb b 0x80
    then expect 0 0 0
    else if within 0xc2 0xdf b
    then expect 1 0x80 0xbf
    else if b == 0xe0
    then expect 2 0xa0 0xbf
    else if b == 0xed
    then expect 2 0x80 0x9f
    else if within 0xe1 0xef b
    then expect 2 0x80 0xbf
    else if b == 0xf0
    then expect 3 0x90 0xbf
    else if within 0xf1 0xf3 b
    then expect 3 0x80 0xbf
    else if b == 0xf4
    then expect 3 0x80 0x8f
    else none

next_byte : Decoder → ℕ → Option Decoder
next_byte d b =
    if d.missing == 0
    then first_byte b
    else if within d.low d.high b
    then expect (d.missing - 1) 0x80 0xbf
    else none

valid_from : Decoder → List ℕ → Bool
valid_from d [] = d.missing == 0
valid_from d (b ∷ bytes) = elim (next_byte d b) [ none ↦ false | some d' ↦ valid_from d' bytes ]

unfoldable pub valid_string : List ℕ → Bool
unfolding valid_from next_byte first_byte
valid_string bytes = valid_from (record { missing = 0; low = 0; high = 0 }) bytes

-- The bits of a code point that its first byte holds, by the number of bytes to come.
first_bits : ℕ → ℕ → ℕ
first_bits missing b =
    if missing == 0
    then b
    else if missing == 1
    then b % 32
    else if missing == 2
    then b % 16
    else b % 8

decode_from : Decoder → ℕ → List ℕ → List ℕ
decode_from d bits [] = []
decode_from d bits (b ∷ bytes) = elim (next_byte d b) [
  | none ↦ []
  | some d' ↦
      let bits' = if d.missing == 0 then first_bits d'.missing b else bits * 64 + b % 64 in
      let rest = decode_from d' bits' bytes in if d'.missing == 0 then bits' ∷ rest else rest
]

-- The conversion `[]rune` of a valid string
unfoldable pub runes : List ℕ → List ℕ
unfolding decode_from next_byte first_byte first_bits
runes bytes = decode_from (record { missing = 0; low = 0; high = 0 }) 0 bytes

runes_test : runes (0x61 ∷ 0xe2 ∷ 0x82 ∷ 0xac ∷ 0xc3 ∷ 0xa9 ∷ []) ≡ 0x61 ∷ 0x20ac ∷ 0xe9 ∷ []
unfolding runes
runes_test = refl

-- U+20AC is valid, a surrogate and an overlong form are not.
valid_string_tests :
    (valid_string (0x61 ∷ 0xe2 ∷ 0x82 ∷ 0xac ∷ []) ≡ true)
    × (valid_string (0xed ∷ 0xa0 ∷ 0x80 ∷ []) ≡ false)
    × (valid_string (0xc0 ∷ 0xaf ∷ []) ≡ false)
unfolding valid_string
valid_string_tests = (refl, refl, refl)
