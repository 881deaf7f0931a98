-- ===== src/Go/Checksum.antt =====
-- internal/ailego/crc32c.go over hash/crc32: the Castagnoli checksum, bit by bit instead of by table.
use Prim.Native.Nat.{bit_xor}
use zvec.Base.{
  ℕ, zero, suc, ◌/◌, ◌%◌, ◌^◌, ◌<◌, ◌≡◌, refl, List, [], ◌∷◌, ◌==◌, if◌then◌else◌, arith,
}

-- The reflected polynomial, as in crc32.Castagnoli.
abbrev castagnoli : ℕ
castagnoli = 0x82f63b78

shift_bits : ℕ → ℕ → ℕ
shift_bits zero crc = crc
shift_bits (suc rounds) crc =
    shift_bits rounds (if crc % 2 == 1 then bit_xor (crc / 2) castagnoli else crc / 2)

feed : ℕ → List ℕ → ℕ
feed crc [] = crc
feed crc (b ∷ bytes) = feed (shift_bits 8 (bit_xor crc b)) bytes

-- crc32.Update: the register is complemented before and after.
pub update_crc32c : ℕ → List ℕ → ℕ
unfolding feed shift_bits
update_crc32c crc bytes = bit_xor (feed (bit_xor crc 0xffffffff) bytes) 0xffffffff % 2 ^ 32

unfoldable pub crc32c : List ℕ → ℕ
unfolding update_crc32c
crc32c bytes = update_crc32c 0 bytes

pub update_crc32c-lt : (crc : ℕ) (bytes : List ℕ) → update_crc32c crc bytes < 256 ^ 4
unfolding update_crc32c
update_crc32c-lt crc bytes = omega arith

pub crc32c-lt : (bytes : List ℕ) → crc32c bytes < 256 ^ 4
unfolding crc32c
crc32c-lt bytes = omega arith

-- The check value of CRC-32C, on the text "123456789".
crc32c_check_value :
    crc32c (0x31 ∷ 0x32 ∷ 0x33 ∷ 0x34 ∷ 0x35 ∷ 0x36 ∷ 0x37 ∷ 0x38 ∷ 0x39 ∷ []) ≡ 0xe3069283
unfolding crc32c
crc32c_check_value = refl
