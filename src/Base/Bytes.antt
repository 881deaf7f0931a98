-- ===== src/Base/Bytes.antt =====
-- Byte slices as lists of numbers: Go's `copy` into a slice at an offset, sub-slices, and the
-- little-endian words of encoding/binary.
use Prim.Native.Nat.{ℕ, zero, suc, ◌+◌, ◌-◌, ◌*◌, ◌/◌, ◌%◌, ◌^◌, ◌<◌}
use mathlib.Core.Path.{◌≡◌, refl}
use mathlib.Core.Bool.{Bool, true, false, ◌&&◌}
use mathlib.Core.Logic.{◌↔◌}
use mathlib.Core.List.{List, [], ◌∷◌}
use native.Mathlib.Omega.{arith}
use native.Mathlib.Nat.{pow-suc}
use zvec.Base.Tests.{◌==◌}
use zvec.Base.Lists.{take, drop}

-- data[lo:hi]
abbrev pub slice : ℕ → ℕ → List ℕ → List ℕ
slice lo hi bytes = take (hi - lo) (drop lo bytes)

-- copy(buffer[offset:], source): what does not fit is dropped.
abbrev pub put_at : ℕ → List ℕ → List ℕ → List ℕ
put_at offset source [] = []
put_at zero [] (b ∷ buffer) = b ∷ buffer
put_at zero (s ∷ source) (b ∷ buffer) = s ∷ put_at zero source buffer
put_at (suc offset) source (b ∷ buffer) = b ∷ put_at offset source buffer

-- The `width` bytes of a word, lowest first.
abbrev pub le_bytes : ℕ → ℕ → List ℕ
le_bytes zero value = []
le_bytes (suc width) value = (value % 256) ∷ le_bytes width (value / 256)

unfoldable pub from_le : List ℕ → ℕ
from_le [] = 0
from_le (b ∷ bytes) = b + 256 * from_le bytes

pub from_le-le_bytes :
    (width value : ℕ) → value < 256 ^ width → from_le (le_bytes width value) ≡ value
unfolding from_le
from_le-le_bytes zero value h = omega arith
from_le-le_bytes (suc width) value h =
    let small : value / 256 < 256 ^ width = omega (arith, pow-suc 256 width) in
    omega (arith, from_le-le_bytes width (value / 256) small)

-- bytes.Equal, and == on strings
unfoldable pub bytes_equal : List ℕ → List ℕ → Bool
bytes_equal [] [] = true
bytes_equal [] (y ∷ ys) = false
bytes_equal (x ∷ xs) [] = false
bytes_equal (x ∷ xs) (y ∷ ys) = x == y && bytes_equal xs ys

bytes_equal_sound : (xs ys : List ℕ) → bytes_equal xs ys ≡ true → xs ≡ ys
unfolding bytes_equal
bytes_equal_sound [] [] h = refl
bytes_equal_sound [] (y ∷ ys) h = cc
bytes_equal_sound (x ∷ xs) [] h = cc
bytes_equal_sound (x ∷ xs) (y ∷ ys) h = ground (arith, bytes_equal_sound xs ys)

pub bytes_equal_refl : (xs : List ℕ) → bytes_equal xs xs ≡ true
unfolding bytes_equal
bytes_equal_refl [] = refl
bytes_equal_refl (x ∷ xs) = ground (arith, bytes_equal_refl xs)

pub bytes_equal_iff : (xs ys : List ℕ) → (bytes_equal xs ys ≡ true) ↔ (xs ≡ ys)
bytes_equal_iff xs ys = (bytes_equal_sound xs ys, λ e. rw (← e) (bytes_equal_refl xs))
