-- ===== src/Base/Word.antt =====
-- Machine words: `uint32_type` and its arithmetic, with the wrap-around written out.
use Prim.Native.Nat.{ℕ, ◌+◌, ◌-◌, ◌*◌, ◌/◌, ◌%◌, ◌^◌, ◌<◌}
use mathlib.Core.Path.{◌≡◌}
use native.Mathlib.Omega.{arith}

abbrev pub word_32 : ℕ
word_32 = 4294967296

-- a + b and a - b of `uint32_type`.
abbrev pub add32 : ℕ → ℕ → ℕ
add32 a b = (a + b) % word_32

abbrev pub sub32 : ℕ → ℕ → ℕ
sub32 a b = (a + word_32 - b) % word_32

-- The 32-bit pattern of -n, for 0 < n < 2^32.
abbrev pub minus : ℕ → ℕ
minus n = word_32 - n

-- The `n` bits of `x` from bit `lo` on, `x >> lo & (1 << n) - 1`.
abbrev pub bits : ℕ → ℕ → ℕ → ℕ
bits x lo n = x / 2 ^ lo % 2 ^ n

-- (x + 0xf) & ~0xf of `uint32_type`.
abbrev pub align16 : ℕ → ℕ
align16 x = add32 x 15 / 16 * 16

-- The four bytes of a long word.
pub bits-bytes :
    (a b c d : ℕ)
    → a < 256
    → b < 256
    → c < 256
    → d < 256
    → let n : ℕ = a * 16777216 + b * 65536 + c * 256 + d in
      (bits n 24 8 ≡ a) × (bits n 16 8 ≡ b) × (bits n 8 8 ≡ c) × (bits n 0 8 ≡ d) × (n < word_32)
bits-bytes a b c d ha hb hc hd = ground arith
