-- ===== src/Font/Images/Blocks.antt =====
-- The loops over images in gtkconsole.cc and fontrom.cc copy blocks of bytes.
use Prim.Native.Nat.{bit_or}
use mathlib.Core.Path.{fun_ext}
use vx68k_v.Base.{
  ℕ, zero, suc, ◌+◌, ◌-◌, ◌*◌, ◌/◌, ◌%◌, ◌≤◌, ◌<◌, ◌≡◌, refl, ap, ◌∙◌, inl, inr, Bool, true, false,
  ◌&&◌, arith, ◌==◌, ltb, leb, if◌then◌else◌, leb-true, ◌⊎◌, some, add32, sub32,
}
use vx68k_v.Base.Bus.{ok}
use vx68k_v.TextVram.{Buffer}
use vx68k_v.Font.{jisx0201_16_offset, jisx0208_16_offset, linear_jisx0208}
use vx68k_v.Font.Images.{
  Bitmaps, put, b16_rows, k16_rows, get_b16_image, get_k16_image, rom_size, copy_b16, copy_k16_row,
  copy_k16, copy_data,
}

-- `n` bytes of a bitmap from `i` on laid into a buffer at `p`.
abbrev pub block : Buffer → (n i p : ℕ) → Buffer → Buffer
block font n i p d j = if leb p j && ltb j (p + n) then font (i + (j - p)) % 256 else d j

block-block :
    (font : Buffer) (n m i p : ℕ) (d : Buffer) (j : ℕ)
    → block font m (i + n) (p + n) (block font n i p d) j ≡ block font (n + m) i p d j
block-block font n m i p d j = ground arith

block-zero : (font : Buffer) (i p : ℕ) (d : Buffer) → d ≡ block font 0 i p d
block-zero font i p d = fun_ext λ j. ground arith

block-cons :
    (font : Buffer) (n i p : ℕ) (d : Buffer) (j : ℕ)
    → block font n (i + 1) (p + 1) (put p (font i) d) j ≡ block font (suc n) i p d j
block-cons font n i p d j = ground arith

pub b16_rows-block :
    (n : ℕ) (font : Buffer) (c p i : ℕ) (d : Buffer)
    → b16_rows n font c 1 p i d ≡ block font n (c * 16 + i) (p + i) d
unfolding b16_rows
b16_rows-block zero font c p i d = block-zero font (c * 16 + i) (p + i) d
b16_rows-block (suc n) font c p i d =
    let at : p + i * 1 ≡ p + i = omega arith in
    let byte : c * 16 + (i + 1) ≡ c * 16 + i + 1 = omega arith in
    let there : p + (i + 1) ≡ p + i + 1 = omega arith in
    rw at (
      b16_rows-block n font c p (i + 1) (put (p + i) (font (c * 16 + i)) d)
      ∙ rw (byte, there) (fun_ext (block-cons font n (c * 16 + i) (p + i) d)))

k16_rows-block :
    (n : ℕ) (font : Buffer) (q p i : ℕ) (d : Buffer)
    → k16_rows n font q 2 p i d ≡ block font (n * 2) (q * 32 + i * 2) (p + i * 2) d
unfolding k16_rows
k16_rows-block zero font q p i d = block-zero font (q * 32 + i * 2) (p + i * 2) d
k16_rows-block (suc n) font q p i d =
    let at : (q * 16 + i) * 2 ≡ q * 32 + i * 2 = omega arith in
    let byte : q * 32 + (i + 1) * 2 ≡ q * 32 + i * 2 + 1 + 1 = omega arith in
    let there : p + (i + 1) * 2 ≡ p + i * 2 + 1 + 1 = omega arith in
    let twice : suc n * 2 ≡ suc (suc (n * 2)) = omega arith in
    let e : Buffer = put (p + i * 2) (font (q * 32 + i * 2)) d in
    rw (at, twice)
      (k16_rows-block n font q p (i + 1) (put (p + i * 2 + 1) (font (q * 32 + i * 2 + 1)) e)
        ∙ rw (byte, there)
            (fun_ext (block-cons font (n * 2) (q * 32 + i * 2 + 1) (p + i * 2 + 1) e)
              ∙ fun_ext (block-cons font (suc (n * 2)) (q * 32 + i * 2) (p + i * 2) d)))

-- The codes of the kanji: the two bytes do not meet, in the first `n` columns and in the first rows.
row_agrees : (i n : ℕ) → Bool
row_agrees i zero = true
row_agrees i (suc j) = if bit_or (i * 256) j == i * 256 + j then row_agrees i j else false

rows_agree : ℕ → Bool
rows_agree zero = true
rows_agree (suc i) = if row_agrees i 128 then rows_agree i else false

rows_agree-128 : rows_agree 128 ≡ true
unfolding rows_agree row_agrees
rows_agree-128 = refl

row_agrees-code : (i n j : ℕ) → j < n → row_agrees i n ≡ true → bit_or (i * 256) j ≡ i * 256 + j
unfolding row_agrees
row_agrees-code i zero j h e = absurd (omega arith)
row_agrees-code i (suc n) j h e = ground (arith, row_agrees-code i n j)

rows_agree-row : (n i : ℕ) → i < n → rows_agree n ≡ true → row_agrees i 128 ≡ true
unfolding rows_agree
rows_agree-row zero i h e = absurd (omega arith)
rows_agree-row (suc n) i h e = ground (arith, rows_agree-row n i)

bit_or-code : (i j : ℕ) → i < 128 → j < 128 → bit_or (i * 256) j ≡ i * 256 + j
bit_or-code i j h k = row_agrees-code i 128 j k (rows_agree-row 128 i h rows_agree-128)

-- A row of JIS X 0208 and its place in the bitmap, in characters.
abbrev pub cell : (i j : ℕ) → ℕ
cell i j = (i - 0x21) * 94 + (j - 0x21)

pub get_k16_image-block :
    (font : Buffer) (i j p : ℕ) (d : Buffer)
    → 0x21 ≤ i
    → i < 0x7f
    → 0x21 ≤ j
    → j < 0x7f
    → get_k16_image (some font) (bit_or (i * 256) j) 2 p d ≡ block font 32 (cell i j * 32) p d
unfolding get_k16_image
get_k16_image-block font i j p d h hi k kj =
    let high : (i * 256 + j) / 256 ≡ i = omega (arith, hi, kj) in
    let low : (i * 256 + j) % 256 ≡ j = omega (arith, hi, kj) in
    let place : add32 (sub32 i 0x21 * 94) (sub32 j 0x21) ≡ cell i j = omega (arith, h, hi, k, kj) in
    let first : cell i j * 32 + 0 * 2 ≡ cell i j * 32 = omega arith in
    let start : p + 0 * 2 ≡ p = omega arith in
    rw (bit_or-code i j (omega (arith, hi)) (omega (arith, kj)), high, low, place)
      (k16_rows-block 16 font (cell i j) p 0 d ∙ rw (first, start) refl)

-- Two blocks of which the second begins where the first ends.
join :
    (font : Buffer) (n m i p k q s : ℕ) (d : Buffer)
    → i + n ≡ k
    → p + n ≡ q
    → n + m ≡ s
    → block font m k q (block font n i p d) ≡ block font s i p d
join font n m i p k q s d e f g = rw (← e, ← f, ← g) (fun_ext (block-block font n m i p d))

abbrev pub bitmaps : (pf kf : Buffer) → Bitmaps
bitmaps pf kf = record { primary_font = some pf; kanji16_font = some kf }

-- A row of the table, as far as the ROM has it without a gap behind the row 0x28.
unfoldable pub line : ℕ → ℕ
line i = if leb 0x30 i then i - 0x30 + 8 else i - 0x21

abbrev pub place : (i j : ℕ) → ℕ
place i j = line i * 94 + (j - 0x21)

pub line-lt : (i : ℕ) → 0x21 ≤ i → i < 0x75 → line i < 77
unfolding line
line-lt i h k = ground arith

pub offset-place :
    (i j : ℕ) → 0x21 ≤ i → i < 0x75 → 0x21 ≤ j → j < 0x7f → jisx0208_16_offset i j ≡ place i j * 32
unfolding jisx0208_16_offset linear_jisx0208 line
offset-place i j h hi k kj = ground arith

line-next :
    (n i : ℕ)
    → 0x21 ≤ i
    → (i + suc n ≤ 0x2f) ⊎ (0x30 ≤ i)
    → place i 0x21 * 32 + 3008 ≡ place (i + 1) 0x21 * 32
unfolding line
line-next n i h side = ground arith

module _ (pf kf : Buffer) where
  -- The loops over characters.
  copy_b16-block :
      (n i : ℕ) (d : Buffer)
      → i + n ≤ 256
      → copy_b16 n i (bitmaps pf kf) d ≡ ok (block pf (n * 16) (i * 16) (0x3a800 + i * 16) d)
  unfolding copy_b16 get_b16_image jisx0201_16_offset
  copy_b16-block zero i d h = ap ok (block-zero pf (i * 16) (0x3a800 + i * 16) d)
  copy_b16-block (suc n) i d h =
      let p : ℕ = 0x3a800 + i * 16 in
      let at : add32 (i * 16) 0x3a800 ≡ p = omega (arith, h) in
      let first : i * 16 + 0 ≡ i * 16 = omega arith in
      let start : p + 0 ≡ p = omega arith in
      let one : b16_rows 16 pf i 1 p 0 d ≡ block pf 16 (i * 16) p d =
        b16_rows-block 16 pf i p 0 d ∙ rw (first, start) refl in
      rw (at, leb-true (p + 16) rom_size (omega (arith, h)), one)
        (copy_b16-block n (i + 1) (block pf 16 (i * 16) p d) (omega (arith, h))
          ∙ ap ok (
              join pf 16 (n * 16) (i * 16) p ((i + 1) * 16) (0x3a800 + (i + 1) * 16) (suc n * 16) d
                (omega arith) (omega arith) (omega arith)))

  copy_k16_row-block :
      (n i j : ℕ) (d : Buffer)
      → 0x21 ≤ i
      → i < 0x75
      → 0x21 ≤ j
      → j + n ≤ 0x7f
      → copy_k16_row n i j (bitmaps pf kf) d
        ≡ ok (block kf (n * 32) (cell i j * 32) (place i j * 32) d)
  unfolding copy_k16_row
  copy_k16_row-block zero i j d h hi k kj = ap ok (block-zero kf (cell i j * 32) (place i j * 32) d)
  copy_k16_row-block (suc n) i j d h hi k kj =
      let p : ℕ = place i j * 32 in
      rw
        (
          offset-place i j h hi k (omega (arith, kj)),
          leb-true (p + 32) rom_size (omega (arith, line-lt i h hi, kj)),
          get_k16_image-block kf i j p d h (omega (arith, hi)) k (omega (arith, kj)),
        )
        (copy_k16_row-block n i (j + 1) (block kf 32 (cell i j * 32) p d) h hi (omega (arith, k))
            (omega (arith, kj))
          ∙ ap ok (
              join kf 32 (n * 32) (cell i j * 32) p (cell i (j + 1) * 32) (place i (j + 1) * 32)
                (suc n * 32) d (omega (arith, k)) (omega (arith, k)) (omega arith)))

  -- Whole rows, on one side of the gap.
  copy_k16-block :
      (n i : ℕ) (d : Buffer)
      → 0x21 ≤ i
      → i + n ≤ 0x75
      → (i + n ≤ 0x2f) ⊎ (0x30 ≤ i)
      → copy_k16 n i (bitmaps pf kf) d
        ≡ ok (block kf (n * 3008) (cell i 0x21 * 32) (place i 0x21 * 32) d)
  unfolding copy_k16 line
  copy_k16-block zero i d h hi side = ap ok (block-zero kf (cell i 0x21 * 32) (place i 0x21 * 32) d)
  copy_k16-block (suc n) i d h hi side =
      let e : Buffer = block kf 3008 (cell i 0x21 * 32) (place i 0x21 * 32) d in
      rw (copy_k16_row-block 94 i 0x21 d h (omega (arith, hi)) (omega arith) (omega arith)) (
        copy_k16-block n (i + 1) e (omega (arith, h)) (omega (arith, hi)) (elim side [
          | inl below ↦ inl (omega (arith, below))
          | inr above ↦ inr (omega (arith, above))
        ])
        ∙ ap ok (
            join kf 3008 (n * 3008) (cell i 0x21 * 32) (place i 0x21 * 32) (cell (i + 1) 0x21 * 32)
              (place (i + 1) 0x21 * 32) (suc n * 3008) d (omega (arith, h)) (line-next n i h side)
              (omega arith)))

  -- The ROM afterwards: two blocks of kanji and one of the single bytes.
  unfoldable pub copied : Buffer → Buffer
  copied d = block kf 207552 45120 24064 (block kf 24064 0 0 (block pf 4096 0 0x3a800 d))

  pub copy_data-copied : (d : Buffer) → copy_data (bitmaps pf kf) d ≡ ok (copied d)
  unfolding copy_data copied line
  copy_data-copied d =
      rw
        (
          copy_b16-block 0x100 0 d (omega arith),
          copy_k16-block 8 0x21 (block pf 4096 0 0x3a800 d) (omega arith) (omega arith)
              (inl (omega arith)),
          copy_k16-block 69 0x30 (block kf 24064 0 0 (block pf 4096 0 0x3a800 d)) (omega arith)
              (omega arith) (inr (omega arith)),
        )
        refl
