-- ===== src/Font/Images.antt =====
-- The glyphs that the console supplies, `get_b16_image` and `get_k16_image` of
-- libvx68k-gtk/gtkconsole.cc, and `font_rom::copy_data` of libvx68k/fontrom.cc, which fills the font
-- ROM with them. The bitmaps that GDK draws are arguments, functions on their bytes.
pub mod Blocks
pub mod Copied
use Prim.Native.Nat.{bit_or}
use vx68k_v.Base.{
  ℕ, zero, suc, ◌+◌, ◌-◌, ◌*◌, ◌/◌, ◌%◌, Option, none, some, ◌==◌, leb, if◌then◌else◌, add32, sub32,
}
use vx68k_v.Base.Bus.{Result, ok, out_of_bounds, ◌>>=◌}
use vx68k_v.TextVram.{Buffer, Glyphs}
use vx68k_v.Font.{jisx0201_16_offset, jisx0208_16_offset}

-- `primary_font` and `kanji16_font`; none is a null pointer.
pub record Bitmaps : Type 0 where
  pub primary_font : Option Buffer
  pub kanji16_font : Option Buffer

abbrev pub put : (p v : ℕ) → Buffer → Buffer
put p v d j = if j == p then v % 256 else d j

-- The loops over the rows of an image, `n` rows from `i` on, into the buffer at `p`.
unfoldable pub b16_rows : (n : ℕ) → Buffer → (c row_size p i : ℕ) → Buffer → Buffer
b16_rows zero font c row_size p i d = d
b16_rows (suc n) font c row_size p i d =
    b16_rows n font c row_size p (i + 1) (put (p + i * row_size) (font (c * 16 + i)) d)

unfoldable pub k16_rows : (n : ℕ) → Buffer → (q row_size p i : ℕ) → Buffer → Buffer
k16_rows zero font q row_size p i d = d
k16_rows (suc n) font q row_size p i d = k16_rows n font q row_size p (i + 1) (
    put (p + i * row_size + 1) (font ((q * 16 + i) * 2 + 1))
      (put (p + i * row_size) (font ((q * 16 + i) * 2)) d))

unfoldable pub get_b16_image : Option Buffer → (c row_size p : ℕ) → Buffer → Buffer
unfolding b16_rows
get_b16_image none c row_size p d = d
get_b16_image (some font) c row_size p d = b16_rows 16 font c row_size p 0 d

unfoldable pub get_k16_image : Option Buffer → (c row_size p : ℕ) → Buffer → Buffer
unfolding k16_rows
get_k16_image none c row_size p d = d
get_k16_image (some font) c row_size p d =
    let h : ℕ = c / 256 in
    let l : ℕ = c % 256 in
    k16_rows 16 font (add32 (sub32 h 0x21 * 94) (sub32 l 0x21)) row_size p 0 d

-- What `draw_char` gets of this console, which it asks for rows of 2 bytes and of 1.
unfoldable pub glyphs : Bitmaps → Glyphs
unfolding get_b16_image get_k16_image
glyphs f = record {
  k16 = λ c. get_k16_image f.kanji16_font c 2 0 (λ _. 0);
  b16 = λ c. get_b16_image f.primary_font c 1 0 (λ _. 0);
}

-- The size of the array of the font ROM. A glyph that does not lie in it is `out_of_bounds`.
abbrev pub rom_size : ℕ
rom_size = 0xc0000

unfoldable pub copy_b16 : (n i : ℕ) → Bitmaps → Buffer → Result Buffer
copy_b16 zero i f d = ok d
copy_b16 (suc n) i f d =
    let p : ℕ = jisx0201_16_offset i in
    if leb (p + 16) rom_size
    then copy_b16 n (i + 1) f (get_b16_image f.primary_font i 1 p d)
    else out_of_bounds

unfoldable pub copy_k16_row : (n i j : ℕ) → Bitmaps → Buffer → Result Buffer
copy_k16_row zero i j f d = ok d
copy_k16_row (suc n) i j f d =
    let p : ℕ = jisx0208_16_offset i j in
    if leb (p + 32) rom_size
    then copy_k16_row n i (j + 1) f (get_k16_image f.kanji16_font (bit_or (i * 256) j) 2 p d)
    else out_of_bounds

unfoldable pub copy_k16 : (n i : ℕ) → Bitmaps → Buffer → Result Buffer
unfolding copy_k16_row
copy_k16 zero i f d = ok d
copy_k16 (suc n) i f d = copy_k16_row (0x7f - 0x21) i 0x21 f d >>= copy_k16 n (i + 1) f

unfoldable pub copy_data : Bitmaps → Buffer → Result Buffer
unfolding copy_b16 copy_k16
copy_data f d = copy_b16 0x100 0 f d >>= λ d1.
    copy_k16 (0x29 - 0x21) 0x21 f d1 >>= λ d2. copy_k16 (0x75 - 0x30) 0x30 f d2
