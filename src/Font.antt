-- ===== src/Font.antt =====
-- libvx68k/fontrom.cc: `font_rom`, the addresses of the glyphs of the system font, the calls
-- _FNTADR and _FNTGET, and the reads of the ROM.
mod Examples
pub mod Layout
pub mod Calls
pub mod Images
use vx68k_v.Base.{
  ℕ, ◌+◌, ◌-◌, ◌*◌, ◌/◌, ◌%◌, ◌^◌, ◌&&◌, ◌==◌, ltb, leb, Option, none, some, if◌then◌else◌, add32,
  sub32, word_32, bits,
}
use vx68k_v.TextVram.Iterator.{WordIterator}
use vx68k_v.TextVram.Sjis.{font_code}

-- The products are of `size_t`, the results of `uint32_type`.
unfoldable pub linear_jisx0208 : (ch1 ch2 : ℕ) → ℕ
linear_jisx0208 ch1 ch2 =
    if leb 0x30 ch1
    then add32 (add32 (sub32 ch1 0x30) 8 * 94) (sub32 ch2 0x21)
    else add32 (sub32 ch1 0x21 * 94) (sub32 ch2 0x21)

unfoldable pub jisx0201_16_offset : ℕ → ℕ
jisx0201_16_offset ch = add32 (ch * 16) 0x3a800

unfoldable pub jisx0201_24_offset : ℕ → ℕ
jisx0201_24_offset ch = add32 (ch * 48) 0x3d000

unfoldable pub jisx0208_16_offset : (ch1 ch2 : ℕ) → ℕ
unfolding linear_jisx0208
jisx0208_16_offset ch1 ch2 = linear_jisx0208 ch1 ch2 * 32 % word_32

unfoldable pub jisx0208_24_offset : (ch1 ch2 : ℕ) → ℕ
unfolding linear_jisx0208
jisx0208_24_offset ch1 ch2 = add32 (linear_jisx0208 ch1 ch2 * 72) 0x40000

-- What `iocs_fntadr` puts into d0, and into the low words of d1 and d2.
pub record Glyph : Type 0 where
  pub address : ℕ
  pub columns : ℕ
  pub rows : ℕ

abbrev pub glyph : ℕ → ℕ → ℕ → Glyph
glyph offset columns rows = record {
  address = add32 0xf00000 offset;
  columns = columns;
  rows = rows;
}

unfoldable pub iocs_fntadr : (ch size : ℕ) → Glyph
unfolding font_code jisx0208_16_offset jisx0208_24_offset jisx0201_16_offset jisx0201_24_offset
iocs_fntadr ch size =
    let (ch1, ch2) = font_code (ch / 256) (ch % 256) in
    if leb 0x21 ch1 && leb ch1 0x7e
    then if size == 6
      then glyph (jisx0208_16_offset ch1 ch2) (2 - 1) (12 - 1)
      else if size == 12
      then glyph (jisx0208_24_offset ch1 ch2) (3 - 1) (24 - 1)
      else glyph (jisx0208_16_offset ch1 ch2) (2 - 1) (16 - 1)
    else if size == 6
    then glyph (jisx0201_16_offset ch2) (1 - 1) (12 - 1)
    else if size == 12
    then glyph (jisx0201_24_offset ch2) (2 - 1) (24 - 1)
    else glyph (jisx0201_16_offset ch2) (1 - 1) (16 - 1)

-- The reads: the offset in the address space of 1 MB, and 0 behind the data.
module _ (it : WordIterator) where
  open it use {fetch}

  unfoldable pub get_16 : ℕ → (ℕ → ℕ) → ℕ
  get_16 address d =
      let a : ℕ = address % 0x100000 in if leb 0xc0000 a then 0 else fetch (2 * (a / 2)) d

unfoldable pub get_8 : ℕ → (ℕ → ℕ) → ℕ
get_8 address d = let a : ℕ = address % 0x100000 in if leb 0xc0000 a then 0 else d a

-- What `iocs_fntget` copies to the address `i` in %a1: the width and the height that it puts at
-- `i` and `i + 2`, and the address and the number of the bytes that it writes at `i + 4`.
pub record GlyphCopy : Type 0 where
  pub width : ℕ
  pub height : ℕ
  pub source : ℕ
  pub count : ℕ

abbrev copy_of : (width height offset count : ℕ) → GlyphCopy
copy_of width height offset count = record {
  width = width;
  height = height;
  source = add32 0xf00000 offset;
  count = count;
}

-- None for the size 6, at which the call does nothing.
unfoldable pub iocs_fntget : ℕ → Option GlyphCopy
unfolding font_code jisx0208_16_offset jisx0208_24_offset jisx0201_16_offset jisx0201_24_offset
iocs_fntget size_ch =
    let size : ℕ = size_ch / 65536 in
    let (ch1, ch2) = font_code (size_ch / 256 % 256) (size_ch % 256) in
    if leb 0x21 ch1 && leb ch1 0x7e
    then if size == 6
      then none
      else if size == 12
      then some (copy_of 24 24 (jisx0208_24_offset ch1 ch2) (24 * 3))
      else some (copy_of 16 16 (jisx0208_16_offset ch1 ch2) (16 * 2))
    else if size == 6
    then none
    else if size == 12
    then some (copy_of 12 24 (jisx0201_24_offset ch2) (24 * 2))
    else some (copy_of 8 16 (jisx0201_16_offset ch2) (16 * 1))
