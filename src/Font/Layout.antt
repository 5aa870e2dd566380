-- ===== src/Font/Layout.antt =====
-- Where the glyphs of fontrom.cc lie: inside the ROM, each table in its place, and apart.
use vx68k_v.Base.{ℕ, ◌+◌, ◌*◌, ◌/◌, ◌%◌, ◌≤◌, ◌<◌, ◌≡◌, ◌≢◌, ◌⊎◌, arith, inl, inr}
use vx68k_v.TextVram.Sjis.{font_code}
use vx68k_v.Font.{
  linear_jisx0208, jisx0201_16_offset, jisx0201_24_offset, jisx0208_16_offset, jisx0208_24_offset,
  Glyph, iocs_fntadr,
}

-- A row and a column of JIS X 0208 for which the ROM has a place: the rows 0x29 to 0x2f are left
-- out of the table, and it ends with row 0x74.
abbrev pub HasPlace : (ch1 ch2 : ℕ) → Type 0
HasPlace ch1 ch2 =
    ((0x21 ≤ ch1 × ch1 ≤ 0x28) ⊎ (0x30 ≤ ch1 × ch1 ≤ 0x74)) × (0x21 ≤ ch2) × (ch2 ≤ 0x7e)

linear_bound : (ch1 ch2 : ℕ) → HasPlace ch1 ch2 → linear_jisx0208 ch1 ch2 < 77 * 94
unfolding linear_jisx0208
linear_bound ch1 ch2 h = ground arith

linear_injective :
    (a b c d : ℕ)
    → HasPlace a b
    → HasPlace c d
    → linear_jisx0208 a b ≡ linear_jisx0208 c d
    → (a ≡ c) × (b ≡ d)
unfolding linear_jisx0208
linear_injective a b c d h k e = ground arith

-- The 16-dot kanji glyphs lie below the 16-dot glyphs of the single-byte characters, the 24-dot ones
-- between 0x40000 and the end of the ROM.
pub jisx0208_bounds :
    (ch1 ch2 : ℕ)
    → HasPlace ch1 ch2
    → (jisx0208_16_offset ch1 ch2 + 32 ≤ 0x3a800)
      × (0x40000 ≤ jisx0208_24_offset ch1 ch2)
      × (jisx0208_24_offset ch1 ch2 + 72 ≤ 0xc0000)
unfolding jisx0208_16_offset jisx0208_24_offset
jisx0208_bounds ch1 ch2 h = omega (arith, linear_bound ch1 ch2 h)

-- Two different characters have glyphs that do not overlap, in either size.
jisx0208_apart :
    (a b c d : ℕ)
    → HasPlace a b
    → HasPlace c d
    → (a ≢ c) ⊎ (b ≢ d)
    → ((jisx0208_16_offset a b + 32 ≤ jisx0208_16_offset c d)
        ⊎ (jisx0208_16_offset c d + 32 ≤ jisx0208_16_offset a b))
      × ((jisx0208_24_offset a b + 72 ≤ jisx0208_24_offset c d)
          ⊎ (jisx0208_24_offset c d + 72 ≤ jisx0208_24_offset a b))
unfolding jisx0208_16_offset jisx0208_24_offset
jisx0208_apart a b c d h k ne =
    let differ : linear_jisx0208 a b ≢ linear_jisx0208 c d =
      λ e. ground (arith, linear_injective a b c d h k e) in
    omega (arith, linear_bound a b h, linear_bound c d k, differ)

-- The glyphs of the single-byte characters lie behind the kanji of 16 dots and below those of 24.
jisx0201_bounds :
    (ch : ℕ)
    → ch < 256
    → (0x3a800 ≤ jisx0201_16_offset ch)
      × (jisx0201_16_offset ch + 16 ≤ 0x3d000)
      × (0x3d000 ≤ jisx0201_24_offset ch)
      × (jisx0201_24_offset ch + 48 ≤ 0x40000)
unfolding jisx0201_16_offset jisx0201_24_offset
jisx0201_bounds ch h = omega arith

-- A character with a glyph in the ROM: of the double-byte table, or a single byte.
abbrev pub HasGlyph : ℕ → Type 0
HasGlyph ch =
    HasPlace (font_code (ch / 256) (ch % 256)).0 (font_code (ch / 256) (ch % 256)).1
    ⊎ ((font_code (ch / 256) (ch % 256)).0 < 0x21) × ((font_code (ch / 256) (ch % 256)).1 < 256)

-- The glyph lies in the font ROM from 0xf00000 to 0xfc0000.
abbrev pub InRom : Glyph → Type 0
InRom g = (0xf00000 ≤ g.address) × (g.address + (g.columns + 1) * (g.rows + 1) ≤ 0xfc0000)

-- Whatever size is asked for, _FNTADR answers with a glyph inside the ROM.
iocs_fntadr-InRom : (ch size : ℕ) → HasGlyph ch → InRom (iocs_fntadr ch size)
unfolding iocs_fntadr
iocs_fntadr-InRom ch size (inl h) =
    let (ch1, ch2) = font_code (ch / 256) (ch % 256) in ground (arith, jisx0208_bounds ch1 ch2 h)
iocs_fntadr-InRom ch size (inr h) =
    ground (arith, jisx0201_bounds (font_code (ch / 256) (ch % 256)).1 h.1)
