-- ===== src/Font/Calls.antt =====
-- The two calls of fontrom.cc that give glyphs, _FNTADR and _FNTGET.
use vx68k_v.Base.{
  ℕ, ◌+◌, ◌*◌, ◌/◌, ◌%◌, ◌≤◌, ◌<◌, ◌≡◌, ◌≢◌, refl, inl, inr, some, ◌&&◌, ◌==◌, ==-false, leb,
  Bool-cases, arith,
}
use vx68k_v.TextVram.Sjis.{font_code}
use vx68k_v.Font.{Glyph, GlyphCopy, iocs_fntadr, iocs_fntget}

-- _FNTGET for a size other than 6 copies exactly the glyph that _FNTADR answers with: from its
-- address, as many bytes as its columns times its rows, with the same height and a width that is
-- within the last column.
pub iocs_fntget-fntadr :
    (size ch : ℕ)
    → size ≢ 6
    → ch < 65536
    → let g : Glyph = iocs_fntadr ch size in
      (k : GlyphCopy) × (iocs_fntget (size * 65536 + ch) ≡ some k)
      × (k.source ≡ g.address)
      × (k.count ≡ (g.columns + 1) * (g.rows + 1))
      × (k.height ≡ g.rows + 1)
      × (g.columns * 8 < k.width)
      × (k.width ≤ (g.columns + 1) * 8)
unfolding iocs_fntget iocs_fntadr
iocs_fntget-fntadr size ch ne small =
    let same_size : (size * 65536 + ch) / 65536 ≡ size = omega (arith, small) in
    let same_ch1 : (size * 65536 + ch) / 256 % 256 ≡ ch / 256 = omega (arith, small) in
    let same_ch2 : (size * 65536 + ch) % 256 ≡ ch % 256 = omega (arith, small) in
    let six = ==-false size 6 ne in
    elim (Bool-cases (
      leb 0x21 (font_code (ch / 256) (ch % 256)).0
      && leb (font_code (ch / 256) (ch % 256)).0 0x7e)) [
        | inl wide ↦ elim (Bool-cases (size == 12)) [
          | inl large ↦
              rw (same_size, same_ch1, same_ch2, wide, six, large)
                (_, refl, refl, refl, refl, omega arith, omega arith)
          | inr normal ↦
              rw (same_size, same_ch1, same_ch2, wide, six, normal)
                (_, refl, refl, refl, refl, omega arith, omega arith)
        ]
        | inr narrow ↦ elim (Bool-cases (size == 12)) [
          | inl large ↦
              rw (same_size, same_ch1, same_ch2, narrow, six, large)
                (_, refl, refl, refl, refl, omega arith, omega arith)
          | inr normal ↦
              rw (same_size, same_ch1, same_ch2, narrow, six, normal)
                (_, refl, refl, refl, refl, omega arith, omega arith)
        ]
      ]
