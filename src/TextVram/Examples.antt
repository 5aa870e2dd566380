-- ===== src/TextVram/Examples.antt =====
-- The theorems on textvram.cc at small histories of writes.
use vx68k_v.TextVram.Fill.{fill_plane}
use vx68k_v.TextVram.Fill.Painted.{Painted, fill_plane-Painted}
use vx68k_v.Base.{ltb, ◌||◌, ◌&&◌, leb, ◌+◌, ◌*◌, ◌≤◌, ◌≡◌, inl, List, [], ◌∷◌, arith, ℕ, false}
use vx68k_v.Base.Bus.{ok}
use vx68k_v.TextVram.Iterator.{big_endian}
use vx68k_v.TextVram.Sjis.{draw_code, font_code}
use vx68k_v.TextVram.Conversion.{
  IsSjis, IsJis, jis_index, lead_index, trail_index, font_code-jis_index,
}
use vx68k_v.TextVram.Draw.{glyph_width, drawn, draw_char-drawn}
use vx68k_v.TextVram.Marks.{
  Write, byte, word, character, scrolling, AllFitting, Covers, Returns, perform_all,
  poll_update-Covers,
}
use vx68k_v.TextVram.Raster.{advance, screen_pixel, advance-screen_pixel}
use vx68k_v.TextVram.{TextVram, Glyphs, blank, draw_char, poll_update, pixel, raster}

abbrev bars : Glyphs
bars = record { k16 = λ c i. 0x55; b16 = λ c i. 0xf0 }

abbrev history : List (Write big_endian)
history =
    byte 0x105 0xff
    ∷ word 0x200 0x1234
    ∷ character 126 3 0x8140
    ∷ scrolling
    ∷ character 0 30 0x41
    ∷ []

history-AllFitting : AllFitting big_endian history
unfolding draw_code
history-AllFitting = ground arith

poll_update-Covers_example :
    Returns (Covers blank.buf) (perform_all big_endian bars history (poll_update blank).1)
poll_update-Covers_example = poll_update-Covers big_endian bars history blank history-AllFitting

fits_889f : 126 + glyph_width 0x889f ≤ 128
unfolding draw_code
fits_889f = omega arith

draw_char-drawn_example : draw_char bars 126 63 0x889f blank ≡ ok (drawn bars 126 63 0x889f blank)
draw_char-drawn_example = draw_char-drawn bars 126 63 0x889f blank fits_889f (omega arith)

advance-screen_pixel_example :
    pixel (advance 40 (λ i. i * 7) (raster 5 2 (λ i. i * 7))) ≡ screen_pixel (λ i. i * 7) 45 2
advance-screen_pixel_example = advance-screen_pixel 40 (λ i. i * 7) 5 2

-- The character 0x889f.
kanji-IsSjis : IsSjis 0x88 0x9f
kanji-IsSjis = record { lead = inl (omega arith, omega arith); trail = ground arith }

font_code-jis_index_example :
    IsJis (font_code 0x88 0x9f)
    × (jis_index (font_code 0x88 0x9f) ≡ lead_index 0x88 * 188 + trail_index 0x9f)
font_code-jis_index_example = font_code-jis_index 0x88 0x9f kanji-IsSjis

-- Two columns of one row of plane 1, both in part.
fill_plane-Painted_example :
    (u : TextVram) × (fill_plane big_endian 3 1 20 2 1 0xffff blank ≡ ok u)
    × Painted big_endian 3 20 0xffff 131200 1 blank.buf u.buf
    × ((y : ℕ) → u.marks y ≡ (leb 1 y && ltb y 2) || false)
fill_plane-Painted_example =
    fill_plane-Painted big_endian 3 1 20 2 1 0xffff blank (omega arith) (omega arith) (omega arith)
      (omega arith) (omega arith) (omega arith)
