-- ===== src/Font/Examples.antt =====
-- The theorems on the layout of fontrom.cc at single characters.
use vx68k_v.Base.{ℕ, ◌+◌, ◌*◌, ◌%◌, ◌<◌, ◌≡◌}
use vx68k_v.Base.Bus.{ok}
use vx68k_v.TextVram.{Buffer}
use vx68k_v.TextVram.Draw.{glyph_image}
use vx68k_v.Font.Images.{Bitmaps, copy_data, glyphs}
use vx68k_v.Font.Images.Blocks.{bitmaps}
use vx68k_v.Font.Images.Copied.{copy_data-drawn}
use vx68k_v.Font.Layout.{HasGlyph}
use vx68k_v.Font.{iocs_fntadr, get_8}

-- Bitmaps of two patterns, and an array of zeros.
abbrev pattern : Bitmaps
pattern = bitmaps (λ i. i % 251) (λ i. i % 241)

copy_data-drawn_example :
    (e : Buffer) × (copy_data pattern (λ i. 0) ≡ ok e)
    × ((ch k : ℕ)
        → ch < 65536
        → HasGlyph ch
        → k < ((iocs_fntadr ch 8).columns + 1) * ((iocs_fntadr ch 8).rows + 1)
        → get_8 ((iocs_fntadr ch 8).address + k) e ≡ glyph_image (glyphs pattern) ch k)
copy_data-drawn_example = copy_data-drawn (λ i. i % 251) (λ i. i % 241) (λ i. 0)
