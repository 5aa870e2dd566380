-- ===== src/TextVram/Sjis.antt =====
-- The conversion of a Shift-JIS code to rows and columns of JIS X 0208, which the source writes out
-- three times: in `draw_char` (libvx68k/textvram.cc) on `int`, and in `iocs_fntadr` and
-- `iocs_fntget` (libvx68k/fontrom.cc) on `unsigned int`. Both types are 32-bit patterns here.
use vx68k_v.Base.{ℕ, ◌+◌, ◌-◌, ◌*◌, Bool, ◌&&◌, ◌||◌, ltb, leb, if◌then◌else◌, add32, sub32, bits}

-- x >= 94 of `int`.
abbrev pub signed_ge_94 : ℕ → Bool
signed_ge_94 x = leb 94 x && ltb x 2147483648

abbrev pub is_lead : ℕ → Bool
is_lead ch1 = (leb 0x81 ch1 && leb ch1 0x9f) || (leb 0xe0 ch1 && leb ch1 0xef)

-- The body of the conversion, `past` the test for the second half of a pair of rows.
abbrev pub convert : (past : ℕ → Bool) → (ch1 ch2 : ℕ) → ℕ × ℕ
convert past ch1 ch2 =
    let row : ℕ = if leb 0xe0 ch1 then sub32 ch1 (0x81 + (0xe0 - 0xa0)) else sub32 ch1 0x81 in
    let col : ℕ = if leb 0x80 ch2 then sub32 ch2 0x41 else sub32 ch2 0x40 in
    if past col
    then (add32 (add32 (row * 2) 1) 0x21, add32 (sub32 col 94) 0x21)
    else (add32 (row * 2) 0x21, add32 col 0x21)

-- `draw_char`: the bytes of a code and what they are converted to.
unfoldable pub draw_code : ℕ → ℕ × ℕ
draw_code c =
    let ch1 = bits c 8 8 in
    let ch2 = bits c 0 8 in if is_lead ch1 then convert signed_ge_94 ch1 ch2 else (ch1, ch2)

-- `iocs_fntadr` and `iocs_fntget`.
unfoldable pub font_code : (ch1 ch2 : ℕ) → ℕ × ℕ
font_code ch1 ch2 = if is_lead ch1 then convert (leb 94) ch1 ch2 else (ch1, ch2)
