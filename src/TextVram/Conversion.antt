-- ===== src/TextVram/Conversion.antt =====
-- The Shift-JIS conversions of textvram.cc and fontrom.cc against the order of the two code tables.
use vx68k_v.Base.{
  ℕ, ◌+◌, ◌-◌, ◌*◌, ◌≤◌, ◌<◌, ◌≡◌, ◌≢◌, ◌⊎◌, true, arith, leb, if◌then◌else◌, bits, sym, ap, ◌∙◌,
}
use vx68k_v.TextVram.Sjis.{is_lead, draw_code, font_code}

-- The two bytes of a Shift-JIS character.
pub record IsSjis (ch1 ch2 : ℕ) : Type 0 where
  pub lead : (0x81 ≤ ch1 × ch1 ≤ 0x9f) ⊎ (0xe0 ≤ ch1 × ch1 ≤ 0xef)
  pub trail : (0x40 ≤ ch2 × ch2 ≤ 0x7e) ⊎ (0x80 ≤ ch2 × ch2 ≤ 0xfc)

-- The place of the bytes among the lead bytes and among the 188 trail bytes.
abbrev pub lead_index : ℕ → ℕ
lead_index ch1 = if leb 0xe0 ch1 then ch1 - 0xc1 else ch1 - 0x81

abbrev pub trail_index : ℕ → ℕ
trail_index ch2 = if leb 0x80 ch2 then ch2 - 0x41 else ch2 - 0x40

-- A row and a column of the 94 by 94 table of JIS X 0208.
abbrev pub IsJis : ℕ × ℕ → Type 0
IsJis c = (0x21 ≤ c.0) × (c.0 ≤ 0x7e) × (0x21 ≤ c.1) × (c.1 ≤ 0x7e)

abbrev pub jis_index : ℕ × ℕ → ℕ
jis_index c = (c.0 - 0x21) * 94 + (c.1 - 0x21)

-- The conversion of `iocs_fntadr` and `iocs_fntget` takes every Shift-JIS character into the table,
-- to the place that it has in the order of the Shift-JIS characters.
pub font_code-jis_index :
    (ch1 ch2 : ℕ)
    → IsSjis ch1 ch2
    → IsJis (font_code ch1 ch2)
      × (jis_index (font_code ch1 ch2) ≡ lead_index ch1 * 188 + trail_index ch2)
unfolding font_code
font_code-jis_index ch1 ch2 s = ground arith

high_byte : (a b : ℕ) → a < 256 → b < 256 → bits (a * 256 + b) 8 8 ≡ a
high_byte a b h k = omega arith

low_byte : (a b : ℕ) → b < 256 → bits (a * 256 + b) 0 8 ≡ b
low_byte a b h = omega arith

-- The conversion of `draw_char` on the code of a character agrees with it.
draw_code-font_code :
    (ch1 ch2 : ℕ) → IsSjis ch1 ch2 → draw_code (ch1 * 256 + ch2) ≡ font_code ch1 ch2
unfolding draw_code font_code
draw_code-font_code ch1 ch2 s =
    rw (high_byte ch1 ch2 (ground arith) (ground arith), low_byte ch1 ch2 (ground arith))
      (ground arith)

index_bounds : (ch1 ch2 : ℕ) → IsSjis ch1 ch2 → (lead_index ch1 < 47) × (trail_index ch2 < 188)
index_bounds ch1 ch2 s = ground arith

-- Different characters go to different places.
pub font_code_injective :
    (a b c d : ℕ) → IsSjis a b → IsSjis c d → font_code a b ≡ font_code c d → (a ≡ c) × (b ≡ d)
font_code_injective a b c d s t e =
    let same : lead_index a * 188 + trail_index b ≡ lead_index c * 188 + trail_index d =
      sym (font_code-jis_index a b s).1 ∙ ap jis_index e ∙ (font_code-jis_index c d t).1 in
    let left = index_bounds a b s in
    let right = index_bounds c d t in
    let rows : lead_index a ≡ lead_index c = omega (arith, same, left, right) in
    let cols : trail_index b ≡ trail_index d = omega (arith, same, rows) in
    (ground (arith, s.lead, t.lead, rows), ground (arith, s.trail, t.trail, cols))

-- With a second byte below 0x40 the two conversions part: `draw_char` computes with signed numbers
-- and stays in the first row of the pair, `iocs_fntadr` wraps and takes the second.
pub draw_code-ne-font_code :
    (ch1 ch2 : ℕ)
    → is_lead ch1 ≡ true
    → ch2 < 0x40
    → draw_code (ch1 * 256 + ch2) ≢ font_code ch1 ch2
unfolding draw_code font_code
draw_code-ne-font_code ch1 ch2 l h =
    rw (high_byte ch1 ch2 (ground arith) (omega arith), low_byte ch1 ch2 (omega arith))
      (ground arith)
