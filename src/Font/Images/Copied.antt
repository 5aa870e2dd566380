-- ===== src/Font/Images/Copied.antt =====
-- What the calls of fontrom.cc give of the ROM that `copy_data` fills: the images that `draw_char` of
-- textvram.cc draws.
use Prim.Native.Nat.{bit_or}
use vx68k_v.Base.{
  ℕ, ◌+◌, ◌-◌, ◌*◌, ◌/◌, ◌%◌, ◌≤◌, ◌<◌, ◌≡◌, refl, sym, ap, ◌∙◌, ◌⊎◌, inl, inr, Bool, true, false,
  ◌&&◌, arith, Bool-cases, leb, if◌then◌else◌, leb-true, leb-false, ltb-true, ltb-false, add32,
  sub32, bits, leb-le, leb-gt,
}
use vx68k_v.Base.Bus.{ok}
use vx68k_v.TextVram.{Buffer}
use vx68k_v.TextVram.Draw.{glyph_image}
use vx68k_v.TextVram.Sjis.{signed_ge_94, is_lead, convert, draw_code, font_code}
use vx68k_v.Font.{jisx0201_16_offset, jisx0208_16_offset, get_8, Glyph, glyph, iocs_fntadr}
use vx68k_v.Font.Layout.{HasPlace, HasGlyph, jisx0208_bounds}
use vx68k_v.Font.Images.{glyphs, copy_data, get_b16_image}
use vx68k_v.Font.Images.Blocks.{
  cell, line, place, offset-place, bitmaps, copied, copy_data-copied, b16_rows-block,
  get_k16_image-block,
}

and_true : (b : Bool) → (b && true) ≡ b
and_true b = ground arith

-- A trail byte below 0x40 leads behind the last column, and no lead byte to a single-byte glyph.
bad_trail :
    (ch1 ch2 : ℕ)
    → is_lead ch1 ≡ true
    → ch2 < 0x40
    → (0x7e < (font_code ch1 ch2).1) × (0x20 < (font_code ch1 ch2).0)
unfolding font_code
bad_trail ch1 ch2 lead low = ground arith

good_trail :
    (ch1 ch2 : ℕ) → 0x40 ≤ ch2 → ch2 < 256 → convert signed_ge_94 ch1 ch2 ≡ convert (leb 94) ch1 ch2
good_trail ch1 ch2 h k = elim (Bool-cases (leb 0x80 ch2)) [
  | inl e ↦
      let le : 0x80 ≤ ch2 = leb-le 0x80 ch2 e in
      rw (e, ltb-true (sub32 ch2 0x41) 2147483648 (omega (arith, le, k)), and_true) refl
  | inr e ↦ rw (e, ltb-true (sub32 ch2 0x40) 2147483648 (omega (arith, h, k)), and_true) refl
]

codes_agree :
    (ch1 ch2 : ℕ)
    → ch2 < 256
    → HasPlace (font_code ch1 ch2).0 (font_code ch1 ch2).1
      ⊎ (((font_code ch1 ch2).0 < 0x21) × ((font_code ch1 ch2).1 < 256))
    → (if is_lead ch1 then convert signed_ge_94 ch1 ch2 else (ch1, ch2)) ≡ font_code ch1 ch2
unfolding font_code
codes_agree ch1 ch2 k h = elim (Bool-cases (is_lead ch1)) [
  | inl lead ↦ elim (Bool-cases (leb 0x40 ch2)) [
    | inl good ↦ rw lead (good_trail ch1 ch2 (leb-le 0x40 ch2 good) k)
    | inr bad ↦
        let b = bad_trail ch1 ch2 lead (leb-gt 0x40 ch2 bad) in
        elim h [
          | inl p ↦ absurd (omega (arith, b.0, p.2))
          | inr q ↦ absurd (omega (arith, b.1, q.0))
        ]
  ]
  | inr plain ↦ rw plain refl
]

-- The two conversions agree on the characters with a glyph.
draw_code-HasGlyph :
    (ch : ℕ) → ch < 65536 → HasGlyph ch → draw_code ch ≡ font_code (ch / 256) (ch % 256)
unfolding draw_code
draw_code-HasGlyph ch small h =
    let high : bits ch 8 8 ≡ ch / 256 = omega (arith, small) in
    let low : bits ch 0 8 ≡ ch % 256 = omega arith in
    rw (high, low) (codes_agree (ch / 256) (ch % 256) (omega arith) h)

fntadr-wide :
    (ch : ℕ)
    → leb 0x21 (font_code (ch / 256) (ch % 256)).0 ≡ true
    → leb (font_code (ch / 256) (ch % 256)).0 0x7e ≡ true
    → iocs_fntadr ch 8
      ≡ glyph
          (jisx0208_16_offset
            (font_code (ch / 256) (ch % 256)).0
            (font_code (ch / 256) (ch % 256)).1)
          1
          15
unfolding iocs_fntadr
fntadr-wide ch low high = rw (low, high) refl

fntadr-narrow :
    (ch : ℕ)
    → leb 0x21 (font_code (ch / 256) (ch % 256)).0 ≡ false
    → iocs_fntadr ch 8 ≡ glyph (jisx0201_16_offset (font_code (ch / 256) (ch % 256)).1) 0 15
unfolding iocs_fntadr
fntadr-narrow ch low = rw low refl

module _ (pf kf d : Buffer) where
  copied_low : (x : ℕ) → x < 24064 → copied pf kf d x ≡ kf x % 256
  unfolding copied
  copied_low x h =
      let byte : 0 + (x - 0) ≡ x = omega arith in
      rw (leb-false 24064 x h, leb-true 0 x (omega arith), ltb-true x (0 + 24064) h, byte) refl

  copied_high : (x : ℕ) → 24064 ≤ x → x < 231616 → copied pf kf d x ≡ kf (x + 21056) % 256
  unfolding copied
  copied_high x h k =
      let byte : 45120 + (x - 24064) ≡ x + 21056 = omega (arith, h) in
      rw (leb-true 24064 x h, ltb-true x (24064 + 207552) k, byte) refl

  -- The bytes of a kanji in the ROM.
  copied-k16 :
      (i j k : ℕ)
      → HasPlace i j
      → k < 32
      → copied pf kf d (jisx0208_16_offset i j + k) ≡ kf (cell i j * 32 + k) % 256
  unfolding line
  copied-k16 i j k h hk = elim h.0 [
    | inl (a, b) ↦
        let row : line i ≡ i - 0x21 = rw (leb-false 0x30 i (omega (arith, b))) refl in
        let x : ℕ = jisx0208_16_offset i j + k in
        let at : jisx0208_16_offset i j ≡ place i j * 32 =
          offset-place i j a (omega (arith, b)) h.1 (omega (arith, h.2)) in
        copied_low x (omega (arith, at, row, a, b, h.1, h.2, hk))
        ∙ ap (λ n. kf n % 256) (omega (arith, at, row, a, b, h.1, h.2, hk))
    | inr (a, b) ↦
        let row : line i ≡ i - 0x30 + 8 = rw (leb-true 0x30 i a) refl in
        let x : ℕ = jisx0208_16_offset i j + k in
        let at : jisx0208_16_offset i j ≡ place i j * 32 =
          offset-place i j (omega (arith, a)) (omega (arith, b)) h.1 (omega (arith, h.2)) in
        copied_high x (omega (arith, at, row, a, b, h.1, h.2, hk))
          (omega (arith, at, row, a, b, h.1, h.2, hk))
        ∙ ap (λ n. kf n % 256) (omega (arith, at, row, a, b, h.1, h.2, hk))
  ]

  copied-b16 :
      (ch k : ℕ)
      → ch < 256
      → k < 16
      → copied pf kf d (jisx0201_16_offset ch + k) ≡ pf (ch * 16 + k) % 256
  unfolding copied jisx0201_16_offset
  copied-b16 ch k h hk =
      let at : add32 (ch * 16) 0x3a800 ≡ 0x3a800 + ch * 16 = omega (arith, h) in
      let x : ℕ = 0x3a800 + ch * 16 + k in
      let byte : 0 + (x - 0x3a800) ≡ ch * 16 + k = omega arith in
      rw
        (
          at,
          ltb-false x (24064 + 207552) (omega arith),
          leb-true 24064 x (omega arith),
          leb-true 0 x (omega arith),
          ltb-false x (0 + 24064) (omega arith),
          leb-true 0x3a800 x (omega arith),
          ltb-true x (0x3a800 + 4096) (omega (arith, h, hk)),
          byte,
        )
        refl

  glyphs-b16 : (ch k : ℕ) → k < 16 → (glyphs (bitmaps pf kf)).b16 ch k ≡ pf (ch * 16 + k) % 256
  unfolding glyphs get_b16_image
  glyphs-b16 ch k h =
      let byte : ch * 16 + 0 + (k - 0) ≡ ch * 16 + k = omega arith in
      ap (λ (b : Buffer). b k) (b16_rows-block 16 pf ch 0 0 (λ _. 0))
      ∙ rw (leb-true (0 + 0) k (omega arith), ltb-true k (0 + 0 + 16) h, byte) refl

  glyphs-k16 :
      (i j k : ℕ)
      → HasPlace i j
      → k < 32
      → (glyphs (bitmaps pf kf)).k16 (bit_or (i * 256) j) k ≡ kf (cell i j * 32 + k) % 256
  unfolding glyphs
  glyphs-k16 i j k h hk =
      let byte : cell i j * 32 + (k - 0) ≡ cell i j * 32 + k = omega arith in
      let row : 0x21 ≤ i × i < 0x7f = ground (arith, h) in
      ap (λ (b : Buffer). b k)
        (get_k16_image-block kf i j 0 (λ _. 0) row.0 row.1 h.1 (omega (arith, h.2)))
      ∙ rw (leb-true 0 k (omega arith), ltb-true k (0 + 32) hk, byte) refl

  -- The bytes from the address that _FNTADR gives for 16 dots.
  read_b16 :
      (ch2 k : ℕ)
      → ch2 < 256
      → k < 16
      → get_8 (add32 0xf00000 (jisx0201_16_offset ch2) + k) (copied pf kf d)
        ≡ pf (ch2 * 16 + k) % 256
  unfolding get_8 jisx0201_16_offset
  read_b16 ch2 k h hk =
      let a : (add32 0xf00000 (jisx0201_16_offset ch2) + k) % 0x100000
          ≡ jisx0201_16_offset ch2 + k =
        omega (arith, h, hk) in
      rw (a, leb-false 0xc0000 (jisx0201_16_offset ch2 + k) (omega (arith, h, hk)))
        (copied-b16 ch2 k h hk)

  read_k16 :
      (i j k : ℕ)
      → HasPlace i j
      → k < 32
      → get_8 (add32 0xf00000 (jisx0208_16_offset i j) + k) (copied pf kf d)
        ≡ kf (cell i j * 32 + k) % 256
  unfolding get_8
  read_k16 i j k h hk =
      let bound = (jisx0208_bounds i j h).0 in
      let a : (add32 0xf00000 (jisx0208_16_offset i j) + k) % 0x100000
          ≡ jisx0208_16_offset i j + k =
        omega (arith, bound, hk) in
      rw (a, leb-false 0xc0000 (jisx0208_16_offset i j + k) (omega (arith, bound, hk)))
        (copied-k16 i j k h hk)

  same :
      (ch k : ℕ)
      → ch < 65536
      → HasGlyph ch
      → k < ((iocs_fntadr ch 8).columns + 1) * ((iocs_fntadr ch 8).rows + 1)
      → get_8 ((iocs_fntadr ch 8).address + k) (copied pf kf d)
        ≡ glyph_image (glyphs (bitmaps pf kf)) ch k
  same ch k small (inl h) hk =
      let low : leb 0x21 (font_code (ch / 256) (ch % 256)).0 ≡ true = ground (arith, h) in
      let high : leb (font_code (ch / 256) (ch % 256)).0 0x7e ≡ true = ground (arith, h) in
      let g = fntadr-wide ch low high in
      let l : k < 32 = omega (arith, hk, ap (λ (i : Glyph). (i.columns + 1) * (i.rows + 1)) g) in
      rw (draw_code-HasGlyph ch small (inl h), g, low, high)
        (read_k16 (font_code (ch / 256) (ch % 256)).0 (font_code (ch / 256) (ch % 256)).1 k h l
          ∙ sym (
              glyphs-k16 (font_code (ch / 256) (ch % 256)).0 (font_code (ch / 256) (ch % 256)).1 k h
                l))
  same ch k small (inr h) hk =
      let low : leb 0x21 (font_code (ch / 256) (ch % 256)).0 ≡ false = ground (arith, h) in
      let g = fntadr-narrow ch low in
      let l : k < 16 = omega (arith, hk, ap (λ (i : Glyph). (i.columns + 1) * (i.rows + 1)) g) in
      rw (draw_code-HasGlyph ch small (inr h), g, low)
        (read_b16 (font_code (ch / 256) (ch % 256)).1 k h.1 l
          ∙ sym (glyphs-b16 (font_code (ch / 256) (ch % 256)).1 k l))

-- After `copy_data` from a console with its bitmaps loaded, for every character with a place in the
-- ROM: the bytes from the address that _FNTADR answers with for 16 dots, as many as its columns times
-- its rows, are those of the image that `draw_char` draws for the character.
pub copy_data-drawn :
    (pf kf d : Buffer)
    → (e : Buffer) × (copy_data (bitmaps pf kf) d ≡ ok e)
      × ((ch k : ℕ)
          → ch < 65536
          → HasGlyph ch
          → k < ((iocs_fntadr ch 8).columns + 1) * ((iocs_fntadr ch 8).rows + 1)
          → get_8 ((iocs_fntadr ch 8).address + k) e ≡ glyph_image (glyphs (bitmaps pf kf)) ch k)
copy_data-drawn pf kf d = (copied pf kf d, copy_data-copied pf kf d, same pf kf d)
