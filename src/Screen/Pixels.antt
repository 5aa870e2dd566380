-- ===== src/Screen/Pixels.antt =====
-- What a row of the image shows after `scan_row`: the colour of each pixel of the text planes.
use mathlib.Core.Path.{fun_ext}
use vx68k_v.Base.{
  ℕ, zero, suc, ◌+◌, ◌-◌, ◌*◌, ◌/◌, ◌%◌, ◌≤◌, ◌<◌, ◌≡◌, refl, ap, ◌∙◌, inl, inr, ◌&&◌, List, [],
  ◌∷◌, arith, ◌==◌, ltb, leb, ltb-true, ltb-false, leb-true, leb-le, leb-gt, Bool-cases,
  if◌then◌else◌, get_or, ==-eq,
}
use vx68k_v.Base.Bus.{ok}
use vx68k_v.TextVram.{Buffer, TextVram, row_size, load_packs, raster}
use vx68k_v.TextVram.Raster.{screen_pixel, plane_bit, increment-load_packs, pixel-load_packs}
use vx68k_v.Palettes.{Palettes, get_text_colors, rgba}
use vx68k_v.Screen.{rgb_table, put_pixel, scan, scan_row}

-- The colours from the entry `first` on.
abbrev entries : (n first : ℕ) → Palettes → List ℕ
entries zero first s = []
entries (suc n) first s = s.tpalette first ∷ entries n (first + 1) s

get_or-entries :
    (n first i : ℕ) (s : Palettes) → i < n → get_or (entries n first s) i 0 ≡ s.tpalette (first + i)
get_or-entries zero first i s h = elim h [ ]
get_or-entries (suc n) first zero s h = ap s.tpalette (omega arith)
get_or-entries (suc n) first (suc i) s h =
    get_or-entries n (first + 1) i s (omega arith) ∙ ap s.tpalette (omega arith)

get_text_colors-entries : (s : Palettes) → get_text_colors 0 16 s ≡ ok (entries 16 0 s)
unfolding get_text_colors
get_text_colors-entries s = refl

screen_pixel-lt : (b : Buffer) (x y : ℕ) → screen_pixel b x y < 16
unfolding screen_pixel plane_bit
screen_pixel-lt b x y = omega arith

-- A colour of 16 bits has 5 bits of blue from the bit 1 on, of red from the bit 6 on and of green from
-- the bit 11 on, and the bit 0 as the lowest of each: 6 bits, from 0 to 63, shown as 0 to 255. The
-- bytes of a pixel are red, green and blue.
unfoldable pub component : (colour k : ℕ) → ℕ
component colour k =
    let lowest : ℕ = if k == 0 then 64 else if k == 1 then 2048 else 2 in
    (colour / lowest % 32 * 2 + colour % 2) * 255 / 63

rgb_table-component : (c k : ℕ) → k < 3 → rgb_table (c * 3 + k) ≡ component c k
unfolding rgb_table component
rgb_table-component c k h = ground arith

-- The byte `k` of the pixel in column `x` of the raster `y`.
unfoldable pub shown : TextVram → Palettes → (x y k : ℕ) → ℕ
shown t s x y k = component (s.tpalette (screen_pixel t.buf x y)) k

-- The image with `n` pixels of the raster `y` from the column `x` on laid down at `p`.
abbrev pub strip : (n : ℕ) → TextVram → Palettes → (x y p : ℕ) → Buffer → Buffer
strip n t s x y p rgb j =
    if leb p j && ltb j (p + n * 3) then shown t s (x + (j - p) / 3) y ((j - p) % 3) else rgb j

one_branch :
    (c p : ℕ) (rgb : Buffer)
    → (if c == 0 then put_pixel p 0 rgb else put_pixel p c rgb) ≡ put_pixel p c rgb
one_branch c p rgb = elim (Bool-cases (c == 0)) [
  | inl e ↦ rw (e, ==-eq c 0 e) refl
  | inr e ↦ rw e refl
]

strip_step :
    (n : ℕ) (t : TextVram) (s : Palettes) (x y p : ℕ) (rgb : Buffer) (j : ℕ)
    → strip n t s (x + 1) y (p + 3) (put_pixel p (s.tpalette (screen_pixel t.buf x y)) rgb) j
      ≡ strip (suc n) t s x y p rgb j
unfolding shown
strip_step n t s x y p rgb j = elim (Bool-cases (leb (p + 3) j)) [
  | inl behind ↦
      let le : p + 3 ≤ j = leb-le (p + 3) j behind in
      let column : x + 1 + (j - (p + 3)) / 3 ≡ x + (j - p) / 3 = omega arith in
      let byte : (j - (p + 3)) % 3 ≡ (j - p) % 3 = omega arith in
      let bound : p + 3 + n * 3 ≡ p + suc n * 3 = omega arith in
      rw (behind, leb-true p j (omega arith), ltb-false j (p + 3) le, column, byte, bound) refl
  | inr before ↦ elim (Bool-cases (leb p j)) [
    | inl inside ↦
        let lt : j < p + 3 = leb-gt (p + 3) j before in
        let le : p ≤ j = leb-le p j inside in
        let column : x + (j - p) / 3 ≡ x = omega arith in
        let byte : (j - p) % 3 ≡ j - p = omega arith in
        rw
          (
            before,
            inside,
            ltb-true j (p + 3) lt,
            ltb-true j (p + suc n * 3) (omega arith),
            column,
            byte,
          )
          (rgb_table-component (s.tpalette (screen_pixel t.buf x y)) (j - p) (omega arith))
    | inr below ↦ rw (before, below) refl
  ]
]

scan-strip :
    (n : ℕ) (t : TextVram) (s : Palettes) (x y p : ℕ) (rgb : Buffer)
    → scan n (entries 16 0 s) t.buf (load_packs t.buf (y * row_size) x) p rgb
      ≡ strip n t s x y p rgb
unfolding scan
scan-strip zero t s x y p rgb = fun_ext λ j. ground arith
scan-strip (suc n) t s x y p rgb =
    let c : ℕ = s.tpalette (screen_pixel t.buf x y) in
    let e : get_or (entries 16 0 s) (screen_pixel t.buf x y) 0 ≡ c =
      get_or-entries 16 0 (screen_pixel t.buf x y) s (screen_pixel-lt t.buf x y)
      ∙ ap s.tpalette (omega arith) in
    rw
      (
        pixel-load_packs t.buf x y,
        e,
        increment-load_packs t.buf (y * row_size) x,
        one_branch c p rgb,
      )
      (scan-strip n t s (x + 1) y (p + 3) (put_pixel p c rgb)
        ∙ fun_ext (strip_step n t s x y p rgb))

-- `scan_row` returns, with the pixels of the raster in its place of the image and no other byte
-- changed.
pub scan_row-strip :
    (y n p : ℕ) (t : TextVram) (s : Palettes) (rgb : Buffer)
    → scan_row y n p t s rgb ≡ ok (strip n t s 0 y p rgb)
unfolding scan_row raster
scan_row-strip y n p t s rgb = rw (get_text_colors-entries s) (ap ok (scan-strip n t s 0 y p rgb))

-- The table of the console has the bytes of red, green and blue that the palette device gives for a
-- colour.
rgb_table-rgba :
    (value : ℕ)
    → rgba value
      ≡ rgb_table (value * 3)
        ∷ rgb_table (value * 3 + 1)
        ∷ rgb_table (value * 3 + 2)
        ∷ (if value == 0 then 0 else 0xff)
        ∷ []
unfolding rgb_table rgba
rgb_table-rgba value =
    let red : value * 3 % 3 ≡ 0 = omega arith in
    let green : (value * 3 + 1) % 3 ≡ 1 = omega arith in
    let blue : (value * 3 + 2) % 3 ≡ 2 = omega arith in
    let at0 : value * 3 / 3 ≡ value = omega arith in
    let at1 : (value * 3 + 1) / 3 ≡ value = omega arith in
    let at2 : (value * 3 + 2) / 3 ≡ value = omega arith in
    rw (red, green, blue, at0, at1, at2)
      (elim (Bool-cases (value == 0)) [ inl e ↦ rw (e, ==-eq value 0 e) refl | inr e ↦ rw e refl ])
