-- ===== src/Screen/Rows.antt =====
-- A row of the image of gtkconsole.cc: when it is due to be drawn, and what drawing one row leaves of
-- the others.
use vx68k_v.Base.{
  ℕ, suc, ◌+◌, ◌-◌, ◌*◌, ◌/◌, ◌%◌, ◌≤◌, ◌<◌, ◌≡◌, ◌≢◌, refl, sym, ap, ◌∙◌, ◌⊎◌, inl, inr, Bool,
  true, false, arith, ◌==◌, Bool-cases, if◌then◌else◌, ==-eq, ==-ne, ◌∷◌, ltb-lt, ltb-ge, ltb-false,
  leb-false, ltb, leb-true, ltb-true,
}
use vx68k_v.Base.Bus.{ok}
use vx68k_v.TextVram.{Buffer, TextVram, row_changed}
use vx68k_v.TextVram.Raster.{screen_pixel}
use vx68k_v.Palettes.{Palettes}
use vx68k_v.Screen.{Display, width, height, image_row_size, refresh_row}
use vx68k_v.Screen.Pixels.{component, shown, strip, scan_row-strip}
use vx68k_v.Screen.Steps.{Phase, idle, drawing}

-- The image has each pixel of the row `y` in the colour of the planes and the palette.
abbrev pub Drawn : Display → ℕ → Type 0
Drawn d y =
    (x k : ℕ)
    → x < width
    → k < 3
    → d.rgb_buf (y * image_row_size + x * 3 + k) ≡ shown d.vram d.palettes x y k

-- The timeout under way draws the row whatever its mark.
abbrev pub Ahead : Phase → ℕ → Type 0
Ahead idle y = ⊥
Ahead (drawing u k) y = (u ≡ true) × (k ≤ y)

-- The row is due: it is marked, or a colour has changed since the last check, or it is ahead.
abbrev pub Due : Phase → Display → ℕ → Type 0
Due p d y = (d.vram.marks y ≡ true) ⊎ ((d.palettes.text_colors_modified ≡ true) ⊎ Ahead p y)

abbrev pub UpToDate : Phase → Display → Type 0
UpToDate p d = (y : ℕ) → y < height → Due p d y ⊎ Drawn d y

-- The display after a row that is drawn, and after one that is not.
abbrev pub drawn_row : ℕ → TextVram → Display → Display
drawn_row y t d = record d {
  vram = t;
  rgb_buf = strip width t d.palettes 0 y (y * image_row_size) d.rgb_buf;
  queued = y ∷ d.queued;
}

abbrev pub unmarked : ℕ → TextVram → TextVram
unmarked y t = record t { marks = λ r. if r == y then false else t.marks r }

-- A row that is marked is drawn, and so is every row when a colour has changed; no other is.
pub refresh_row-cases :
    (u : Bool) (y : ℕ) (d : Display)
    → ((d.vram.marks y ≡ true) × (refresh_row u y d ≡ ok (drawn_row y (unmarked y d.vram) d)))
      ⊎ ((d.vram.marks y ≡ false) × (u ≡ true) × (refresh_row u y d ≡ ok (drawn_row y d.vram d)))
      ⊎ ((d.vram.marks y ≡ false) × (u ≡ false) × (refresh_row u y d ≡ ok d))
unfolding refresh_row row_changed
refresh_row-cases u y d = elim (Bool-cases (d.vram.marks y)) [
  | inl m ↦ inl (
    m,
    rw (m, scan_row-strip y width (y * image_row_size) (unmarked y d.vram) d.palettes d.rgb_buf)
        refl,
  )
  | inr m ↦ elim (Bool-cases u) [
    | inl e ↦ inr (
        inl (
          m,
          e,
          rw (m, e, scan_row-strip y width (y * image_row_size) d.vram d.palettes d.rgb_buf) refl,
        ))
    | inr e ↦ inr (inr (m, e, rw (m, e) refl))
  ]
]

strip-inside :
    (t : TextVram) (s : Palettes) (y p x k : ℕ) (rgb : Buffer)
    → x < width
    → k < 3
    → strip width t s 0 y p rgb (p + x * 3 + k) ≡ shown t s x y k
strip-inside t s y p x k rgb hx hk =
    let column : (p + x * 3 + k - p) / 3 ≡ x = omega (arith, hx, hk) in
    let byte : (p + x * 3 + k - p) % 3 ≡ k = omega (arith, hx, hk) in
    rw
      (
        leb-true p (p + x * 3 + k) (omega arith),
        ltb-true (p + x * 3 + k) (p + width * 3) (omega (arith, hx, hk)),
        column,
        byte,
      )
      (ap (λ i. shown t s i y k) (omega arith))

drawn_row-Drawn : (y : ℕ) (t : TextVram) (d : Display) → Drawn (drawn_row y t d) y
drawn_row-Drawn y t d x k hx hk =
    strip-inside t d.palettes y (y * image_row_size) x k d.rgb_buf hx hk

strip-outside :
    (t : TextVram) (s : Palettes) (y r x k : ℕ) (rgb : Buffer)
    → r ≢ y
    → x < width
    → k < 3
    → strip width t s 0 y (y * image_row_size) rgb (r * image_row_size + x * 3 + k)
      ≡ rgb (r * image_row_size + x * 3 + k)
strip-outside t s y r x k rgb ne hx hk =
    let j : ℕ = r * image_row_size + x * 3 + k in
    elim (Bool-cases (ltb r y)) [
      | inl above ↦
          let lt : r < y = ltb-lt r y above in
          rw (leb-false (y * image_row_size) j (omega (arith, lt, hx, hk))) refl
      | inr below ↦
          let le : y ≤ r = ltb-ge r y below in
          rw
            (
              leb-true (y * image_row_size) j (omega (arith, le)),
              ltb-false j (y * image_row_size + width * 3) (omega (arith, le, ne)),
            )
            refl
    ]

drawn_row-other :
    (y r : ℕ) (t : TextVram) (d : Display)
    → r ≢ y
    → t.buf ≡ d.vram.buf
    → Drawn d r
    → Drawn (drawn_row y t d) r
unfolding shown
drawn_row-other y r t d ne same drawn x k hx hk =
    strip-outside t d.palettes y r x k d.rgb_buf ne hx hk
    ∙ drawn x k hx hk
    ∙ ap (λ b. component (d.palettes.tpalette (screen_pixel b x r)) k) (sym same)

-- The row that was drawn is as it should be, and the others are as they were.
pub after_row :
    (u : Bool) (y : ℕ) (t : TextVram) (d : Display)
    → t.buf ≡ d.vram.buf
    → ((r : ℕ) → r ≢ y → t.marks r ≡ d.vram.marks r)
    → UpToDate (drawing u y) d
    → UpToDate (drawing u (suc y)) (drawn_row y t d)
after_row u y t d same marks up r h = elim (Bool-cases (r == y)) [
  | inl e ↦ inr (rw (==-eq r y e) (drawn_row-Drawn y t d))
  | inr e ↦
      let ne : r ≢ y = ==-ne r y e in
      elim (up r h) [
        | inl (inl m) ↦ inl (inl (marks r ne ∙ m))
        | inl (inr (inl m)) ↦ inl (inr (inl m))
        | inl (inr (inr (m, k))) ↦ inl (inr (inr (m, omega (arith, k, ne))))
        | inr drawn ↦ inr (drawn_row-other y r t d ne same drawn)
      ]
]
