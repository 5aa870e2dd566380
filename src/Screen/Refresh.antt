-- ===== src/Screen/Refresh.antt =====
-- The console of gtkconsole.cc loses no change of the screen: a row of its image that is not as the
-- text planes and the palette have it is due to be drawn.
use mathlib.Core.Path.{subst}
use vx68k_v.Base.{
  ℕ, suc, ◌+◌, ◌*◌, ◌/◌, ◌%◌, ◌<◌, ◌≡◌, refl, sym, ap, ◌∙◌, ◌⊎◌, inl, inr, Bool, true, false, arith,
  ◌==◌, Bool-cases, if◌then◌else◌, not, word_32, ==-false, sub32,
}
use vx68k_v.Base.Bus.{FunctionCode, Result, ok, bus_error, out_of_bounds, ◌>>=◌}
use vx68k_v.TextVram.{TextVram, Glyphs, buffer_size, plane_size, row_size}
use vx68k_v.TextVram.Iterator.{WordIterator}
use vx68k_v.TextVram.Raster.{screen_pixel, plane_bit}
use vx68k_v.TextVram.Marks.{Write, IsFitting, perform}
use vx68k_v.TextVram.Changes.{ok_injective, perform-marks, perform-unmarked}
use vx68k_v.Palettes.{Palettes, get_16, put_8, put_16, check_text_colors_modified}
use vx68k_v.Screen.{Display, height, begin_timeout, refresh_row}
use vx68k_v.Screen.Pixels.{component, shown}
use vx68k_v.Screen.Steps.{
  Phase, idle, drawing, Step, text, colour_word, colour_byte, timeout, row, finish, Reaches, here,
  next,
}
use vx68k_v.Screen.Rows.{UpToDate, unmarked, refresh_row-cases, after_row}

-- A raster in which no byte is changed has the same pixels.
screen_pixel_same :
    (t u : TextVram) (x y : ℕ)
    → y < 1024
    → ((j : ℕ) → j < buffer_size → j % plane_size / row_size ≡ y → u.buf j ≡ t.buf j)
    → screen_pixel u.buf x y ≡ screen_pixel t.buf x y
unfolding screen_pixel plane_bit
screen_pixel_same t u x y h same =
    let i : ℕ = x % 1024 / 8 in
    let at : (plane : ℕ)
        → plane < 4
        → u.buf (y * row_size + i + plane * plane_size)
          ≡ t.buf (y * row_size + i + plane * plane_size) =
      λ plane l. same (y * row_size + i + plane * plane_size) (omega arith) (omega arith) in
    rw (at 0 (omega arith), at 1 (omega arith), at 2 (omega arith), at 3 (omega arith)) refl

put_16-modified :
    (address value : ℕ) (fc : FunctionCode) (s u : Palettes)
    → put_16 address value fc s ≡ ok u
    → (u.text_colors_modified ≡ true) ⊎ (s ≡ u)
unfolding put_16
put_16-modified address value fc s u e = ground arith

put_8-chain :
    (r : Result ℕ) (b : Bool) (a : ℕ) (f h : ℕ → ℕ) (fc : FunctionCode) (s u : Palettes)
    → (r >>= λ w. if b then put_16 a (f w) fc s else put_16 a (h w) fc s) ≡ ok u
    → (u.text_colors_modified ≡ true) ⊎ (s ≡ u)
put_8-chain (ok w) true a f h fc s u e = put_16-modified a (f w) fc s u e
put_8-chain (ok w) false a f h fc s u e = put_16-modified a (h w) fc s u e
put_8-chain (bus_error a' d fc') b a f h fc s u e = absurd (cc)
put_8-chain out_of_bounds b a f h fc s u e = absurd (cc)

put_8-modified :
    (address value : ℕ) (fc : FunctionCode) (s u : Palettes)
    → put_8 address value fc s ≡ ok u
    → (u.text_colors_modified ≡ true) ⊎ (s ≡ u)
unfolding put_8
put_8-modified address value fc s u e =
    let a : ℕ = address % word_32 in
    let v : ℕ = value % 256 in
    put_8-chain (get_16 a fc s) (not (a % 2 == 0)) a (λ w. w % 256 + v * 256)
      (λ w. w / 256 * 256 + v) fc s u e

-- A write to the palette marks the colours or changes nothing.
colour-UpToDate :
    (p : Phase) (d : Display) (s : Palettes)
    → (s.text_colors_modified ≡ true) ⊎ (d.palettes ≡ s)
    → UpToDate p d
    → UpToDate p (record d { palettes = s })
colour-UpToDate p d s (inl m) up y h = inl (inr (inl m))
colour-UpToDate p d s (inr same) up y h =
    subst (λ r. UpToDate p (record d { palettes = r })) same (up) y h

timeout-UpToDate :
    (d : Display) → UpToDate idle d → UpToDate (drawing (begin_timeout d).0 0) (begin_timeout d).1
unfolding begin_timeout check_text_colors_modified shown
timeout-UpToDate d up y h = elim (Bool-cases (sub32 d.counter 1 == 0)) [
  | inl e ↦ rw e (elim (up y h) [
    | inl (inl m) ↦ inl (inl m)
    | inl (inr (inl m)) ↦ inl (inr (inr (m, omega arith)))
    | inl (inr (inr none)) ↦ elim none [ ]
    | inr drawn ↦ inr drawn
  ])
  | inr e ↦ rw e (elim (up y h) [
    | inl (inl m) ↦ inl (inl m)
    | inl (inr (inl m)) ↦ inl (inr (inl m))
    | inl (inr (inr none)) ↦ elim none [ ]
    | inr drawn ↦ inr drawn
  ])
]

row-UpToDate :
    (u : Bool) (y : ℕ) (d e : Display)
    → refresh_row u y d ≡ ok e
    → UpToDate (drawing u y) d
    → UpToDate (drawing u (suc y)) e
row-UpToDate u y d e h up = elim (refresh_row-cases u y d) [
  | inl (m, k) ↦
      subst (UpToDate (drawing u (suc y))) (ok_injective _ _ (sym k ∙ h))
        (after_row u y (unmarked y d.vram) d refl (λ r ne. rw (==-false r y ne) refl) up)
  | inr (inl (m, t, k)) ↦
      subst (UpToDate (drawing u (suc y))) (ok_injective _ _ (sym k ∙ h))
        (after_row u y d.vram d refl (λ r ne. refl) up)
  | inr (inr (m, f, k)) ↦
      subst (UpToDate (drawing u (suc y))) (ok_injective _ _ (sym k ∙ h)) (λ r l. elim (up r l) [
        | inl (inl n) ↦ inl (inl n)
        | inl (inr (inl n)) ↦ inl (inr (inl n))
        | inl (inr (inr (t, n))) ↦ absurd (cc)
        | inr drawn ↦ inr drawn
      ])
]

finish-UpToDate :
    (u : Bool) (y : ℕ) (d : Display) → y ≡ height → UpToDate (drawing u y) d → UpToDate idle d
finish-UpToDate u y d l up r h = elim (up r h) [
  | inl (inl n) ↦ inl (inl n)
  | inl (inr (inl n)) ↦ inl (inr (inl n))
  | inl (inr (inr (t, n))) ↦ absurd (omega (arith, l, n, h))
  | inr drawn ↦ inr drawn
]

module _ (it : WordIterator) (g : Glyphs) where
  text-UpToDate :
      (p : Phase) (d : Display) (w : Write it) (t : TextVram)
      → IsFitting it w
      → perform it g w d.vram ≡ ok t
      → UpToDate p d
      → UpToDate p (record d { vram = t })
  unfolding shown
  text-UpToDate p d w t fits e up y h = elim (Bool-cases (t.marks y)) [
    | inl m ↦ inl (inl m)
    | inr m ↦ elim (up y h) [
      | inl (inl old) ↦
          let kept : t.marks y ≡ true =
            perform-marks it g w d.vram t fits e y (omega (arith, h)) old in
          absurd (cc)
      | inl (inr due) ↦ inl (inr due)
      | inr drawn ↦ inr λ x k hx hk.
          let same : screen_pixel t.buf x y ≡ screen_pixel d.vram.buf x y =
            screen_pixel_same d.vram t x y (omega (arith, h))
              λ j hj r. perform-unmarked it g w d.vram t fits e j hj (ap t.marks r ∙ m) in
          drawn x k hx hk ∙ ap (λ i. component (d.palettes.tpalette i) k) (sym same)
    ]
  ]

  Step-UpToDate :
      {p : Phase} {d : Display} {q : Phase} {e : Display}
      → Step it g p d q e
      → UpToDate p d
      → UpToDate q e
  Step-UpToDate (text p d w t fits e) up = text-UpToDate p d w t fits e up
  Step-UpToDate (colour_word p d a v fc s e) up =
      colour-UpToDate p d s (put_16-modified a v fc d.palettes s e) up
  Step-UpToDate (colour_byte p d a v fc s e) up =
      colour-UpToDate p d s (put_8-modified a v fc d.palettes s e) up
  Step-UpToDate (timeout d) up = timeout-UpToDate d up
  Step-UpToDate (row u y d e l h) up = row-UpToDate u y d e h up
  Step-UpToDate (finish u y d l) up = finish-UpToDate u y d l up

  -- Where each row of a timeout and each write is one step, and the writes are bytes, words,
  -- characters and scrolls of the text planes and bytes and words of the palette: with every raster of
  -- the screen marked, as `connect` leaves them, whatever the image holds then, in every state that
  -- the guest and the console come to a row that is not due shows each pixel in the red, green and
  -- blue that the planes and the palette have for it. A row is due that is marked, that the timeout
  -- under way is still to draw anyway, or any row if a colour has changed since the last check.
  pub Reaches-UpToDate :
      {d e : Display} {q : Phase}
      → Reaches it g idle d q e
      → ((y : ℕ) → y < height → d.vram.marks y ≡ true)
      → UpToDate q e
  Reaches-UpToDate here marked y h = inl (inl (marked y h))
  Reaches-UpToDate (next r s) marked y h = Step-UpToDate s (Reaches-UpToDate r marked) y h
