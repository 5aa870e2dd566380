-- ===== src/TextVram/Fill/Painted.antt =====
-- The dots of the rectangle that `fill_plane` of textvram.cc fills.
use vx68k_v.Base.{
  ℕ, ◌+◌, ◌-◌, ◌*◌, ◌/◌, ◌%◌, ◌≤◌, ◌<◌, ◌≡◌, ◌⊎◌, inl, inr, ◌||◌, ◌&&◌, ltb, leb, if◌then◌else◌,
  arith,
}
use vx68k_v.Base.Bus.{ok}
use vx68k_v.TextVram.Iterator.{WordIterator}
use vx68k_v.TextVram.{Buffer, TextVram, row_size, plane_size}
use vx68k_v.TextVram.Fill.{fill_plane}
use vx68k_v.TextVram.Fill.Digits.{digit}
use vx68k_v.TextVram.Fill.Dots.{digit-new_word}
use vx68k_v.TextVram.Fill.Columns.{new_word}
use vx68k_v.TextVram.Fill.Rectangle.{Whole, fill_plane-Whole}

module _ (it : WordIterator) where
  -- The dot `x` of the row of a buffer that begins at `p`.
  abbrev pub dot_at : (p x : ℕ) → Buffer → ℕ
  dot_at p x b = digit (15 - x % 16) (it.fetch (p + 2 * (x / 16)) b)

  -- In the rows from `base` on the dots from `left` to `right` are those of the pattern, and the
  -- others those of before; no byte in another row changes.
  abbrev pub Painted : (left right pattern base n : ℕ) → (b d : Buffer) → Type 0
  Painted left right pattern base n b d =
      ((x i : ℕ)
        → x < 1024
        → i < n
        → dot_at (base + 128 * i) x d ≡ (
            if leb left x && ltb x right
            then digit (15 - x % 16) pattern
            else dot_at (base + 128 * i) x b))
      × ((j : ℕ) → (j < base) ⊎ (base + 128 * n ≤ j) → d j ≡ b j)

  Whole-Painted :
      (left right pattern base n : ℕ) (b d : Buffer)
      → left ≤ right
      → Whole it (new_word left right pattern) base n b d
      → Painted left right pattern base n b d
  Whole-Painted left right pattern base n b d o (words, bytes) = (
    λ x i l m.
        let place : base + 128 * i + 2 * (x / 16) ≡ base + 2 * (x / 16) + 128 * i = omega arith in
        let whole : 16 * (x / 16) + x % 16 ≡ x = omega arith in
        let w =
          digit-new_word left right pattern (x / 16) (x % 16)
            (it.fetch (base + 2 * (x / 16) + 128 * i) b) (omega arith) o in
        rw (place, words (x / 16) i (omega (arith, l)) m) (rw whole at w),
    λ j r. bytes j (λ k i l m. elim r [
      | inl c ↦ (λ e. omega (arith, c, e), λ e. omega (arith, c, e))
      | inr c ↦ (λ e. omega (arith, c, e, l, m), λ e. omega (arith, c, e, l, m))
    ]),
  )

  -- `fill_plane` of a rectangle on a plane, with its left side before its right side and its top not
  -- below its bottom, all within the plane, returns with no access outside the planes: the dots of
  -- the rectangle become those of the pattern of 16 dots, every other dot of its rows and every
  -- byte of another row or plane is as it was, and exactly its rows are marked besides those that
  -- were.
  pub fill_plane-Painted :
      (left top right bottom plane pattern : ℕ) (t : TextVram)
      → left ≤ right
      → left < 1024
      → right ≤ 1024
      → top ≤ bottom
      → bottom ≤ 1024
      → plane < 4
      → (u : TextVram) × (fill_plane it left top right bottom plane pattern t ≡ ok u)
        × Painted left right pattern
            (plane * plane_size + top * row_size)
            (bottom - top)
            t.buf
            u.buf
        × ((y : ℕ) → u.marks y ≡ (leb top y && ltb y bottom) || t.marks y)
  fill_plane-Painted left top right bottom plane pattern t o l r v b p =
      let (u, e, w, m) = fill_plane-Whole it left top right bottom plane pattern t o l r v b p in
      (
        u,
        e,
        Whole-Painted left right pattern (plane * plane_size + top * row_size) (bottom - top) t.buf
            u.buf o w,
        m,
      )
