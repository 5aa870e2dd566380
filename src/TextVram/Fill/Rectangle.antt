-- ===== src/TextVram/Fill/Rectangle.antt =====
-- The rectangle that `fill_plane` of textvram.cc fills.
use Prim.Native.Nat.{bit_and}
use vx68k_v.Base.{
  ℕ, suc, ◌+◌, ◌-◌, ◌*◌, ◌/◌, ◌%◌, ◌≤◌, ◌<◌, ◌≡◌, ◌≢◌, ◌∙◌, refl, sym, inl, inr, true, false, ◌||◌,
  ◌&&◌, not, ◌==◌, ==-eq, ltb, ltb-false, ltb-lt, ltb-ge, leb, leb-true, Bool-cases, if◌then◌else◌,
  arith,
}
use vx68k_v.Base.Bus.{ok, ◌>>=◌}
use vx68k_v.TextVram.Iterator.{WordIterator}
use vx68k_v.TextVram.{Buffer, TextVram, row_size, plane_size, buffer_size, mark_update_area}
use vx68k_v.TextVram.Fill.{
  merge, left_mask, right_mask, fill_column, fill_columns, fill_edge, fill_plane,
}
use vx68k_v.TextVram.Fill.Words.{
  Returns, fill_column-Filled, ==-ne, Done, Done-column, fill_columns-Done,
}
use vx68k_v.TextVram.Fill.Columns.{
  new_word, outside, behind, word_one, word_left, word_full, word_right,
}

module _ (it : WordIterator) where
  -- Every word of the rows becomes what `g` makes of it, and no other byte changes.
  abbrev pub Whole : (g : ℕ → ℕ → ℕ) → (base n : ℕ) → (b d : Buffer) → Type 0
  Whole g base n b d =
      ((k i : ℕ)
        → k < 64
        → i < n
        → it.fetch (base + 2 * k + 128 * i) d ≡ g k (it.fetch (base + 2 * k + 128 * i) b))
      × ((j : ℕ)
          → ((k i : ℕ)
              → k < 64
              → i < n
              → (j ≢ base + 2 * k + 128 * i) × (j ≢ base + 2 * k + 128 * i + 1))
          → d j ≡ b j)

  Done-start :
      (g : ℕ → ℕ → ℕ) (base n c : ℕ) (b : Buffer)
      → ((k w : ℕ) → k < c → g k w ≡ w)
      → Done it g base n c b b
  Done-start g base n c b same = (
    λ k i l m. elim (Bool-cases (ltb k c)) [
      | inl e ↦ rw e (sym (same k (it.fetch (base + 2 * k + 128 * i) b) (ltb-lt k c e)))
      | inr e ↦ rw e refl
    ],
    λ j r. refl,
  )

  Done-Whole :
      (g : ℕ → ℕ → ℕ) (base n c : ℕ) (b d : Buffer)
      → Done it g base n c b d
      → ((k w : ℕ) → c ≤ k → k < 64 → g k w ≡ w)
      → Whole g base n b d
  Done-Whole g base n c b d (words, bytes) same = (
    λ k i l m. elim (Bool-cases (ltb k c)) [
      | inl e ↦ rw e at (words k i l m)
      | inr e ↦
          (rw e at (words k i l m))
          ∙ sym (same k (it.fetch (base + 2 * k + 128 * i) b) (ltb-ge k c e) l)
    ],
    bytes,
  )

  module _ (left right pattern base n : ℕ) (b : Buffer) where
    abbrev g : ℕ → ℕ → ℕ
    g k w = new_word left right pattern k w

    one_column :
        (left / 16 == right / 16) ≡ true
        → left < 1024
        → base + 128 * n ≤ buffer_size
        → Returns (Whole g base n b) (
            fill_column it n
              (base + left / 16 * 2)
              (merge (bit_and (left_mask left) (right_mask right)) pattern)
              b)
    one_column e h k =
        let q = ==-eq (left / 16) (right / 16) e in
        let place : base + left / 16 * 2 ≡ base + 2 * (left / 16) = omega arith in
        let (d, f, p) =
          fill_column-Filled it n (base + 2 * (left / 16))
            (merge (bit_and (left_mask left) (right_mask right)) pattern) b (omega (arith, h, k)) in
        rw (place, f)
          (
            d,
            refl,
            Done-Whole g base n (suc (left / 16)) b d
                (Done-column it g (merge (bit_and (left_mask left) (right_mask right)) pattern) base
                  n (left / 16) b b d (omega (arith, h))
                  (Done-start g base n (left / 16) b (λ j w. outside left right pattern j w)) p
                  (λ w. sym (word_one left right pattern w q)))
                (λ j w l m. behind left right pattern j w (omega (arith, q, l))),
          )

    left_edge :
        left / 16 < right / 16
        → right ≤ 1024
        → base + 128 * n ≤ buffer_size
        → Returns (Done it g base n (if not (left % 16 == 0) then left / 16 + 1 else left / 16) b) (
            fill_edge it
              (not (left % 16 == 0))
              n
              (base + left / 16 * 2)
              (merge (left_mask left) pattern)
              b)
    left_edge l h k = elim (Bool-cases (left % 16 == 0)) [
      | inl e ↦
          rw e (b, refl, Done-start g base n (left / 16) b (λ j w. outside left right pattern j w))
      | inr e ↦
          let place : base + left / 16 * 2 ≡ base + 2 * (left / 16) = omega arith in
          let next : left / 16 + 1 ≡ suc (left / 16) = omega arith in
          let (d, f, p) =
            fill_column-Filled it n (base + 2 * (left / 16)) (merge (left_mask left) pattern) b
              (omega (arith, l, h, k)) in
          rw (e, place, next, f)
            (
              d,
              refl,
              Done-column it g (merge (left_mask left) pattern) base n (left / 16) b b d
                  (omega (arith, l, h))
                  (Done-start g base n (left / 16) b (λ j w. outside left right pattern j w)) p
                  (λ w. sym (word_left left right pattern w l e)),
            )
    ]

    last_column :
        (right % 16 == 0) ≡ true → left / 16 < right / 16 → (j w : ℕ) → right / 16 ≤ j → g j w ≡ w
    last_column e l j w c = elim (Bool-cases (j == right / 16)) [
      | inl f ↦ rw (==-eq j (right / 16) f) (word_right left right pattern w l ∙ rw e refl)
      | inr f ↦
          let ne = ==-ne j (right / 16) f in behind left right pattern j w (omega (arith, c, ne))
    ]

    right_edge :
        (d : Buffer)
        → left / 16 < right / 16
        → right ≤ 1024
        → base + 128 * n ≤ buffer_size
        → Done it g base n (right / 16) b d
        → Returns (Whole g base n b) (
            fill_edge it
              (not (right % 16 == 0))
              n
              (base + right / 16 * 2)
              (merge (right_mask right) pattern)
              d)
    right_edge d l h k p = elim (Bool-cases (right % 16 == 0)) [
      | inl e ↦
          rw e (d, refl, Done-Whole g base n (right / 16) b d p (λ j w c m. last_column e l j w c))
      | inr e ↦
          let place : base + right / 16 * 2 ≡ base + 2 * (right / 16) = omega arith in
          let part = ==-ne (right % 16) 0 e in
          let (c, f, q) =
            fill_column-Filled it n (base + 2 * (right / 16)) (merge (right_mask right) pattern) d
              (omega (arith, h, k)) in
          rw (e, place, f)
            (
              c,
              refl,
              Done-Whole g base n (suc (right / 16)) b c
                  (Done-column it g (merge (right_mask right) pattern) base n (right / 16) b d c
                    (omega (arith, h, part)) p q
                    (λ w. sym (word_right left right pattern w l ∙ rw e refl)))
                  (λ j w c' m. behind left right pattern j w (omega (arith, c'))),
            )
    ]

    several_columns :
        left / 16 < right / 16
        → right ≤ 1024
        → base + 128 * n ≤ buffer_size
        → let first : ℕ = if not (left % 16 == 0) then left / 16 + 1 else left / 16 in
          Returns (Whole g base n b) (
            fill_edge it
              (not (left % 16 == 0))
              n
              (base + left / 16 * 2)
              (merge (left_mask left) pattern)
              b
            >>= λ b1.
                (fill_columns it (right / 16 - first) n (base + first * 2) pattern b1
                  >>= fill_edge it
                      (not (right % 16 == 0))
                      n
                      (base + right / 16 * 2)
                      (merge (right_mask right) pattern)))
    several_columns l h k =
        let first : ℕ = if not (left % 16 == 0) then left / 16 + 1 else left / 16 in
        let (b1, e1, p1) = left_edge l h k in
        let place : base + (if not (left % 16 == 0) then left / 16 + 1 else left / 16) * 2
            ≡ base + 2 * (if not (left % 16 == 0) then left / 16 + 1 else left / 16) =
          omega arith in
        let most : (if not (left % 16 == 0) then left / 16 + 1 else left / 16) ≤ right / 16 =
          ground (arith, l) in
        let end : (if not (left % 16 == 0) then left / 16 + 1 else left / 16)
              + (right / 16 - (if not (left % 16 == 0) then left / 16 + 1 else left / 16))
            ≡ right / 16 =
          omega (arith, most) in
        let (b2, e2, p2) =
          fill_columns-Done it g (right / 16 - first) base n first pattern b b1
            (omega (arith, end, h)) k p1
            (λ j w c m. word_full left right pattern j w c (omega (arith, m, end))) in
        let (b3, e3, p3) = right_edge b2 l h k (rw end at p2) in
        rw (e1, place, e2, e3) (b3, refl, p3)

  -- `fill_plane` of a rectangle on a plane returns, with no access outside the planes: on its rows
  -- the words of the columns become what the masks of its sides make of them, the pattern where no
  -- side is in the word, no other byte changes, and exactly its rows are marked.
  pub fill_plane-Whole :
      (left top right bottom plane pattern : ℕ) (t : TextVram)
      → left ≤ right
      → left < 1024
      → right ≤ 1024
      → top ≤ bottom
      → bottom ≤ 1024
      → plane < 4
      → (u : TextVram) × (fill_plane it left top right bottom plane pattern t ≡ ok u)
        × Whole
            (new_word left right pattern)
            (plane * plane_size + top * row_size)
            (bottom - top)
            t.buf
            u.buf
        × ((y : ℕ) → u.marks y ≡ (leb top y && ltb y bottom) || t.marks y)
  unfolding fill_plane mark_update_area
  fill_plane-Whole left top right bottom plane pattern t lr l r tb b p =
      let base : ℕ = plane * plane_size + top * row_size in
      let order : left / 16 ≤ right / 16 = omega (arith, lr) in
      let rows : ltb bottom top ≡ false = ltb-false bottom top tb in
      let columns : ltb (right / 16) (left / 16) ≡ false =
        ltb-false (right / 16) (left / 16) order in
      let fits : plane * plane_size + top * row_size + 128 * (bottom - top) ≤ buffer_size =
        omega (arith, tb, b, p) in
      let up : leb top bottom ≡ true = leb-true top bottom tb in
      let in_range : leb bottom 1024 ≡ true = leb-true bottom 1024 b in
      elim (Bool-cases (left / 16 == right / 16)) [
        | inl e ↦
            let (d, f, w) =
              one_column left right pattern (plane * plane_size + top * row_size) (bottom - top)
                t.buf e l fits in
            rw (rows, columns, e, f, up, in_range) (_, refl, w, λ y. refl)
        | inr e ↦
            let ne = ==-ne (left / 16) (right / 16) e in
            let (d, f, w) =
              several_columns left right pattern (plane * plane_size + top * row_size)
                (bottom - top) t.buf (omega (arith, order, ne)) r fits in
            rw (rows, columns, e, f, up, in_range) (_, refl, w, λ y. refl)
      ]
