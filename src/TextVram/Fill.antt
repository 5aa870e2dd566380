-- ===== src/TextVram/Fill.antt =====
-- `fill_plane` of libvx68k/textvram.cc, which _TXFILL calls. The coordinates are not negative; a
-- word outside the buffer, or a loop that runs off it, is `out_of_bounds`.
pub mod Words
pub mod Columns
pub mod Rectangle
pub mod Digits
pub mod Dots
pub mod Painted
use Prim.Native.Nat.{bit_and, bit_or}
use vx68k_v.Base.{
  ℕ, zero, suc, ◌+◌, ◌-◌, ◌*◌, ◌/◌, ◌%◌, ◌^◌, Bool, true, false, ◌||◌, not, ◌==◌, ltb,
  if◌then◌else◌,
}
use vx68k_v.Base.Bus.{Result, ok, out_of_bounds, ◌>>=◌}
use vx68k_v.TextVram.Iterator.{WordIterator}
use vx68k_v.TextVram.{Buffer, TextVram, row_size, plane_size, buffer_size, mark_update_area}

-- `*k & ~m | pattern & m`.
abbrev pub merge : (m pattern w : ℕ) → ℕ
merge m pattern w = bit_or (bit_and w (65535 - m)) (bit_and pattern m)

-- The bits from `left` on in their word, and those before `right`.
abbrev pub left_mask : ℕ → ℕ
left_mask left = 65535 / 2 ^ (left % 16)

abbrev pub right_mask : ℕ → ℕ
right_mask right = 65535 - 65535 / 2 ^ (right % 16)

module _ (it : WordIterator) where
  open it use {fetch, store}

  -- The loop over the rows of one column of words, with what a word becomes.
  unfoldable pub fill_column : (n p : ℕ) → (ℕ → ℕ) → Buffer → Result Buffer
  fill_column zero p f b = ok b
  fill_column (suc n) p f b =
      let rest : Result Buffer =
        fill_column n (p + row_size) f (store p (f (fetch p b) % 65536) b) in
      if ltb (p + 1) buffer_size then rest else out_of_bounds

  -- `while (first != last)`, for `c` columns.
  unfoldable pub fill_columns : (c n p pattern : ℕ) → Buffer → Result Buffer
  unfolding fill_column
  fill_columns zero n p pattern b = ok b
  fill_columns (suc c) n p pattern b =
      fill_column n p (λ w. pattern) b >>= fill_columns c n (p + 2) pattern

  -- A column that is filled in part, if there is one.
  abbrev pub fill_edge : Bool → (n p : ℕ) → (ℕ → ℕ) → Buffer → Result Buffer
  fill_edge true n p f b = fill_column n p f b
  fill_edge false n p f b = ok b

  abbrev pub fill_buffer : (left top right bottom plane pattern : ℕ) → Buffer → Result Buffer
  fill_buffer left top right bottom plane pattern b =
      let row_first : ℕ = plane * plane_size + top * row_size in
      let n : ℕ = bottom - top in
      let in_left : Bool = not (left % 16 == 0) in
      let first : ℕ = if in_left then left / 16 + 1 else left / 16 in
      if left / 16 == right / 16
      then fill_column n (row_first + left / 16 * 2)
          (merge (bit_and (left_mask left) (right_mask right)) pattern) b
      else fill_edge in_left n (row_first + left / 16 * 2) (merge (left_mask left) pattern) b
        >>= λ b1.
            (fill_columns (right / 16 - first) n (row_first + first * 2) pattern b1
              >>= fill_edge (not (right % 16 == 0)) n (row_first + right / 16 * 2)
                  (merge (right_mask right) pattern))

  unfoldable pub fill_plane : (left top right bottom plane pattern : ℕ) → TextVram → Result TextVram
  unfolding mark_update_area
  fill_plane left top right bottom plane pattern t =
      if ltb bottom top || ltb (right / 16) (left / 16)
      then out_of_bounds
      else fill_buffer left top right bottom plane pattern t.buf >>= λ b.
          mark_update_area top bottom (record t { buf = b })
