-- ===== src/TextVram/Fill/Columns.antt =====
-- The columns of words that `fill_plane` of textvram.cc fills, in whole or in part.
use Prim.Native.Nat.{bit_and}
use vx68k_v.Base.{
  ℕ, ◌+◌, ◌/◌, ◌%◌, ◌≤◌, ◌<◌, ◌≡◌, refl, inl, inr, false, ◌||◌, ◌&&◌, not, ◌==◌, ==-true, ==-false,
  eq_self, ltb, ltb-true, ltb-false, Bool-cases, if◌then◌else◌, arith,
}
use vx68k_v.TextVram.Fill.{merge, left_mask, right_mask}

-- What becomes of the word of a column.
unfoldable pub new_word : (left right pattern k w : ℕ) → ℕ
new_word left right pattern k w =
    if ltb k (left / 16) || ltb (right / 16) k
    then w
    else if left / 16 == right / 16
    then merge (bit_and (left_mask left) (right_mask right)) pattern w % 65536
    else if k == right / 16
    then (if right % 16 == 0 then w else merge (right_mask right) pattern w % 65536)
    else if (k == left / 16) && not (left % 16 == 0)
    then merge (left_mask left) pattern w % 65536
    else pattern % 65536

-- The columns outside the rectangle.
pub outside : (left right pattern k w : ℕ) → k < left / 16 → new_word left right pattern k w ≡ w
unfolding new_word
outside left right pattern k w h = rw (ltb-true k (left / 16) h) refl

pub behind : (left right pattern k w : ℕ) → right / 16 < k → new_word left right pattern k w ≡ w
unfolding new_word
behind left right pattern k w h =
    rw (ltb-true (right / 16) k h)
      (elim (Bool-cases (ltb k (left / 16))) [ inl e ↦ rw e refl | inr e ↦ rw e refl ])

-- The columns of the rectangle.
pub word_one :
    (left right pattern w : ℕ)
    → left / 16 ≡ right / 16
    → new_word left right pattern (left / 16) w
      ≡ merge (bit_and (left_mask left) (right_mask right)) pattern w % 65536
unfolding new_word
word_one left right pattern w e =
    rw
      (
        ltb-false (left / 16) (left / 16) (omega arith),
        ltb-false (right / 16) (left / 16) (omega (arith, e)),
        ==-true (left / 16) (right / 16) e,
      )
      refl

pub word_left :
    (left right pattern w : ℕ)
    → left / 16 < right / 16
    → (left % 16 == 0) ≡ false
    → new_word left right pattern (left / 16) w ≡ merge (left_mask left) pattern w % 65536
unfolding new_word
word_left left right pattern w h e =
    rw
      (
        ltb-false (left / 16) (left / 16) (omega arith),
        ltb-false (right / 16) (left / 16) (omega (arith, h)),
        ==-false (left / 16) (right / 16) (omega (arith, h)),
        eq_self (left / 16),
        e,
      )
      refl

pub word_full :
    (left right pattern k w : ℕ)
    → (if not (left % 16 == 0) then left / 16 + 1 else left / 16) ≤ k
    → k < right / 16
    → pattern % 65536 ≡ new_word left right pattern k w
unfolding new_word
word_full left right pattern k w h l = elim (Bool-cases (left % 16 == 0)) [
  | inl e ↦
      let m = rw e at h in
      rw
        (
          ltb-false k (left / 16) m,
          ltb-false (right / 16) k (omega (arith, l)),
          ==-false (left / 16) (right / 16) (omega (arith, l, m)),
          ==-false k (right / 16) (omega (arith, l)),
          e,
        )
        (elim (Bool-cases (k == left / 16)) [ inl f ↦ rw f refl | inr f ↦ rw f refl ])
  | inr e ↦
      let m = rw e at h in
      rw
        (
          ltb-false k (left / 16) (omega (arith, m)),
          ltb-false (right / 16) k (omega (arith, l)),
          ==-false (left / 16) (right / 16) (omega (arith, l, m)),
          ==-false k (right / 16) (omega (arith, l)),
          ==-false k (left / 16) (omega (arith, m)),
        )
        refl
]

pub word_right :
    (left right pattern w : ℕ)
    → left / 16 < right / 16
    → new_word left right pattern (right / 16) w
      ≡ (if right % 16 == 0 then w else merge (right_mask right) pattern w % 65536)
unfolding new_word
word_right left right pattern w h =
    rw
      (
        ltb-false (right / 16) (left / 16) (omega (arith, h)),
        ltb-false (right / 16) (right / 16) (omega arith),
        ==-false (left / 16) (right / 16) (omega (arith, h)),
        eq_self (right / 16),
      )
      refl
