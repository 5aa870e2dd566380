-- ===== src/TextVram/Fill/Dots.antt =====
-- The dots of a word that `fill_plane` of textvram.cc merges.
use Prim.Native.Nat.{bit_and}
use vx68k_v.Base.{
  ℕ, ◌+◌, ◌-◌, ◌*◌, ◌/◌, ◌%◌, ◌^◌, ◌≤◌, ◌<◌, ◌≡◌, ◌≢◌, refl, sym, inl, inr, Bool, true, ◌&&◌, ◌==◌,
  ==-eq, ==-ne, ==-false, ltb, ltb-false, ltb-true, ltb-lt, ltb-ge, leb, leb-true, leb-false,
  leb-le, leb-gt, Bool-cases, if◌then◌else◌, arith,
}
use vx68k_v.TextVram.Fill.{merge, left_mask, right_mask}
use vx68k_v.TextVram.Fill.Digits.{
  digit, digit-bit_and, digit-bit_or, digit-le, digit-ones_sub, digit-word, bit_and-le, below,
  below-all,
}
use vx68k_v.TextVram.Fill.Columns.{new_word}

one_if : Bool → ℕ
one_if b = if b then 1 else 0

-- The masks, at the dots of a word from the left on.
left_dots :
    below 16 (λ l. below 16 (λ q. digit (15 - q) (65535 / 2 ^ l) == one_if (leb l q))) ≡ true
unfolding below one_if
left_dots = refl

digit-left_mask :
    (left q : ℕ) → q < 16 → digit (15 - q) (left_mask left) ≡ one_if (leb (left % 16) q)
digit-left_mask left q h =
    let row =
      below-all 16 (λ l. below 16 (λ q. digit (15 - q) (65535 / 2 ^ l) == one_if (leb l q)))
        (left % 16) left_dots (omega arith) in
    ==-eq _ _ (
      below-all 16 (λ q. digit (15 - q) (65535 / 2 ^ (left % 16)) == one_if (leb (left % 16) q)) q
        row h)

digit-right_mask :
    (right q : ℕ) → q < 16 → digit (15 - q) (right_mask right) ≡ one_if (ltb q (right % 16))
unfolding one_if
digit-right_mask right q h =
    let le : 65535 / 2 ^ (right % 16) ≤ 65535 = omega arith in
    let e = digit-ones_sub 16 (15 - q) (65535 / 2 ^ (right % 16)) (omega arith) le in
    let d = digit-left_mask right q h in
    elim (Bool-cases (ltb q (right % 16))) [
      | inl c ↦
          let f = leb-false (right % 16) q (ltb-lt q (right % 16) c) in
          rw c (omega (arith, e, (rw f at d)))
      | inr c ↦
          let f = leb-true (right % 16) q (ltb-ge q (right % 16) c) in
          rw c (omega (arith, e, (rw f at d)))
    ]

-- What `merge` makes of a dot.
digit-merge :
    (m pattern w q : ℕ) (c : Bool)
    → q < 16
    → m ≤ 65535
    → digit (15 - q) m ≡ one_if c
    → digit (15 - q) (merge m pattern w % 65536)
      ≡ (if c then digit (15 - q) pattern else digit (15 - q) w)
unfolding one_if
digit-merge m pattern w q c h k e =
    let a = digit-word (15 - q) (merge m pattern w) (omega arith) in
    let b = digit-bit_or (15 - q) (bit_and w (65535 - m)) (bit_and pattern m) in
    let d = digit-bit_and (15 - q) w (65535 - m) in
    let f = digit-bit_and (15 - q) pattern m in
    let g = digit-ones_sub 16 (15 - q) m (omega arith) k in
    let x = digit-le (15 - q) w in
    let y = digit-le (15 - q) pattern in
    elim (Bool-cases c) [
      | inl t ↦ rw t (omega (arith, a, b, d, f, g, (rw t at e)))
      | inr t ↦ rw t (omega (arith, a, b, d, f, g, (rw t at e)))
    ]

digit-both :
    (left right q : ℕ)
    → q < 16
    → digit (15 - q) (bit_and (left_mask left) (right_mask right))
      ≡ one_if (leb (left % 16) q && ltb q (right % 16))
unfolding one_if
digit-both left right q h =
    let d = digit-bit_and (15 - q) (left_mask left) (right_mask right) in
    let a = digit-left_mask left q h in
    let b = digit-right_mask right q h in
    elim (Bool-cases (leb (left % 16) q)) [
      | inl s ↦ elim (Bool-cases (ltb q (right % 16))) [
        | inl t ↦ rw (s, t) (omega (arith, d, (rw s at a), (rw t at b)))
        | inr t ↦ rw (s, t) (omega (arith, d, (rw s at a), (rw t at b)))
      ]
      | inr s ↦ rw s (omega (arith, d, (rw s at a)))
    ]

leb_by : (a b c d : ℕ) → a + d ≡ c + b → leb a b ≡ leb c d
leb_by a b c d h = elim (Bool-cases (leb c d)) [
  | inl e ↦ rw e (leb-true a b (omega (arith, h, leb-le c d e)))
  | inr e ↦ rw e (leb-false a b (omega (arith, h, leb-gt c d e)))
]

ltb_by : (a b c d : ℕ) → a + d ≡ c + b → ltb a b ≡ ltb c d
ltb_by a b c d h = elim (Bool-cases (ltb c d)) [
  | inl e ↦ rw e (ltb-true a b (omega (arith, h, ltb-lt c d e)))
  | inr e ↦ rw e (ltb-false a b (omega (arith, h, ltb-ge c d e)))
]

-- Between the sides a dot is that of the pattern, and elsewhere that of before.
abbrev pub dot : (left right pattern k q w : ℕ) → ℕ
dot left right pattern k q w =
    if leb left (16 * k + q) && ltb (16 * k + q) right
    then digit (15 - q) pattern
    else digit (15 - q) w

module _ (left right pattern k q w : ℕ) where
  dot-one :
      q < 16
      → k ≡ left / 16
      → left / 16 ≡ right / 16
      → digit (15 - q) (merge (bit_and (left_mask left) (right_mask right)) pattern w % 65536)
        ≡ dot left right pattern k q w
  dot-one h e f =
      rw
        (
          leb_by left (16 * k + q) (left % 16) q (omega (arith, e)),
          ltb_by (16 * k + q) right q (right % 16) (omega (arith, e, f)),
        )
        (digit-merge (bit_and (left_mask left) (right_mask right)) pattern w q
          (leb (left % 16) q && ltb q (right % 16)) h
          (omega (arith, bit_and-le 65535 (left_mask left) (right_mask right) (omega arith)))
          (digit-both left right q h))

  dot-right :
      q < 16
      → k ≡ right / 16
      → left / 16 < k
      → digit (15 - q) (merge (right_mask right) pattern w % 65536) ≡ dot left right pattern k q w
  dot-right h e f =
      rw
        (
          leb-true left (16 * k + q) (omega (arith, f)),
          ltb_by (16 * k + q) right q (right % 16) (omega (arith, e)),
        )
        (digit-merge (right_mask right) pattern w q (ltb q (right % 16)) h (omega arith)
          (digit-right_mask right q h))

  dot-left :
      q < 16
      → k ≡ left / 16
      → k < right / 16
      → digit (15 - q) (merge (left_mask left) pattern w % 65536) ≡ dot left right pattern k q w
  dot-left h e f =
      let m =
        digit-merge (left_mask left) pattern w q (leb (left % 16) q) h (omega arith)
          (digit-left_mask left q h) in
      rw
        (
          leb_by left (16 * k + q) (left % 16) q (omega (arith, e)),
          ltb-true (16 * k + q) right (omega (arith, h, f)),
        )
        (elim (Bool-cases (leb (left % 16) q)) [
          | inl c ↦ rw c (rw c at m)
          | inr c ↦ rw c (rw c at m)
        ])

  dot-behind : q < 16 → right / 16 < k → dot left right pattern k q w ≡ digit (15 - q) w
  dot-behind h b =
      let r = ltb-false (16 * k + q) right (omega (arith, b)) in
      elim (Bool-cases (leb left (16 * k + q))) [ inl e ↦ rw (e, r) refl | inr e ↦ rw e refl ]

  dot-full :
      q < 16
      → left ≤ 16 * k
      → k < right / 16
      → digit (15 - q) (pattern % 65536) ≡ dot left right pattern k q w
  dot-full h l r =
      rw
        (
          leb-true left (16 * k + q) (omega (arith, l)),
          ltb-true (16 * k + q) right (omega (arith, h, r)),
        )
        (digit-word (15 - q) pattern (omega arith))

  dot-end :
      q < 16 → k ≡ right / 16 → right % 16 ≡ 0 → dot left right pattern k q w ≡ digit (15 - q) w
  dot-end h e z =
      let r = ltb-false (16 * k + q) right (omega (arith, e, z)) in
      elim (Bool-cases (leb left (16 * k + q))) [ inl e ↦ rw (e, r) refl | inr e ↦ rw e refl ]

  several :
      q < 16
      → left / 16 ≤ k
      → k ≤ right / 16
      → left / 16 ≢ right / 16
      → digit (15 - q) (new_word left right pattern k w) ≡ dot left right pattern k q w
  unfolding new_word
  several h l r n =
      rw
        (ltb-false k (left / 16) l, ltb-false (right / 16) k r, ==-false (left / 16) (right / 16) n)
        (elim (Bool-cases (k == right / 16)) [
          | inl e ↦
              let at_end = ==-eq k (right / 16) e in
              elim (Bool-cases (right % 16 == 0)) [
                | inl z ↦ rw (e, z) (sym (dot-end h at_end (==-eq (right % 16) 0 z)))
                | inr z ↦ rw (e, z) (dot-right h at_end (omega (arith, l, n, at_end)))
              ]
          | inr e ↦
              let inside = ==-ne k (right / 16) e in
              elim (Bool-cases (k == left / 16)) [
                | inl f ↦
                    let at_start = ==-eq k (left / 16) f in
                    elim (Bool-cases (left % 16 == 0)) [
                      | inl z ↦
                          rw (e, f, z)
                            (dot-full h (omega (arith, at_start, ==-eq (left % 16) 0 z))
                              (omega (arith, inside, r)))
                      | inr z ↦ rw (e, f, z) (dot-left h at_start (omega (arith, inside, r)))
                    ]
                | inr f ↦
                    rw (e, f)
                      (dot-full h (omega (arith, l, ==-ne k (left / 16) f))
                        (omega (arith, inside, r)))
              ]
        ])

  pub digit-new_word :
      q < 16
      → left ≤ right
      → digit (15 - q) (new_word left right pattern k w) ≡ dot left right pattern k q w
  unfolding new_word
  digit-new_word h o = elim (Bool-cases (ltb k (left / 16))) [
    | inl a ↦ rw (a, leb-false left (16 * k + q) (omega (arith, h, ltb-lt k (left / 16) a))) refl
    | inr a ↦ elim (Bool-cases (ltb (right / 16) k)) [
      | inl b ↦ rw (a, b, dot-behind h (ltb-lt (right / 16) k b)) refl
      | inr b ↦ elim (Bool-cases (left / 16 == right / 16)) [
        | inl c ↦
            let l = ltb-ge k (left / 16) a in
            let r = ltb-ge (right / 16) k b in
            let same = ==-eq (left / 16) (right / 16) c in
            rw (a, b, c) (dot-one h (omega (arith, l, r, same)) same)
        | inr c ↦
            several h (ltb-ge k (left / 16) a) (ltb-ge (right / 16) k b)
              (==-ne (left / 16) (right / 16) c)
      ]
    ]
  ]
