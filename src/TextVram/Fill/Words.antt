-- ===== src/TextVram/Fill/Words.antt =====
-- The words that `fill_plane` of textvram.cc changes.
use vx68k_v.Base.{
  ℕ, zero, suc, ◌+◌, ◌*◌, ◌%◌, ◌≤◌, ◌<◌, ◌≡◌, ◌≢◌, ◌∙◌, refl, ap, inl, inr, false, ◌==◌, ==-eq, ltb,
  ltb-true, ltb-false, Bool-cases, if◌then◌else◌, arith,
}
use vx68k_v.Base.Bus.{Result, ok}
use vx68k_v.TextVram.Iterator.{WordIterator}
use vx68k_v.TextVram.{Buffer, buffer_size}
use vx68k_v.TextVram.Fill.{fill_column, fill_columns}

abbrev pub Returns : (Buffer → Type 0) → Result Buffer → Type 0
Returns P r = (b : Buffer) × (r ≡ ok b) × P b

pub ==-ne : (a b : ℕ) → (a == b) ≡ false → a ≢ b
==-ne a b e = ground arith

module _ (it : WordIterator) where
  -- One column: each word becomes what `f` makes of it, and no other byte changes.
  abbrev pub Filled : (n p : ℕ) → (ℕ → ℕ) → (b c : Buffer) → Type 0
  Filled n p f b c =
      ((i : ℕ) → i < n → it.fetch (p + 128 * i) c ≡ f (it.fetch (p + 128 * i) b) % 65536)
      × ((j : ℕ) → ((i : ℕ) → i < n → (j ≢ p + 128 * i) × (j ≢ p + 128 * i + 1)) → c j ≡ b j)

  -- The first word is set, and the other rows are filled.
  Filled-step :
      (n p : ℕ) (f : ℕ → ℕ) (b c : Buffer)
      → Filled n (p + 128) f (it.store p (f (it.fetch p b) % 65536) b) c
      → (i : ℕ) → i < suc n
      → it.fetch (p + 128 * i) c ≡ f (it.fetch (p + 128 * i) b) % 65536
  Filled-step n p f b c (words, bytes) zero l =
      let b1 : Buffer = it.store p (f (it.fetch p b) % 65536) b in
      let e : p + 128 * 0 ≡ p = omega arith in
      rw e (
        it.fetch_same p c b1 (bytes p (λ k m. (omega arith, omega arith)))
          (bytes (p + 1) (λ k m. (omega arith, omega arith)))
        ∙ it.fetch-store p (f (it.fetch p b) % 65536) b (omega arith))
  Filled-step n p f b c (words, bytes) (suc i) l =
      let v : ℕ = f (it.fetch p b) % 65536 in
      let q : ℕ = p + 128 + 128 * i in
      let e : p + 128 * suc i ≡ p + 128 + 128 * i = omega arith in
      rw e (
        words i (omega (arith, l))
        ∙ ap (λ w. f w % 65536)
            (it.fetch_same (p + 128 + 128 * i) (it.store p (f (it.fetch p b) % 65536) b) b
              (it.store_other p (f (it.fetch p b) % 65536) b (p + 128 + 128 * i) (omega arith)
                (omega arith))
              (it.store_other p (f (it.fetch p b) % 65536) b (p + 128 + 128 * i + 1) (omega arith)
                (omega arith))))

  Filled-other :
      (n p : ℕ) (f : ℕ → ℕ) (b c : Buffer)
      → Filled n (p + 128) f (it.store p (f (it.fetch p b) % 65536) b) c
      → (j : ℕ) → ((i : ℕ) → i < suc n → (j ≢ p + 128 * i) × (j ≢ p + 128 * i + 1))
      → c j ≡ b j
  Filled-other n p f b c (words, bytes) j k =
      let first = k 0 (omega arith) in
      bytes j (λ i l.
        let next = k (suc i) (omega (arith, l)) in (omega (arith, next), omega (arith, next)))
      ∙ it.store_other p (f (it.fetch p b) % 65536) b j (omega (arith, first))
          (omega (arith, first))

  pub fill_column-Filled :
      (n p : ℕ) (f : ℕ → ℕ) (b : Buffer)
      → p + 128 * n < buffer_size + 127
      → Returns (Filled n p f b) (fill_column it n p f b)
  unfolding fill_column
  fill_column-Filled zero p f b h = (b, refl, (λ i l. absurd (omega (arith, l)), λ j k. refl))
  fill_column-Filled (suc n) p f b h =
      let b1 : Buffer = it.store p (f (it.fetch p b) % 65536) b in
      let (c, e, k) = fill_column-Filled n (p + 128) f b1 (omega (arith, h)) in
      rw (ltb-true (p + 1) buffer_size (omega (arith, h)), e)
        (c, refl, (Filled-step n p f b c k, Filled-other n p f b c k))

  -- The columns below `c` are done, and no byte outside the rectangle is changed.
  abbrev pub Done : (g : ℕ → ℕ → ℕ) → (base n c : ℕ) → (b d : Buffer) → Type 0
  Done g base n c b d =
      ((k i : ℕ)
        → k < 64
        → i < n
        → it.fetch (base + 2 * k + 128 * i) d ≡ (
            if ltb k c
            then g k (it.fetch (base + 2 * k + 128 * i) b)
            else it.fetch (base + 2 * k + 128 * i) b))
      × ((j : ℕ)
          → ((k i : ℕ)
              → k < 64
              → i < n
              → (j ≢ base + 2 * k + 128 * i) × (j ≢ base + 2 * k + 128 * i + 1))
          → d j ≡ b j)

  -- One column more.
  pub Done-column :
      (g : ℕ → ℕ → ℕ) (f : ℕ → ℕ) (base n c : ℕ) (b d e : Buffer)
      → c < 64
      → Done g base n c b d
      → Filled n (base + 2 * c) f d e
      → ((w : ℕ) → f w % 65536 ≡ g c w)
      → Done g base n (suc c) b e
  Done-column g f base n c b d e h (words, bytes) (filled, other) same = (
    λ k i l m. elim (Bool-cases (k == c)) [
      | inl here ↦
          let q : k ≡ c = ==-eq k c here in
          rw (q, ltb-true c (suc c) (omega arith))
            (filled i m
              ∙ same (it.fetch (base + 2 * c + 128 * i) d)
              ∙ ap (g c) (words c i h m ∙ rw (ltb-false c c (omega arith)) refl))
      | inr apart ↦
          let ne : k ≢ c = ==-ne k c apart in
          let same_side : ltb k (suc c) ≡ ltb k c = ground arith in
          rw same_side (
            it.fetch_same (base + 2 * k + 128 * i) e d
              (other (base + 2 * k + 128 * i)
                (λ i' m'. (omega (arith, ne, h, l), omega (arith, ne, h, l))))
              (other (base + 2 * k + 128 * i + 1)
                (λ i' m'. (omega (arith, ne, h, l), omega (arith, ne, h, l))))
            ∙ words k i l m)
    ],
    λ j r. other j (λ i m. r c i h m) ∙ bytes j r,
  )

  -- The full columns.
  pub fill_columns-Done :
      (g : ℕ → ℕ → ℕ) (m base n c pattern : ℕ) (b d : Buffer)
      → c + m ≤ 64
      → base + 128 * n ≤ buffer_size
      → Done g base n c b d
      → ((k w : ℕ) → c ≤ k → k < c + m → pattern % 65536 ≡ g k w)
      → Returns (Done g base n (c + m) b) (fill_columns it m n (base + 2 * c) pattern d)
  unfolding fill_columns
  fill_columns-Done g zero base n c pattern b d h k p same =
      let e : c + 0 ≡ c = omega arith in rw e (d, refl, p)
  fill_columns-Done g (suc m) base n c pattern b d h k p same =
      let (d1, e1, f) =
        fill_column-Filled n (base + 2 * c) (λ w. pattern) d (omega (arith, h, k)) in
      let next : base + 2 * c + 2 ≡ base + 2 * suc c = omega arith in
      let sum : c + suc m ≡ suc c + m = omega arith in
      rw (e1, next, sum)
        (fill_columns-Done g m base n (suc c) pattern b d1 (omega (arith, h)) k
          (Done-column g (λ w. pattern) base n c b d d1 (omega (arith, h)) p f
            (λ w. same c w (omega arith) (omega arith)))
          (λ j w l u. same j w (omega (arith, l)) (omega (arith, u))))
