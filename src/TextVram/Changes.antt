-- ===== src/TextVram/Changes.antt =====
-- What one write leaves alone: in textvram.cc every write marks the rasters that it changes, and
-- takes no mark away.
use mathlib.Core.Path.{subst}
use vx68k_v.Base.{
  ℕ, ◌+◌, ◌*◌, ◌/◌, ◌%◌, ◌<◌, ◌≡◌, ◌≢◌, refl, sym, ◌∙◌, inl, inr, true, false, arith, ◌==◌,
  Bool-cases, if◌then◌else◌, ==-eq, ==-ne, eq_self, ap,
}
use vx68k_v.Base.Bus.{ok}
use vx68k_v.TextVram.{Buffer, TextVram, Glyphs, buffer_size, plane_size, row_size}
use vx68k_v.TextVram.Iterator.{WordIterator}
use vx68k_v.TextVram.Marks.{Write, IsFitting, Covers, perform, perform-Covers}

pub ok_injective {ℓ} : {A : Type ℓ} (a b : A) → ok a ≡ ok b → a ≡ b
ok_injective a b h = cc

-- A buffer that differs from `t` in the raster `r` only, and there from `u` at every byte.
abbrev unlike : (r : ℕ) → (t u : TextVram) → Buffer
unlike r t u j = if j % plane_size / row_size == r then u.buf j + 1 else t.buf j

unlike-Covers : (r : ℕ) (t u : TextVram) → t.marks r ≡ true → Covers (unlike r t u) t
unlike-Covers r t u m j h ne = elim (Bool-cases (j % plane_size / row_size == r)) [
  | inl here ↦ rw (==-eq (j % plane_size / row_size) r here) m
  | inr there ↦ absurd (ne (rw there refl))
]

module _ (it : WordIterator) (g : Glyphs) (w : Write it) (t u : TextVram) where
  keeps : (snap : Buffer) → Covers snap t → IsFitting it w → perform it g w t ≡ ok u → Covers snap u
  keeps snap cov fits e =
      let (v, f, c) = perform-Covers it snap g w t cov fits in
      subst (Covers snap) (ok_injective v u (sym f ∙ e)) (c)

  -- A marked raster stays marked.
  pub perform-marks :
      IsFitting it w
      → perform it g w t ≡ ok u
      → (r : ℕ) → r < 1024
      → t.marks r ≡ true
      → u.marks r ≡ true
  perform-marks fits e r h m =
      let row : r * row_size % plane_size / row_size ≡ r = omega arith in
      let new : u.buf (r * row_size) ≢ unlike r t u (r * row_size) =
        rw (row, eq_self r)
          (λ (k : u.buf (r * row_size) ≡ u.buf (r * row_size) + 1). omega arith) in
      let marked : u.marks (r * row_size % plane_size / row_size) ≡ true =
        keeps (unlike r t u) (unlike-Covers r t u m) fits e (r * row_size) (omega arith) new in
      sym (ap u.marks row) ∙ marked

  -- In a raster that is not marked after it no byte is changed.
  pub perform-unmarked :
      IsFitting it w
      → perform it g w t ≡ ok u
      → (j : ℕ) → j < buffer_size
      → u.marks (j % plane_size / row_size) ≡ false
      → u.buf j ≡ t.buf j
  perform-unmarked fits e j h m =
      let c : Covers t.buf u = keeps t.buf (λ i k ne. absurd (ne refl)) fits e in
      elim (Bool-cases (u.buf j == t.buf j)) [
        | inl eq ↦ ==-eq (u.buf j) (t.buf j) eq
        | inr ne ↦
            let marked : u.marks (j % plane_size / row_size) ≡ true =
              c j h (==-ne (u.buf j) (t.buf j) ne) in
            cc
      ]
