-- ===== src/Screen/Sweep.antt =====
-- One timeout of gtkconsole.cc while the guest writes nothing: what its rows leave of the marks, the
-- counter and the colours.
use vx68k_v.Base.{
  ℕ, suc, ◌+◌, ◌≤◌, ◌<◌, ◌≡◌, ◌≢◌, refl, ap, ◌∙◌, inl, inr, Bool, false, arith, ◌==◌, Bool-cases,
  ==-eq, ==-ne, ==-true, ==-false, sub32, ◌⊎◌, word_32,
}
use vx68k_v.Base.Bus.{ok}
use vx68k_v.Palettes.{check_text_colors_modified}
use vx68k_v.Screen.{Display, height, screen_check_interval, begin_timeout, refresh_row}
use vx68k_v.Screen.Rows.{refresh_row-cases, drawn_row, unmarked}

-- What the rows of a timeout from `y` on leave: the planes, the colours and the counter, the marks
-- below and none from there on.
pub record Swept (n y : ℕ) (d e : Display) : Type 0 where
  pub buf_kept : e.vram.buf ≡ d.vram.buf
  pub palettes_kept : e.palettes ≡ d.palettes
  pub counter_kept : e.counter ≡ d.counter
  pub marks_below : (r : ℕ) → r < y → e.vram.marks r ≡ d.vram.marks r
  pub marks_gone : (r : ℕ) → y ≤ r → r < y + n → e.vram.marks r ≡ false

-- One row returns.
pub row-Swept :
    (u : Bool) (y : ℕ) (d : Display) → (e : Display) × (refresh_row u y d ≡ ok e) × Swept 1 y d e
row-Swept u y d = elim (refresh_row-cases u y d) [
  | inl (m, k) ↦ (
    drawn_row y (unmarked y d.vram) d,
    k,
    record {
      buf_kept = refl;
      palettes_kept = refl;
      counter_kept = refl;
      marks_below = λ r h. rw (==-false r y (omega (arith, h))) refl;
      marks_gone = λ r h l. rw (==-true r y (omega (arith, h, l))) refl;
    },
  )
  | inr (inl (m, t, k)) ↦ (
    drawn_row y d.vram d,
    k,
    record {
      buf_kept = refl;
      palettes_kept = refl;
      counter_kept = refl;
      marks_below = λ r h. refl;
      marks_gone = λ r h l. ap d.vram.marks (omega (arith, h, l)) ∙ m;
    },
  )
  | inr (inr (m, f, k)) ↦ (
    d,
    k,
    record {
      buf_kept = refl;
      palettes_kept = refl;
      counter_kept = refl;
      marks_below = λ r h. refl;
      marks_gone = λ r h l. ap d.vram.marks (omega (arith, h, l)) ∙ m;
    },
  )
]

pub Swept-next :
    (n y : ℕ) (d e f : Display) → Swept 1 y d e → Swept n (suc y) e f → Swept (suc n) y d f
Swept-next n y d e f s t = record {
  buf_kept = t.buf_kept ∙ s.buf_kept;
  palettes_kept = t.palettes_kept ∙ s.palettes_kept;
  counter_kept = t.counter_kept ∙ s.counter_kept;
  marks_below = λ r h. t.marks_below r (omega (arith, h)) ∙ s.marks_below r h;
  marks_gone = λ r h l. elim (Bool-cases (r == y)) [
    | inl e ↦
        let same : r ≡ y = ==-eq r y e in
        t.marks_below r (omega (arith, same)) ∙ s.marks_gone r h (omega (arith, same))
    | inr e ↦ t.marks_gone r (omega (arith, h, ==-ne r y e)) (omega (arith, l))
  ];
}

-- What a timeout leaves: the planes and the colours, no mark, and the counter one lower, or the
-- colours checked.
pub record Elapsed (d e : Display) : Type 0 where
  pub buf_kept : e.vram.buf ≡ d.vram.buf
  pub tpalette_kept : e.palettes.tpalette ≡ d.palettes.tpalette
  pub marks_gone : (r : ℕ) → r < height → e.vram.marks r ≡ false
  pub still : d.palettes.text_colors_modified ≡ false → e.palettes.text_colors_modified ≡ false
  pub counted :
      1 ≤ d.counter
      → d.counter < word_32
      → (e.palettes.text_colors_modified ≡ false) ⊎ ((e.counter + 1 ≡ d.counter) × (1 ≤ e.counter))

begun-vram : (d : Display) → (begin_timeout d).1.vram ≡ d.vram
unfolding begin_timeout
begun-vram d = ground arith

begun-tpalette : (d : Display) → (begin_timeout d).1.palettes.tpalette ≡ d.palettes.tpalette
unfolding begin_timeout check_text_colors_modified
begun-tpalette d = ground arith

begun-still :
    (d : Display)
    → d.palettes.text_colors_modified ≡ false
    → (begin_timeout d).1.palettes.text_colors_modified ≡ false
unfolding begin_timeout check_text_colors_modified
begun-still d h = ground arith

begun-counted :
    (d : Display)
    → 1 ≤ d.counter
    → d.counter < word_32
    → ((begin_timeout d).1.palettes.text_colors_modified ≡ false)
      ⊎ (((begin_timeout d).1.counter + 1 ≡ d.counter) × (1 ≤ (begin_timeout d).1.counter))
unfolding begin_timeout check_text_colors_modified
begun-counted d a b = elim (Bool-cases (sub32 d.counter 1 == 0)) [
  | inl e ↦ inl (rw e refl)
  | inr e ↦
      let ne : sub32 d.counter 1 ≢ 0 = ==-ne (sub32 d.counter 1) 0 e in
      inr (rw e (omega (arith, a, b), omega (arith, a, b, ne)))
]

pub begun-Elapsed : (d e : Display) → Swept height 0 (begin_timeout d).1 e → Elapsed d e
begun-Elapsed d e s = record {
  buf_kept = s.buf_kept ∙ ap (λ t. t.buf) (begun-vram d);
  tpalette_kept = ap (λ p. p.tpalette) s.palettes_kept ∙ begun-tpalette d;
  marks_gone = λ r h. s.marks_gone r (omega arith) h;
  still = λ m. ap (λ p. p.text_colors_modified) s.palettes_kept ∙ begun-still d m;
  counted = λ a b. elim (begun-counted d a b) [
    | inl m ↦ inl (ap (λ p. p.text_colors_modified) s.palettes_kept ∙ m)
    | inr (k, l) ↦ inr (omega (arith, k, s.counter_kept), omega (arith, l, s.counter_kept))
  ];
}

-- What is left after the last of some timeouts.
pub record Settled (d e : Display) : Type 0 where
  pub buf_kept : e.vram.buf ≡ d.vram.buf
  pub tpalette_kept : e.palettes.tpalette ≡ d.palettes.tpalette
  pub marks_gone : (r : ℕ) → r < height → e.vram.marks r ≡ false
  pub unmodified : e.palettes.text_colors_modified ≡ false

-- The colours are checked within `n` timeouts, or need not be.
abbrev pub IsNear : ℕ → Display → Type 0
IsNear n d =
    (d.palettes.text_colors_modified ≡ false)
    ⊎ ((1 ≤ d.counter) × (d.counter ≤ n) × (d.counter ≤ screen_check_interval))

pub Elapsed-IsNear : (n : ℕ) (d e : Display) → Elapsed d e → IsNear (suc n) d → IsNear n e
Elapsed-IsNear n d e s (inl m) = inl (s.still m)
Elapsed-IsNear n d e s (inr (a, b, c)) = elim (s.counted a (omega (arith, c))) [
  | inl m ↦ inl m
  | inr (k, l) ↦ inr (l, omega (arith, k, b), omega (arith, k, c))
]

pub begun-counter :
    (d : Display)
    → (1 ≤ d.counter) × (d.counter ≤ screen_check_interval)
    → (1 ≤ (begin_timeout d).1.counter) × ((begin_timeout d).1.counter ≤ screen_check_interval)
unfolding begin_timeout
begun-counter d h = ground arith
