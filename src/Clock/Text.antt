-- ===== src/Clock/Text.antt =====
-- The text of the date and the time of systemrom.cc, and the size of its array.
use vx68k_v.Base.{
  ℕ, ◌%◌, ◌≤◌, ◌<◌, ◌≡◌, refl, List, length, arith, ◌==◌, ◌⊎◌, inl, inr, ltb, ltb-true, Bool-cases,
  if◌then◌else◌, bits,
}
use vx68k_v.Base.Bus.{Result, ok, out_of_bounds}
use vx68k_v.Clock.{iocs_dateasc, iocs_timeasc}

abbrev pub Returns : (List ℕ → Type 0) → Result (List ℕ) → Type 0
Returns P r = (text : List ℕ) × (r ≡ ok text) × P text

-- A month and a day of two digits give a text of ten characters, or of eight with a year of two
-- digits, which fits its array.
pub dateasc-fits :
    (d1 : ℕ)
    → bits d1 0 8 < 100
    → bits d1 8 8 < 100
    → Returns (λ text. length text ≡ (if ltb (bits d1 28 4 % 4) 2 then 10 else 8)) (iocs_dateasc d1)
unfolding iocs_dateasc
dateasc-fits d1 h₀ h₁ =
    let format : ℕ = bits d1 28 4 % 4 in
    let mday = ltb-true (bits d1 0 8) 100 h₀ in
    let mon = ltb-true (bits d1 8 8) 100 h₁ in
    let year = ltb-true (bits d1 16 12 % 100) 100 (omega arith) in
    elim (Bool-cases (format == 0)) [
      | inl long ↦ rw (mday, mon, year, long) (_, refl, ground arith)
      | inr other ↦ elim (Bool-cases (format == 1)) [
        | inl dash ↦ rw (mday, mon, year, other, dash) (_, refl, ground arith)
        | inr more ↦ elim (Bool-cases (format == 2)) [
          | inl short ↦ rw (mday, mon, year, other, more, short) (_, refl, ground arith)
          | inr last ↦ rw (mday, mon, year, other, more, last) (_, refl, ground arith)
        ]
      ]
    ]

-- An hour, a minute and a second of two digits give a text of eight characters, which fits its
-- array.
pub timeasc-fits :
    (d1 : ℕ)
    → bits d1 0 8 < 100
    → bits d1 8 8 < 100
    → bits d1 16 8 < 100
    → Returns (λ text. length text ≡ 8) (iocs_timeasc d1)
unfolding iocs_timeasc
timeasc-fits d1 h₀ h₁ h₂ =
    rw
      (ltb-true (bits d1 0 8) 100 h₀, ltb-true (bits d1 8 8) 100 h₁, ltb-true (bits d1 16 8) 100 h₂)
      (_, refl, refl)

-- A field of three digits makes `sprintf` write behind the end of the array.
pub timeasc-overflows :
    (d1 : ℕ)
    → (100 ≤ bits d1 0 8) ⊎ (100 ≤ bits d1 8 8) ⊎ (100 ≤ bits d1 16 8)
    → iocs_timeasc d1 ≡ out_of_bounds
unfolding iocs_timeasc
timeasc-overflows d1 h = ground arith
