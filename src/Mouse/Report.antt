-- ===== src/Mouse/Report.antt =====
-- What the IOCS calls of sccmem.cc report of the mouse.
use vx68k_v.Base.{
  ℕ, ◌-◌, ◌/◌, ◌%◌, ◌^◌, ◌≤◌, ◌<◌, ◌≡◌, ◌∙◌, refl, ap, inl, inr, Bool, true, false, [], ◌∷◌, some,
  arith, ltb, Bool-cases, if◌then◌else◌, bits, bits-bytes,
}
use vx68k_v.Base.Int.{ℤ, pos, negsuc, ◌-ℤ◌}
use vx68k_v.Mouse.{
  Mouse, limit, saturate, pack, low_bits, set_mouse_position, iocs_ms_getdt, iocs_ms_limit,
  iocs_ms_curgt,
}

-- A byte read as a signed number.
abbrev pub signed_8 : ℕ → ℤ
signed_8 b = if ltb b 128 then pos b else negsuc (255 - b)

signed_8-low_bits : (v : ℤ) → signed_8 (low_bits 8 (saturate v)) ≡ saturate v
unfolding saturate
signed_8-low_bits v = ground arith

low_bits-lt : (v : ℤ) → low_bits 8 v < 256
low_bits-lt (pos n) = omega arith
low_bits-lt (negsuc n) = omega arith

button_byte-lt : (b : Bool) → (if b then 0xff else 0) < 256
button_byte-lt true = omega arith
button_byte-lt false = omega arith

-- The long word of `_MS_GETDT` holds the horizontal and the vertical motion, each cut to the range
-- from -127 to 127 and readable as a signed byte, and a byte for each button that is 0xff if the
-- button is pressed and 0 if not.
pub iocs_ms_getdt-fields :
    (l r : Bool) (s : Mouse)
    → s.states ≡ l ∷ r ∷ []
    → (d : ℕ) × (iocs_ms_getdt s ≡ some d)
      × (signed_8 (bits d 24 8) ≡ saturate s.motion.x)
      × (signed_8 (bits d 16 8) ≡ saturate s.motion.y)
      × (bits d 8 8 ≡ (if l then 0xff else 0))
      × (bits d 0 8 ≡ (if r then 0xff else 0))
      × (d < 2 ^ 32)
unfolding iocs_ms_getdt pack
iocs_ms_getdt-fields l r s h =
    let a : ℕ = low_bits 8 (saturate s.motion.x) in
    let b : ℕ = low_bits 8 (saturate s.motion.y) in
    let small : (v : ℤ) → low_bits 8 (saturate v) < 256 = λ v. low_bits-lt (saturate v) in
    let (e₀, e₁, e₂, e₃, e₄) =
      bits-bytes a b (if l then 0xff else 0) (if r then 0xff else 0) (small s.motion.x)
        (small s.motion.y) (button_byte-lt l) (button_byte-lt r) in
    (
      pack l r s.motion,
      rw h refl,
      ap signed_8 e₀ ∙ signed_8-low_bits s.motion.x,
      ap signed_8 e₁ ∙ signed_8-low_bits s.motion.y,
      e₂,
      e₃,
      e₄,
    )

limit-pos :
    (a b : ℕ) (v : ℤ) → a < b → (n : ℕ) × (limit (pos a) (pos b) v ≡ pos n) × (a ≤ n) × (n < b)
unfolding limit ◌-ℤ◌
limit-pos a b (pos n) h = elim (Bool-cases (ltb n a)) [
  | inl low ↦ (a, ground arith, ground arith, ground arith)
  | inr high ↦ elim (Bool-cases (ltb n b)) [
    | inl in_range ↦ (n, ground arith, ground arith, ground arith)
    | inr above ↦ (b - 1, ground arith, ground arith, ground arith)
  ]
]
limit-pos a b (negsuc n) h = (a, ground arith, ground arith, ground arith)

-- After `_MS_LIMIT` with corners of 32 bits that leave at least one point, `_MS_CURGT` reports, for a position
-- set afterwards, its two coordinates in 16 bits each, and they are within the corners.
pub iocs_ms_limit-curgt :
    (tl br : ℕ) (x y : ℤ) (s : Mouse)
    → br < 2 ^ 32
    → tl / 65536 < br / 65536
    → tl % 65536 < br % 65536
    → let u = set_mouse_position x y (iocs_ms_limit tl br s) in
      let d = iocs_ms_curgt u in
      (u.position.x ≡ pos (bits d 16 16))
      × (u.position.y ≡ pos (bits d 0 16))
      × (tl / 65536 ≤ bits d 16 16)
      × (bits d 16 16 < br / 65536)
      × (tl % 65536 ≤ bits d 0 16)
      × (bits d 0 16 < br % 65536)
unfolding set_mouse_position iocs_ms_limit iocs_ms_curgt
iocs_ms_limit-curgt tl br x y s hb hx hy =
    let (m, em, lm, um) = limit-pos (tl / 65536) (br / 65536) x hx in
    let (n, en, ln, un) = limit-pos (tl % 65536) (br % 65536) y hy in rw (em, en) (ground arith)
