-- ===== src/Loader/Fixups.antt =====
-- The fix-up table of `load_executable` in doscontext.cc: how offsets are written in it, and the
-- loop that reads it.
use vx68k_v.Base.{
  ℕ, zero, suc, ◌+◌, ◌*◌, ◌/◌, ◌%◌, ◌≤◌, ◌<◌, ◌≡◌, ◌∙◌, refl, true, false, List, [], ◌∷◌, ◌++◌,
  ◌==◌, ==-true, ==-false, ltb, Bool-cases, inl, inr, length, length-append, arith, if◌then◌else◌,
  add32, word_32,
}
use vx68k_v.Loader.{LoadMemory, beyond_table, done, throw, next_offset, fix_up, fix_ups}

-- An offset below 0x10000 is a word, another a long word behind a 1.
abbrev pub entry : ℕ → List ℕ
entry d =
    if ltb d 0x10000
    then d / 256 ∷ d % 256 ∷ []
    else 0 ∷ 1 ∷ d / 16777216 ∷ d / 65536 % 256 ∷ d / 256 % 256 ∷ d % 256 ∷ []

abbrev pub encode : List ℕ → List ℕ
encode [] = []
encode (d ∷ ds) = entry d ++ encode ds

abbrev pub AreOffsets : List ℕ → Type 0
AreOffsets [] = Unit {0}
AreOffsets (d ∷ ds) = (d % 2 ≡ 0) × (d < word_32) × AreOffsets ds

next_offset-entry :
    (d : ℕ) (p : List ℕ) → d % 2 ≡ 0 → d < word_32 → next_offset (entry d ++ p) ≡ done (d, p)
unfolding next_offset
next_offset-entry d p e h = elim (Bool-cases (ltb d 0x10000)) [
  | inl short ↦
      let sum : d / 256 * 256 + d % 256 ≡ d = omega arith in
      rw (short, sum, ==-false d 1 (ground arith)) refl
  | inr long ↦
      let size : ltb (length (d / 16777216 ∷ d / 65536 % 256 ∷ d / 256 % 256 ∷ d % 256 ∷ p)) 4
          ≡ false =
        ground arith in
      let sum : (d / 16777216 * 256 + d / 65536 % 256) * 65536 + (d / 256 % 256 * 256 + d % 256)
          ≡ d =
        omega (arith, h) in
      rw (long, size, sum) refl
]

entry-length : (d : ℕ) → 2 ≤ length (entry d)
entry-length d = ground arith

empty_table : next_offset [] ≡ throw beyond_table
unfolding next_offset
empty_table = refl

-- What the loop is to do with a list of offsets.
module _ (mm : LoadMemory) where
  abbrev pub relocate_all : (delta address : ℕ) → List ℕ → mm.State → mm.State
  relocate_all delta address [] s = s
  relocate_all delta address (d ∷ ds) s =
      relocate_all delta (add32 address d) ds (fix_up mm delta (add32 address d) s)

  -- A round of the loop.
  fix_ups-step :
      (fuel delta address d : ℕ) (p q : List ℕ) (s : mm.State)
      → next_offset p ≡ done (d, q)
      → (d % 2 == 0) ≡ true
      → fix_ups mm (suc fuel) delta address p s
        ≡ fix_ups mm fuel delta (add32 address d) q (fix_up mm delta (add32 address d) s)
  unfolding fix_ups
  fix_ups-step fuel delta address d [] q s e even = let f = empty_table in cc
  fix_ups-step fuel delta address d (b ∷ p) q s e even = rw (e, even) refl

  -- A table that encodes even offsets below 2^32 is read to its end, with a round for each of its
  -- bytes at most, and the long words at the offsets are fixed up in turn.
  pub fix_ups-encode :
      (fuel delta address : ℕ) (ds : List ℕ) (s : mm.State)
      → AreOffsets ds
      → length (encode ds) ≤ fuel
      → fix_ups mm fuel delta address (encode ds) s ≡ done (relocate_all delta address ds s)
  unfolding fix_ups
  fix_ups-encode fuel delta address [] s o f = refl
  fix_ups-encode zero delta address (d ∷ ds) s o f =
      absurd (omega (arith, f, length-append (entry d) (encode ds), entry-length d))
  fix_ups-encode (suc fuel) delta address (d ∷ ds) s o f =
      fix_ups-step fuel delta address d (encode (d ∷ ds)) (encode ds) s
        (next_offset-entry d (encode ds) o.0 o.1) (==-true (d % 2) 0 o.0)
      ∙ fix_ups-encode fuel delta (add32 address d) ds (fix_up mm delta (add32 address d) s) o.2
          (omega (arith, f, length-append (entry d) (encode ds), entry-length d))
