-- ===== src/Loader/Relocated.antt =====
-- What the fix-ups of `load_executable` in doscontext.cc leave in memory.
use vx68k_v.Base.{
  ℕ, ◌+◌, ◌≤◌, ◌≡◌, ◌∙◌, refl, ap, sym, ◌⊎◌, inl, inr, List, [], ◌∷◌, arith, add32, word_32, length,
}
use mathlib.Core.Path.{subst}
use vx68k_v.Loader.{LoadMemory, done, fix_up, fix_ups}
use vx68k_v.Loader.Fixups.{AreOffsets, encode, relocate_all, fix_ups-encode}

-- The addresses of the fix-ups.
abbrev pub sites : (address : ℕ) → List ℕ → List ℕ
sites address [] = []
sites address (d ∷ ds) = add32 address d ∷ sites (add32 address d) ds

-- The long words follow each other below the end of the address space, each behind the last.
abbrev pub Spaced : (address : ℕ) → List ℕ → Type 0
Spaced address [] = Unit {0}
Spaced address (d ∷ ds) = (4 ≤ d) × (address + d + 4 ≤ word_32) × Spaced (address + d) ds

-- A long word at `a` has no byte of the long words at the addresses.
abbrev pub Apart : ℕ → List ℕ → Type 0
Apart a [] = Unit {0}
Apart a (x ∷ xs) = ((a + 4 ≤ x) ⊎ (x + 4 ≤ a)) × Apart a xs

Apart-below :
    (a address : ℕ) (ds : List ℕ) → a ≤ address → Spaced address ds → Apart a (sites address ds)
Apart-below a address [] h k = tt
Apart-below a address (d ∷ ds) h k =
    let e : add32 address d ≡ address + d = omega (arith, k.1) in
    rw e (inl (omega (arith, h, k.0)), Apart-below a (address + d) ds (omega (arith, h)) k.2)

module _ (mm : LoadMemory) where
  -- Each long word has `delta` added.
  abbrev pub Fixed : (delta : ℕ) → (s t : mm.State) → List ℕ → Type 0
  Fixed delta s t [] = Unit {0}
  Fixed delta s t (x ∷ xs) = (mm.get_32 x t ≡ add32 (mm.get_32 x s) delta) × Fixed delta s t xs

  fix_up-Apart :
      (delta x a : ℕ) (s : mm.State)
      → x + 4 ≤ word_32
      → a + 4 ≤ word_32
      → (a + 4 ≤ x) ⊎ (x + 4 ≤ a)
      → mm.get_32 a (fix_up mm delta x s) ≡ mm.get_32 a s
  fix_up-Apart delta x a s h k (inl l) = mm.get-put_below a x (add32 (mm.get_32 x s) delta) s l h
  fix_up-Apart delta x a s h k (inr g) = mm.get-put_above a x (add32 (mm.get_32 x s) delta) s g k

  relocate_all-Apart :
      (delta address a : ℕ) (ds : List ℕ) (s : mm.State)
      → Spaced address ds
      → a + 4 ≤ word_32
      → Apart a (sites address ds)
      → mm.get_32 a (relocate_all mm delta address ds s) ≡ mm.get_32 a s
  relocate_all-Apart delta address a [] s k l p = refl
  relocate_all-Apart delta address a (d ∷ ds) s k l p =
      let e : add32 address d ≡ address + d = omega (arith, k.1) in
      let q = rw e at p in
      rw e (
        relocate_all-Apart delta (address + d) a ds (fix_up mm delta (address + d) s) k.2 l q.1
        ∙ fix_up-Apart delta (address + d) a s k.1 l q.0)

  -- Long words that the fix-up at `x` below them leaves alone.
  Fixed-above :
      (delta address x : ℕ) (ds : List ℕ) (s t : mm.State)
      → x ≤ address
      → x + 4 ≤ word_32
      → Spaced address ds
      → Fixed delta (fix_up mm delta x s) t (sites address ds)
      → Fixed delta s t (sites address ds)
  Fixed-above delta address x [] s t h l k f = tt
  Fixed-above delta address x (d ∷ ds) s t h l k f =
      let e : add32 address d ≡ address + d = omega (arith, k.1) in
      let g = rw e at f in
      rw e (
        g.0
            ∙ ap (λ v. add32 v delta)
                (fix_up-Apart delta x (address + d) s l k.1 (inr (omega (arith, h, k.0)))),
        Fixed-above delta (address + d) x ds s t (omega (arith, h)) l k.2 g.1,
      )

  fixes_all :
      (delta address : ℕ) (ds : List ℕ) (s : mm.State)
      → Spaced address ds
      → Fixed delta s (relocate_all mm delta address ds s) (sites address ds)
  fixes_all delta address [] s k = tt
  fixes_all delta address (d ∷ ds) s k =
      let e : add32 address d ≡ address + d = omega (arith, k.1) in
      let u : mm.State = fix_up mm delta (address + d) s in
      subst (λ x. Fixed delta s (relocate_all mm delta x ds (fix_up mm delta x s)) (x ∷ sites x ds))
        (sym e)
        (
          relocate_all-Apart delta (address + d) (address + d) ds u k.2 k.1
                (Apart-below (address + d) (address + d) ds (omega arith) k.2)
              ∙ mm.get-put_self (address + d) (add32 (mm.get_32 (address + d) s) delta) s
                  (omega arith),
          Fixed-above delta (address + d) (address + d) ds s
              (relocate_all mm delta (address + d) ds u) (omega arith) k.1 k.2
              (fixes_all delta (address + d) ds u k.2),
        )

  -- A table that encodes even offsets of 4 at least, with every long word below the end of the
  -- address space: with a round for each byte of the table the loop returns, `delta` is added to the
  -- long word at each of the addresses, modulo 2^32, and a long word that shares no byte with those
  -- is as it was.
  pub fix_ups-Fixed :
      (fuel delta address : ℕ) (ds : List ℕ) (s : mm.State)
      → AreOffsets ds
      → Spaced address ds
      → length (encode ds) ≤ fuel
      → (t : mm.State) × (fix_ups mm fuel delta address (encode ds) s ≡ done t)
        × Fixed delta s t (sites address ds)
        × ((a : ℕ) → a + 4 ≤ word_32 → Apart a (sites address ds) → mm.get_32 a t ≡ mm.get_32 a s)
  fix_ups-Fixed fuel delta address ds s o k f = (
    relocate_all mm delta address ds s,
    fix_ups-encode mm fuel delta address ds s o f,
    fixes_all delta address ds s k,
    λ a l p. relocate_all-Apart delta address a ds s k l p,
  )
