-- ===== src/Iocs/Vectors.antt =====
-- The vectors of systemrom.cc after `initialize`, and the calls that they lead to.
use vx68k_v.Base.{
  ℕ, zero, suc, ◌+◌, ◌*◌, ◌/◌, ◌%◌, ◌≤◌, ◌<◌, ◌≡◌, ◌∙◌, refl, ap, sym, inl, some, ◌>>=◌, eq_self,
  arith, add32, sub32, word_32,
}
use vx68k_v.Iocs.{
  TrapMemory, StateRegister, Processor, Handler, vectors, clear, initialize, call_iocs, iocs_trap,
  x68k_iocs,
}

module _ (mm : TrapMemory) where
  clear-below :
      (n i a : ℕ) (s : mm.State) → a + 4 ≤ i → mm.get_32 a (clear mm n i s) ≡ mm.get_32 a s
  clear-below zero i a s h = refl
  clear-below (suc n) i a s h =
      clear-below n (i + 4) a (mm.put_32 i 0 s) (omega (arith, h))
      ∙ mm.get_32-put_32-Apart a i 0 s (inl h)

  clear-at : (n i j : ℕ) (s : mm.State) → j < n → mm.get_32 (i + 4 * j) (clear mm n i s) ≡ 0
  clear-at zero i j s h = absurd (omega (arith, h))
  clear-at (suc n) i zero s h =
      ap (λ a. mm.get_32 a (clear mm n (i + 4) (mm.put_32 i 0 s))) (omega arith)
      ∙ clear-below n (i + 4) i (mm.put_32 i 0 s) (omega arith)
      ∙ mm.get_32-put_32 i 0 s (omega arith)
  clear-at (suc n) i (suc j) s h =
      ap (λ a. mm.get_32 a (clear mm n (i + 4) (mm.put_32 i 0 s))) (omega arith)
      ∙ clear-at n (i + 4) j (mm.put_32 i 0 s) (omega (arith, h))

  vectors-below :
      (n i f a : ℕ) (s : mm.State) → a + 4 ≤ i → mm.get_32 a (vectors mm n i f s) ≡ mm.get_32 a s
  vectors-below zero i f a s h = refl
  vectors-below (suc n) i f a s h =
      vectors-below n (i + 4) (f + 4) a (mm.put_32 i f s) (omega (arith, h))
      ∙ mm.get_32-put_32-Apart a i f s (inl h)

  vectors-at :
      (n i f j : ℕ) (s : mm.State)
      → j < n
      → f + 4 * n < word_32
      → mm.get_32 (i + 4 * j) (vectors mm n i f s) ≡ f + 4 * j
  vectors-at zero i f j s h k = absurd (omega (arith, h))
  vectors-at (suc n) i f zero s h k =
      ap (λ a. mm.get_32 a (vectors mm n (i + 4) (f + 4) (mm.put_32 i f s))) (omega arith)
      ∙ vectors-below n (i + 4) (f + 4) i (mm.put_32 i f s) (omega arith)
      ∙ mm.get_32-put_32 i f s (omega (arith, k))
      ∙ omega arith
  vectors-at (suc n) i f (suc j) s h k =
      ap (λ a. mm.get_32 a (vectors mm n (i + 4) (f + 4) (mm.put_32 i f s))) (omega arith)
      ∙ vectors-at n (i + 4) (f + 4) j (mm.put_32 i f s) (omega (arith, h)) (omega (arith, k))
      ∙ omega arith

  -- After `initialize` the long words below 0x800 hold their entries in the ROM, and those from
  -- 0x800 to 0x1000 hold 0.
  pub initialize-vectors :
      (j : ℕ) (s : mm.State)
      → (j < 0x200 → mm.get_32 (4 * j) (initialize mm s) ≡ 0xfe0000 + 4 * j)
        × (j < 0x200 → mm.get_32 (0x800 + 4 * j) (initialize mm s) ≡ 0)
  unfolding initialize
  initialize-vectors j s = (
    λ h.
        clear-below 0x200 0x800 (4 * j) (vectors mm 0x200 0 0xfe0000 s) (omega (arith, h))
        ∙ ap (λ a. mm.get_32 a (vectors mm 0x200 0 0xfe0000 s)) (omega arith)
        ∙ vectors-at 0x200 0 0xfe0000 j s h (omega arith),
    λ h. clear-at 0x200 0x800 j (vectors mm 0x200 0 0xfe0000 s) h,
  )

  -- On the vectors of `initialize`, a trap calls the function of the table that the low byte of %d0
  -- names, and so does a jump to the entry that the vector of this function holds; the one goes on
  -- behind the trap, the other returns to the address on the stack.
  pub iocs_trap-x68k_iocs :
      (cpu : StateRegister) (calls : ℕ → Handler mm) (n : ℕ) (p r : Processor mm) (s : mm.State)
      → p.mem ≡ initialize mm s
      → p.regs.d0 % 256 ≡ n
      → r.regs.pc ≡ mm.get_32 ((n + 0x100) * 4) (initialize mm s)
      → (iocs_trap mm cpu calls p ≡ (
          calls n p >>= λ q. some (record q { regs = record q.regs { pc = add32 q.regs.pc 2 } })))
        × (x68k_iocs mm cpu calls r ≡ (
            calls n r >>= λ q. some (record q {
              regs = record q.regs { pc = mm.get_32 q.regs.a7 q.mem; a7 = add32 q.regs.a7 4 };
            })))
  unfolding iocs_trap x68k_iocs call_iocs
  iocs_trap-x68k_iocs cpu calls n p r s e d f =
      let trap = (initialize-vectors 47 s).0 (omega arith) in
      let entry : mm.get_32 ((n + 0x100) * 4) (initialize mm s) ≡ (n + 0x100) * 4 + 0xfe0000 =
        ap (λ a. mm.get_32 a (initialize mm s)) (omega arith)
        ∙ (initialize-vectors (n + 0x100) s).0 (omega (arith, sym d))
        ∙ omega arith in
      let number : sub32 ((n + 0x100) * 4 + 0xfe0000) 0xfe0400 / 4 % 256 ≡ n =
        omega (arith, sym d) in
      let small : n % 256 ≡ n = omega (arith, sym d) in
      (
        rw (e, d, trap, entry, eq_self ((n + 0x100) * 4 + 0xfe0000), small) refl,
        rw (f, entry, number) refl,
      )
