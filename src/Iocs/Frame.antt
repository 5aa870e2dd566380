-- ===== src/Iocs/Frame.antt =====
-- The stack frames that `iocs_trap` of systemrom.cc leaves for a handler that a program has
-- installed, and the way back from it.
use vx68k_v.Base.{
  ℕ, ◌+◌, ◌-◌, ◌*◌, ◌%◌, ◌≤◌, ◌<◌, ◌≡◌, ◌∙◌, refl, ap, inr, true, some, ==-false, add32, sub32,
  word_32, arith, ◌≢◌,
}
use vx68k_v.Iocs.{TrapMemory, StateRegister, Processor, Handler, rom_get_16, push_call, iocs_trap}

module _ (mm : TrapMemory) where
  -- The instructions RTS, and RTE up to the state register that it takes from the stack.
  abbrev pub rts : Processor mm → Processor mm
  rts p = record p {
    regs = record p.regs { pc = mm.get_32 p.regs.a7 p.mem; a7 = add32 p.regs.a7 4 };
  }

  abbrev pub rte_sr : Processor mm → ℕ
  rte_sr p = mm.get_16 p.regs.a7 p.mem

  abbrev pub rte : Processor mm → Processor mm
  rte p = record p {
    regs = record p.regs { pc = mm.get_32 (add32 p.regs.a7 2) p.mem; a7 = add32 p.regs.a7 6 };
  }

  -- The handler returns to 0xfe0000, where the ROM has an RTE, and that returns to the instruction behind the trap, with the
  -- state register of before the trap and the stack of before the frame.
  abbrev pub ComesBack : StateRegister → (p q : Processor mm) → Type 0
  ComesBack cpu p q =
      ((rts q).regs.pc ≡ 0xfe0000)
      × (rom_get_16 (rts q).regs.pc ≡ 0x4e73)
      × (rte_sr (rts q) ≡ cpu.sr p.regs)
      × ((rte (rts q)).regs.pc ≡ add32 p.regs.pc 2)
      × ((rte (rts q)).regs.a7 ≡ (cpu.set_supervisor_state true p.regs).a7)

  -- What is read back from the frame of a call.
  frame_fields :
      (sp v w : ℕ) (s : mm.State)
      → v < 65536
      → w < word_32
      → let t : mm.State = mm.put_32 sp 0xfe0000 (mm.put_16 (sp + 4) v (mm.put_32 (sp + 6) w s)) in
        (mm.get_32 sp t ≡ 0xfe0000) × (mm.get_16 (sp + 4) t ≡ v) × (mm.get_32 (sp + 6) t ≡ w)
  frame_fields sp v w s h k =
      let s1 : mm.State = mm.put_32 (sp + 6) w s in
      let s2 : mm.State = mm.put_16 (sp + 4) v s1 in
      (
        mm.get_32-put_32 sp 0xfe0000 s2 (omega arith),
        mm.get_16-put_32-Apart (sp + 4) sp 0xfe0000 s2 (inr (omega arith))
            ∙ mm.get_16-put_16 (sp + 4) v s1 h,
        mm.get_32-put_32-Apart (sp + 6) sp 0xfe0000 s2 (inr (omega arith))
            ∙ mm.get_32-put_16-Apart (sp + 6) (sp + 4) v s1 (inr (omega arith))
            ∙ mm.get_32-put_32 (sp + 6) w s k,
      )

  push_call-ComesBack :
      (cpu : StateRegister) (calls : ℕ → Handler mm) (handler : ℕ) (p : Processor mm)
      → cpu.sr p.regs < 65536
      → 10 ≤ (cpu.set_supervisor_state true p.regs).a7
      → (cpu.set_supervisor_state true p.regs).a7 < word_32
      → ComesBack cpu p (push_call mm cpu calls handler p)
  push_call-ComesBack cpu calls handler p h k l =
      let top : ℕ = (cpu.set_supervisor_state true p.regs).a7 in
      let frame =
        frame_fields (top - 10) (cpu.sr p.regs) (add32 p.regs.pc 2) p.mem h (omega arith) in
      let at_sr : top - 10 + 4 ≡ top - 6 = omega (arith, k) in
      let at_pc : top - 10 + 6 ≡ top - 4 = omega (arith, k) in
      let e0 : sub32 top 10 ≡ top - 10 = omega (arith, k, l) in
      let e4 : add32 (top - 10) 4 ≡ top - 6 = omega (arith, k, l) in
      let e6 : add32 (top - 10) 6 ≡ top - 4 = omega (arith, k, l) in
      let e2 : add32 (top - 6) 2 ≡ top - 4 = omega (arith, k, l) in
      let end : add32 (top - 6) 6 ≡ top = omega (arith, k, l) in
      let f = rw (at_sr, at_pc) at frame in
      rw (e0, e4, e6, e2, end) (f.0, ap rom_get_16 f.0, f.1, f.2, refl)

  -- Where the trap itself has no installed handler, the called function has one, and the
  -- supervisor's stack has room for the frame: the trap goes to the handler, and a handler that
  -- leaves the frame alone comes back by RTS and RTE to the instruction behind the trap.
  pub iocs_trap-ComesBack :
      (cpu : StateRegister) (calls : ℕ → Handler mm) (p : Processor mm)
      → cpu.sr p.regs < 65536
      → 10 ≤ (cpu.set_supervisor_state true p.regs).a7
      → (cpu.set_supervisor_state true p.regs).a7 < word_32
      → mm.get_32 0xbc p.mem ≡ 0xfe00bc
      → mm.get_32 ((p.regs.d0 % 256 + 0x100) * 4) p.mem ≢ (p.regs.d0 % 256 + 0x100) * 4 + 0xfe0000
      → (q : Processor mm) × (iocs_trap mm cpu calls p ≡ some q)
        × (q.regs.pc ≡ mm.get_32 ((p.regs.d0 % 256 + 0x100) * 4) p.mem)
        × ComesBack cpu p q
  unfolding iocs_trap
  iocs_trap-ComesBack cpu calls p h k l e n =
      rw
        (
          e,
          ==-false (mm.get_32 ((p.regs.d0 % 256 + 0x100) * 4) p.mem)
              ((p.regs.d0 % 256 + 0x100) * 4 + 0xfe0000) n,
        )
        (
          _,
          refl,
          refl,
          push_call-ComesBack cpu calls (mm.get_32 ((p.regs.d0 % 256 + 0x100) * 4) p.mem) p h k l,
        )
