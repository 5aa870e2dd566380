-- ===== src/Machine/Faults.antt =====
-- How `boot` of libvx68k/machine.cc handles the exceptions of a run of the processor: instructions of
-- line F, TRAP, and bus and address errors. The vector of a handler is read behind the frame.
use vx68k_v.Base.{
  ℕ, ◌+◌, ◌-◌, ◌*◌, ◌/◌, ◌%◌, ◌^◌, ◌≤◌, ◌<◌, ◌≡◌, ◌≢◌, ◌⊎◌, ◌∙◌, refl, ap, inl, inr, true, Option,
  none, some, ◌==◌, if◌then◌else◌, add32, sub32, word_32, arith, ==-true, ==-false, ==-eq, ==-ne,
  leb, leb-le, leb-gt, Bool-cases,
}
use vx68k_v.Dos.Machine.{Regs}
use vx68k_v.Iocs.{TrapMemory, StateRegister, Processor}
use vx68k_v.Iocs.Frame.{rte, rte_sr}

module _ (mm : TrapMemory) (cpu : StateRegister) where
  -- Where the next run starts, and with what; none passes the exception on.
  abbrev pub Rerun : Type 0
  Rerun = Option (ℕ × Processor mm)

  abbrev pub push_frame : (pc : ℕ) → Processor mm → Processor mm
  push_frame pc p =
      let up : Regs = cpu.set_supervisor_state true p.regs in
      let sp : ℕ = sub32 up.a7 6 in
      record {
        regs = record up { a7 = sp };
        mem = mm.put_16 sp (cpu.sr p.regs) (mm.put_32 (add32 sp 2) pc p.mem);
      }

  -- `illegal_instruction_exception`, at `pc`.
  unfoldable pub catch_illegal_instruction : (pc : ℕ) → Processor mm → Rerun
  catch_illegal_instruction pc p =
      let op : ℕ = mm.get_16 pc p.mem in
      let next : ℕ = add32 pc 2 in
      if op / 2 ^ 12 == 15
      then some (mm.get_32 (11 * 4) (push_frame pc p).mem, push_frame pc p)
      else if op / 2 ^ 4 == 0x4e4
      then some (mm.get_32 ((op % 16 + 32) * 4) (push_frame next p).mem, push_frame next p)
      else none

  -- `memory_exception`, with the run under way from `pc`.
  unfoldable pub catch_memory_exception : (vecno address status pc : ℕ) → Processor mm → Rerun
  catch_memory_exception vecno address status pc p =
      let vecaddr : ℕ = vecno * 4 in
      let addr : ℕ = mm.get_32 vecaddr p.mem in
      let up : Regs = cpu.set_supervisor_state true p.regs in
      let sp : ℕ = sub32 up.a7 14 in
      let m1 : mm.State = mm.put_32 (add32 sp 10) up.pc p.mem in
      let m2 : mm.State = mm.put_16 (add32 sp 8) (cpu.sr p.regs) m1 in
      let m3 : mm.State = mm.put_16 (add32 sp 6) (mm.get_16 up.pc m2) m2 in
      if addr == vecaddr + 0xfe0000
      then none
      else some (
        pc,
        record {
          regs = record up { a7 = sp; pc = addr };
          mem = mm.put_16 sp status (mm.put_32 (add32 sp 2) address m3);
        },
      )

  -- The run goes on at the entry of the vector, and the RTE of the handler comes back to `back` with
  -- the state register of before and the supervisor stack of before.
  abbrev pub Handles : (vector back : ℕ) → (p : Processor mm) → Rerun → Type 0
  Handles vector back p r =
      (q : Processor mm) × (r ≡ some (mm.get_32 (vector * 4) p.mem, q))
      × (rte_sr mm q ≡ cpu.sr p.regs)
      × ((rte mm q).regs.pc ≡ back)
      × ((rte mm q).regs.a7 ≡ (cpu.set_supervisor_state true p.regs).a7)

  -- The stack lies above the vectors, and the state register has 16 bits.
  pub record HasStack (p : Processor mm) : Type 0 where
    pub above : 0x406 ≤ (cpu.set_supervisor_state true p.regs).a7
    pub below : (cpu.set_supervisor_state true p.regs).a7 < word_32
    pub word : cpu.sr p.regs < 65536

  push_frame-Handles :
      (vector back : ℕ) (p : Processor mm)
      → HasStack p
      → vector < 0x100
      → back < word_32
      → Handles vector back p
          (some (mm.get_32 (vector * 4) (push_frame back p).mem, push_frame back p))
  push_frame-Handles vector back p h v w =
      let top : ℕ = (cpu.set_supervisor_state true p.regs).a7 in
      let sp : ℕ = top - 6 in
      let e6 : sub32 top 6 ≡ sp = omega (arith, h.above, h.below) in
      let e2 : add32 sp 2 ≡ sp + 2 = omega (arith, h.below) in
      let end : add32 sp 6 ≡ top = omega (arith, h.above, h.below) in
      let s : mm.State = mm.put_32 (sp + 2) back p.mem in
      let t : mm.State = mm.put_16 sp (cpu.sr p.regs) s in
      let vec : mm.get_32 (vector * 4) t ≡ mm.get_32 (vector * 4) p.mem =
        mm.get_32-put_16-Apart (vector * 4) sp (cpu.sr p.regs) s (inl (omega (arith, h.above, v)))
        ∙ mm.get_32-put_32-Apart (vector * 4) (sp + 2) back p.mem
            (inl (omega (arith, h.above, v))) in
      let pc : mm.get_32 (sp + 2) t ≡ back =
        mm.get_32-put_16-Apart (sp + 2) sp (cpu.sr p.regs) s (inr (omega arith))
        ∙ mm.get_32-put_32 (sp + 2) back p.mem w in
      rw (e6, e2, vec)
        (
          _,
          refl,
          mm.get_16-put_16 sp (cpu.sr p.regs) s h.word,
          ap (λ a. mm.get_32 a t) e2 ∙ pc,
          end,
        )

  -- With the stack above the vectors: an instruction of line F goes to the vector 11 and its handler
  -- comes back to it, TRAP #n goes to the vector 32 + n and its handler comes back behind it, and for
  -- any other instruction the exception is passed on.
  pub catch_illegal_instruction-Handles :
      (pc : ℕ) (p : Processor mm)
      → HasStack p
      → pc < word_32
      → mm.get_16 pc p.mem < 65536
      → ((0xf000 ≤ mm.get_16 pc p.mem) × Handles 11 pc p (catch_illegal_instruction pc p))
        ⊎ ((n : ℕ) × (n < 16)
            × (mm.get_16 pc p.mem ≡ 0x4e40 + n)
            × Handles (32 + n) (add32 pc 2) p (catch_illegal_instruction pc p))
        ⊎ ((mm.get_16 pc p.mem < 0x4e40
              ⊎ ((0x4e50 ≤ mm.get_16 pc p.mem) × (mm.get_16 pc p.mem < 0xf000)))
            × (catch_illegal_instruction pc p ≡ none))
  unfolding catch_illegal_instruction
  catch_illegal_instruction-Handles pc p h small word =
      let op : ℕ = mm.get_16 pc p.mem in
      elim (Bool-cases (leb 0xf000 op)) [
        | inl f ↦ inl (
          leb-le _ _ f,
          rw (==-true (op / 2 ^ 12) 15 (omega (arith, leb-le _ _ f, word)))
              (push_frame-Handles 11 pc p h (omega arith) small),
        )
        | inr g ↦
            let line : op / 2 ^ 12 ≢ 15 = omega (arith, leb-gt _ _ g) in
            elim (Bool-cases (op / 2 ^ 4 == 0x4e4)) [
              | inl t ↦
                  let e : op / 2 ^ 4 ≡ 0x4e4 = ==-eq _ _ t in
                  let l : op % 16 < 16 = omega arith in
                  let vec : op % 16 + 32 ≡ 32 + op % 16 = omega arith in
                  inr (
                    inl (
                      op % 16,
                      l,
                      omega (arith, e),
                      rw (==-false (op / 2 ^ 12) 15 line, t, vec)
                          (push_frame-Handles (32 + op % 16) (add32 pc 2) p h (omega arith)
                            (omega arith)),
                    ))
              | inr t ↦
                  let ne : op / 2 ^ 4 ≢ 0x4e4 = ==-ne _ _ t in
                  inr (
                    inr (
                      ground (arith, ne, leb-gt _ _ g),
                      rw (==-false (op / 2 ^ 12) 15 line, t) refl,
                    ))
            ]
      ]

  -- After a bus or address error with an installed handler the run starts again where it had started,
  -- whatever the entry of the handler, which is only left in %pc.
  catch_memory_exception-pc :
      (vecno address status pc : ℕ) (p : Processor mm)
      → mm.get_32 (vecno * 4) p.mem ≢ vecno * 4 + 0xfe0000
      → (q : Processor mm) × (catch_memory_exception vecno address status pc p ≡ some (pc, q))
        × (q.regs.pc ≡ mm.get_32 (vecno * 4) p.mem)
  unfolding catch_memory_exception
  catch_memory_exception-pc vecno address status pc p ne =
      rw (==-false (mm.get_32 (vecno * 4) p.mem) (vecno * 4 + 0xfe0000) ne) (_, refl, refl)
