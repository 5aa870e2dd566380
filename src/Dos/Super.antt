-- ===== src/Dos/Super.antt =====
-- The DOS call _SUPER of dos.cc, which enters the supervisor state and leaves it.
use vx68k_v.Base.{◌≡◌, refl, ap, sym, ◌∙◌, Bool, true, false, ◌==◌, add32}
use vx68k_v.Allocator.Memory.{MemoryMap}
use vx68k_v.Files.Device.{Outside}
use vx68k_v.Dos.Machine.{Regs, Cpu, ExecContext, Outcome, next}
use vx68k_v.Dos.{arg_32, supervise, dos_super}

-- `set_supervisor_state` of libvm68k exchanges the stack pointers where the state changes: the one
-- of the user is `usp` in the supervisor state.
pub record SwitchesStack (set_state : Bool → Regs → Regs) : Type 0 where
  pub enters : (r : Regs) → r.supervisor ≡ false → (set_state true r).supervisor ≡ true
  pub enters_usp : (r : Regs) → r.supervisor ≡ false → (set_state true r).usp ≡ r.a7
  pub enters_pc : (r : Regs) → r.supervisor ≡ false → (set_state true r).pc ≡ r.pc
  pub leaves : (r : Regs) → r.supervisor ≡ true → (set_state false r).supervisor ≡ false
  pub leaves_a7 : (r : Regs) → r.supervisor ≡ true → (set_state false r).a7 ≡ r.usp
  pub leaves_pc : (r : Regs) → r.supervisor ≡ true → (set_state false r).pc ≡ r.pc

module _ (mm : MemoryMap) {Host : Type 0} (out : Outside mm.State Host)
    (cpu : Cpu mm.State Host) where
  -- The call returns to the next instruction with the program's stack where it was, in the
  -- supervisor state where the argument is 0.
  abbrev pub Supervises : ExecContext mm.State Host → Outcome mm.State Host → Type 0
  Supervises m o =
      (n : ExecContext mm.State Host) × (o ≡ next n)
      × (n.regs.a7 ≡ m.regs.a7)
      × (n.regs.supervisor ≡ (arg_32 mm out cpu 0 m == 0))
      × (n.regs.pc ≡ add32 m.regs.pc 2)

  supervise-Supervises :
      SwitchesStack cpu.set_supervisor_state
      → (z s : Bool) (m : ExecContext mm.State Host) → (arg_32 mm out cpu 0 m == 0) ≡ z
      → m.regs.supervisor ≡ s
      → Supervises m (supervise mm out cpu z s (arg_32 mm out cpu 0 m) m)
  supervise-Supervises set false true m e f =
      let r : Regs = record m.regs { usp = m.regs.a7; a7 = arg_32 mm out cpu 0 m } in
      (_, refl, set.leaves_a7 r f, set.leaves r f ∙ sym e, ap (λ p. add32 p 2) (set.leaves_pc r f))
  supervise-Supervises set false false m e f = (_, refl, refl, f ∙ sym e, refl)
  supervise-Supervises set true true m e f = (_, refl, refl, f ∙ sym e, refl)
  supervise-Supervises set true false m e f = (
    _,
    refl,
    set.enters_usp m.regs f,
    set.enters m.regs f ∙ sym e,
    ap (λ p. add32 p 2) (set.enters_pc m.regs f),
  )

  -- With a `set_supervisor_state` that exchanges the stack pointers, `_SUPER` in any state returns
  -- to the next instruction with %a7 as before, in the supervisor state exactly if its argument is
  -- 0.
  pub dos_super-Supervises :
      SwitchesStack cpu.set_supervisor_state
      → (m : ExecContext mm.State Host) → Supervises m (dos_super mm out cpu m)
  unfolding dos_super
  dos_super-Supervises set m =
      supervise-Supervises set (arg_32 mm out cpu 0 m == 0) m.regs.supervisor m refl refl
