-- ===== src/Dos/Reach.antt =====
-- The states that a program under dos.cc comes to, and the end of its context in doscontext.cc.
use vx68k_v.Base.{ℕ, suc, ◌<◌, ◌≡◌, none}
use vx68k_v.Allocator.Memory.{MemoryMap}
use vx68k_v.Console.{Console}
use vx68k_v.Files.{destroy}
use vx68k_v.Files.Counts.{Returns, IsGone}
use vx68k_v.Files.Device.{Outside}
use vx68k_v.Files.Handles.{IsSound}
use vx68k_v.Files.Sessions.{destroy-IsCounted}
use vx68k_v.Dos.Machine.{Regs, Cpu, ExecContext, next}
use vx68k_v.Dos.Table.{DosCall, execute}
use vx68k_v.Dos.Handles.{Safe, execute-Safe}

module _ (mm : MemoryMap) {Host : Type 0} (out : Outside mm.State Host)
    (cpu : Cpu mm.State Host) where
  -- A DOS call, or anything between two of them: other instructions change the registers and the
  -- memory, and the host and the console change on their own.
  pub data Reaches : ExecContext mm.State Host → ExecContext mm.State Host → Type 0 where
    here : (m : ExecContext mm.State Host) → Reaches m m
    call :
        (k : DosCall) (m n n' : ExecContext mm.State Host)
        → Reaches m n
        → execute mm out cpu k n ≡ next n'
        → Reaches m n'
    program :
        (m n : ExecContext mm.State Host) (r : Regs) (mem : mm.State) (h : Host) (c : Console)
        → Reaches m n
        → Reaches m
            (record n { regs = r; heap = record n.heap { mem = mem }; host = h; console = c })

  Reaches-IsSound :
      (m n : ExecContext mm.State Host) → IsSound m.files → Reaches m n → IsSound n.files
  Reaches-IsSound m _ w (here _) = w
  Reaches-IsSound m _ w (call k _ n n' r e) =
      let safe : Safe (execute mm out cpu k n) =
        execute-Safe mm out cpu k n (Reaches-IsSound m n w r) in
      rw e at safe
  Reaches-IsSound m _ w (program _ n r mem h c p) = Reaches-IsSound m n w p

  -- In every state that a program reaches from sound handles, no DOS call of the table (all but
  -- _SUPER_JSR) fails an assertion, a call that returns leaves the handles in step with the counts, and
  -- the destructor of the context succeeds, leaves no entry in the map of files, and with it the
  -- descriptor of each file of the host that was ever opened has been closed.
  pub Reaches-Safe :
      (m n : ExecContext mm.State Host)
      → IsSound m.files
      → Reaches m n
      → ((k : DosCall) → Safe (execute mm out cpu k n))
        × Returns
            (λ s.
              ((f : ℕ) → s.files (suc f) ≡ none)
              × ((f : ℕ) → suc f < s.next → IsGone (s.object (suc f)) s.closed))
            (destroy n.files)
  Reaches-Safe m n w r =
      let v = Reaches-IsSound m n w r in
      let (s, e, k) = destroy-IsCounted n.files v in
      ((λ k. execute-Safe mm out cpu k n v), (s, e, (k.counts, λ f l. k.gone f l (k.counts f))))
