-- ===== src/Dos/Examples.antt =====
-- The theorems on the DOS calls of dos.cc at a program with a few calls.
use vx68k_v.Base.{◌<◌, ℕ, suc, ◌≡◌, refl, Bool, false, [], ◌∷◌, none, some, length}
use vx68k_v.Base.Bus.{ok}
use vx68k_v.Allocator.Memory.{word_memory}
use vx68k_v.TextVram.{blank}
use vx68k_v.Files.{opened, not_found, destroy}
use vx68k_v.Files.Counts.{IsGone, Returns}
use vx68k_v.Files.Device.{Outside}
use vx68k_v.Files.Sessions.{started, started-IsSound}
use vx68k_v.Dos.Machine.{Regs, stat_not_found, Cpu, ExecContext}
use vx68k_v.Dos.{dos_super, dos_vernum}
use vx68k_v.Dos.Table.{DosCall, call_vernum, execute}
use vx68k_v.Dos.Handles.{Safe}
use vx68k_v.Dos.Reach.{Reaches, here, call, Reaches-Safe}
use vx68k_v.Dos.Super.{SwitchesStack, Supervises, dos_super-Supervises}

abbrev outside : Outside (ℕ → ℕ) (Unit {0})
outside = record {
  mem_read = λ a n m. ok (0x41 ∷ []);
  mem_write = λ a s m. ok m;
  get_string = λ a m. ok (0x41 ∷ []);
  host_read = λ fd n h. (none, h);
  host_write = λ fd s h. (some (length s), h);
  host_seek = λ fd o k h. (none, h);
  glyphs = record { k16 = λ c i. 0x55; b16 = λ c i. 0xf0 };
}

abbrev switch : Bool → Regs → Regs
switch s r = record r { a7 = r.usp; usp = r.a7; supervisor = s }

-- Every word on the stack is 1.
abbrev cpu : Cpu (ℕ → ℕ) (Unit {0})
cpu = record {
  get_16 = λ a m. 1;
  put_string = λ a s m. m;
  set_supervisor_state = switch;
  host_open = λ name flags h. (opened 3, h);
  host_creat = λ name h. (not_found, h);
  host_stat = λ name h. stat_not_found;
  host_getenv = λ name h. none;
  localtime = λ h. record {
    tm_sec = 0;
    tm_min = 0;
    tm_hour = 0;
    tm_mday = 1;
    tm_mon = 0;
    tm_year = 100;
    tm_wday = 6;
  };
}

abbrev fresh : ExecContext (ℕ → ℕ) (Unit {0})
fresh = record {
  regs = record { d0 = 0; a7 = 0x9000; usp = 0x8000; pc = 0x7000; supervisor = false };
  files = started;
  heap = record { mem = λ a. 0; limit = 0x100000; root_block = 0x8000; last_block = 0x8000 };
  host = tt;
  console = record { curx = 0; cury = 0; saved_byte1 = 0; tvram = blank };
  current_pdb = 0x8010;
}

-- The program has asked for the version.
abbrev asked : ExecContext (ℕ → ℕ) (Unit {0})
asked = record fresh { regs = record fresh.regs { d0 = 0x36380302; pc = 0x7002 } }

asks : Reaches word_memory outside cpu fresh asked
unfolding execute dos_vernum
asks = call call_vernum fresh fresh asked (here fresh) refl

Reaches-Safe_example :
    ((k : DosCall) → Safe (execute word_memory outside cpu k asked))
    × Returns
        (λ s.
          ((f : ℕ) → s.files (suc f) ≡ none)
          × ((f : ℕ) → suc f < s.next → IsGone (s.object (suc f)) s.closed))
        (destroy started)
Reaches-Safe_example = Reaches-Safe word_memory outside cpu fresh asked started-IsSound asks

switch-SwitchesStack : SwitchesStack switch
switch-SwitchesStack = record {
  enters = λ r e. refl;
  enters_usp = λ r e. refl;
  enters_pc = λ r e. refl;
  leaves = λ r e. refl;
  leaves_a7 = λ r e. refl;
  leaves_pc = λ r e. refl;
}

dos_super-Supervises_example :
    Supervises word_memory outside cpu fresh (dos_super word_memory outside cpu fresh)
dos_super-Supervises_example =
    dos_super-Supervises word_memory outside cpu switch-SwitchesStack fresh
