-- ===== src/Dos/Machine.antt =====
-- What the DOS calls of libvx68kdos/dos.cc work on: the registers of `context`, the handles, the
-- memory allocator, and the host. What libvm68k, the C library and the host do is a parameter.
use vx68k_v.Base.{ℕ, ◌-◌, ◌%◌, Bool, List, Option, none, some, add32, word_32}
use vx68k_v.Base.Int.{ℤ, pos, negsuc}
use vx68k_v.Base.Bus.{Result, ok, bus_error, out_of_bounds}
use vx68k_v.Allocator.{Allocator}
use vx68k_v.Clock.{Tm}
use vx68k_v.Console.{Console}
use vx68k_v.Files.{Context, HostOpen}
use vx68k_v.Files.Device.{World}

-- The registers %d0, %a7, `usp` and %pc, and the supervisor state.
pub record Regs : Type 0 where
  pub d0 : ℕ
  pub a7 : ℕ
  pub usp : ℕ
  pub pc : ℕ
  pub supervisor : Bool

-- What `stat` and `access` find of a file.
pub data Stat : Type 0 where
  found : (is_dir writable : Bool) → Stat
  stat_not_permitted : Stat
  stat_not_found : Stat

-- Reads of 16 bits and writes of strings in the memory map, the change of the state of the
-- processor, and the calls of the host on names and times.
pub record Cpu (Mem Host : Type 0) : Type 0 where
  pub get_16 : ℕ → Mem → ℕ
  pub put_string : ℕ → List ℕ → Mem → Mem
  pub set_supervisor_state : Bool → Regs → Regs
  pub host_open : (name : List ℕ) → (flags : ℕ) → Host → HostOpen × Host
  pub host_creat : (name : List ℕ) → Host → HostOpen × Host
  pub host_stat : (name : List ℕ) → Host → Stat
  pub host_getenv : (name : List ℕ) → Host → Option (List ℕ)
  pub localtime : Host → Tm

pub record ExecContext (Mem Host : Type 0) : Type 0 where
  pub regs : Regs
  pub files : Context
  pub heap : Allocator Mem
  pub host : Host
  pub console : Console
  pub current_pdb : ℕ

-- How a call ends: it comes to the next instruction, it throws `quit_loop`, or it does not return.
pub data Fault : Type 0 where
  assertion : Fault
  out_of_range : Fault
  bus : Fault
  undefined : Fault
  endless : Fault

pub data Outcome (Mem Host : Type 0) : Type 0 where
  next : ExecContext Mem Host → Outcome Mem Host
  quit_loop : (status : ℕ) → Outcome Mem Host
  fails : Fault → Outcome Mem Host

-- A signed result as a long word.
abbrev pub long : ℤ → ℕ
long (pos n) = n % word_32
long (negsuc n) = word_32 - 1 - n % word_32

module _ {Mem Host : Type 0} where
  -- The end of a call: the result to %d0, and the next instruction.
  abbrev pub step_pc : ExecContext Mem Host → Outcome Mem Host
  step_pc m = next (record m { regs = record m.regs { pc = add32 m.regs.pc 2 } })

  abbrev pub returns : ℕ → ExecContext Mem Host → Outcome Mem Host
  returns v m = next (record m { regs = record m.regs { d0 = v; pc = add32 m.regs.pc 2 } })

  -- A call on a handle, with its context changed.
  abbrev pub returns_files : Option (ℤ × Context) → ExecContext Mem Host → Outcome Mem Host
  returns_files none m = fails assertion
  returns_files (some (v, c)) m = returns (long v) (record m { files = c })

  abbrev pub world : ExecContext Mem Host → World Mem Host
  world m = record { mem = m.heap.mem; host = m.host; console = m.console }

  abbrev pub with_world : World Mem Host → ExecContext Mem Host → ExecContext Mem Host
  with_world w m = record m {
    heap = record m.heap { mem = w.mem };
    host = w.host;
    console = w.console;
  }

  -- A call that reads or writes through a handle.
  abbrev pub returns_world : Result (ℤ × World Mem Host) → ExecContext Mem Host → Outcome Mem Host
  returns_world (ok (v, w)) m = returns (long v) (with_world w m)
  returns_world (bus_error a d fc) m = fails bus
  returns_world out_of_bounds m = fails undefined

  -- A call of the allocator.
  abbrev pub returns_heap : Option (ℕ × Allocator Mem) → ExecContext Mem Host → Outcome Mem Host
  returns_heap none m = fails endless
  returns_heap (some (v, a)) m = returns v (record m { heap = a })
