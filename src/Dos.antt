-- ===== src/Dos.antt =====
-- libvx68kdos/dos.cc: the DOS calls, from their arguments on the stack to the result in %d0.
pub mod Machine
pub mod NameCheck
pub mod Table
pub mod Handles
pub mod Reach
pub mod Super
mod Examples
use vx68k_v.Base.{
  ℕ, suc, ◌+◌, ◌-◌, ◌*◌, ◌%◌, ◌<◌, Bool, true, false, ◌&&◌, ◌||◌, List, [], ◌∷◌, Option, none, some,
  ◌==◌, ltb, leb, length, if◌then◌else◌, add32, sub32, minus, word_32,
}
use vx68k_v.Base.Int.{ℤ, pos, negsuc}
use vx68k_v.Base.Bus.{Result, ok, bus_error, out_of_bounds}
use vx68k_v.Allocator.Memory.{MemoryMap}
use vx68k_v.Allocator.{Allocator, alloc, resize}
use vx68k_v.Clock.{Tm}
use vx68k_v.FileName.{export_file_name, take}
use vx68k_v.Files.{Context, nfiles, find_null, HostOpen, close, dup, open_file, create}
use vx68k_v.Files.Device.{Outside, World, read, write, fgetc, fputc, fputs, seek}
use Prim.Native.Nat.{bit_or}
use Machine.{
  Regs, Stat, found, stat_not_permitted, stat_not_found, Cpu, ExecContext, Fault, assertion,
  out_of_range, bus, undefined, endless, Outcome, next, quit_loop, fails, long, step_pc, returns,
  returns_files, world, with_world, returns_world, returns_heap,
}

-- `strcasecmp` with "con" is 0.
abbrev pub lower : ℕ → ℕ
lower x = if leb 0x41 x && leb x 0x5a then x + 0x20 else x

abbrev pub is_con : List ℕ → Bool
is_con (c ∷ o ∷ n ∷ []) = (lower c == 0x63) && ((lower o == 0x6f) && (lower n == 0x6e))
is_con s = false

-- The attributes of `file_system::chmod`.
abbrev pub attributes : Stat → ℤ
attributes stat_not_permitted = negsuc 18
attributes stat_not_found = negsuc 1
attributes (found is_dir writable) =
    pos ((if is_dir then 0x10 else 0x20) + (if writable then 0 else 1))

-- The 16 bits of an argument as a signed number.
abbrev pub svalue_16 : ℕ → ℤ
svalue_16 n = if ltb n 0x8000 then pos n else negsuc (0xffff - n)

abbrev pub svalue_32 : ℕ → ℤ
svalue_32 n = if ltb n 0x80000000 then pos n else negsuc (0xffffffff - n)

module _ (mm : MemoryMap) {Host : Type 0} (out : Outside mm.State Host)
    (cpu : Cpu mm.State Host) where
  abbrev State : Type 0
  State = ExecContext mm.State Host

  -- The arguments on the stack.
  abbrev pub arg_16 : ℕ → State → ℕ
  arg_16 k m = cpu.get_16 (add32 m.regs.a7 k) m.heap.mem

  abbrev pub arg_32 : ℕ → State → ℕ
  arg_32 k m = mm.get_32 (add32 m.regs.a7 k) m.heap.mem

  abbrev pub string_at : ℕ → State → (List ℕ → Outcome mm.State Host) → Outcome mm.State Host
  string_at address m k = elim (out.get_string address m.heap.mem) [
    | ok s ↦ k s
    | bus_error a d fc ↦ fails bus
    | out_of_bounds ↦ fails undefined
  ]

  unfoldable pub dos_chmod : State → Outcome mm.State Host
  dos_chmod m = string_at (arg_32 0 m) m (λ s. elim (export_file_name s) [
    | none ↦ fails out_of_range
    | some name ↦ returns (long (attributes (cpu.host_stat name m.host))) m
  ])

  unfoldable pub dos_close : State → Outcome mm.State Host
  dos_close m = returns_files (close (arg_16 0 m) m.files) m

  -- The end of `_CREATE` and `_OPEN`.
  abbrev pub creates : HostOpen × Host → State → Outcome mm.State Host
  creates (h, u) m = returns_files (some (create h m.files)) (record m { host = u })

  abbrev pub opens : (mode : ℕ) → HostOpen × Host → State → Outcome mm.State Host
  opens mode (h, u) m =
      returns_files (some (open_file false h mode m.files)) (record m { host = u })

  unfoldable pub dos_create : State → Outcome mm.State Host
  dos_create m =
      if find_null m.files.files == nfiles
      then returns (long (negsuc 3)) m
      else string_at (arg_32 0 m) m (λ s. elim (export_file_name s) [
        | none ↦ fails out_of_range
        | some name ↦ creates (cpu.host_creat name m.host) m
      ])

  -- The name is exported and the host asked only where the mode and the name call for it.
  unfoldable pub dos_open : State → Outcome mm.State Host
  dos_open m =
      let mode : ℕ = arg_16 4 m in
      if find_null m.files.files == nfiles
      then returns (long (negsuc 3)) m
      else string_at (arg_32 0 m) m (λ s.
        if ltb 2 (mode % 16)
        then returns (long (negsuc 11)) m
        else if is_con s
        then returns_files (some (open_file true HostOpen.not_found mode m.files)) m
        else elim (export_file_name s) [
          | none ↦ fails out_of_range
          | some name ↦ opens mode (cpu.host_open name (mode % 16) m.host) m
        ])

  unfoldable pub dos_dup : State → Outcome mm.State Host
  dos_dup m = returns_files (dup (arg_16 0 m) m.files) m

  -- `_DELETE`, `_FILEDATE`, `_INTVCS` and `_IOCTRL` give 0.
  unfoldable pub dos_zero : State → Outcome mm.State Host
  dos_zero m = returns 0 m

  unfoldable pub dos_fflush : State → Outcome mm.State Host
  dos_fflush m = step_pc m

  unfoldable pub dos_exit2 : State → Outcome mm.State Host
  dos_exit2 m = quit_loop (arg_16 0 m)

  unfoldable pub dos_fgetc : State → Outcome mm.State Host
  dos_fgetc m = returns_world (fgetc out (arg_16 0 m) m.files (world m)) m

  unfoldable pub dos_getc : State → Outcome mm.State Host
  dos_getc m = returns_world (fgetc out 0 m.files (world m)) m

  unfoldable pub dos_fputs : State → Outcome mm.State Host
  dos_fputs m = returns_world (fputs out (arg_32 0 m) (arg_16 4 m) m.files (world m)) m

  -- `_PRINT` and `_PUTCHAR` give 0 whatever the file gives.
  abbrev pub returns_zero : Outcome mm.State Host → Outcome mm.State Host
  returns_zero (next m) = next (record m { regs = record m.regs { d0 = 0 } })
  returns_zero (quit_loop status) = quit_loop status
  returns_zero (fails f) = fails f

  unfoldable pub dos_print : State → Outcome mm.State Host
  dos_print m = returns_zero (returns_world (fputs out (arg_32 0 m) 1 m.files (world m)) m)

  unfoldable pub dos_putchar : State → Outcome mm.State Host
  dos_putchar m = returns_zero (returns_world (fputc out (arg_16 0 m) 1 m.files (world m)) m)

  unfoldable pub dos_read : State → Outcome mm.State Host
  dos_read m = returns_world (read out (arg_16 0 m) (arg_32 2 m) (arg_32 6 m) m.files (world m)) m

  unfoldable pub dos_write : State → Outcome mm.State Host
  dos_write m = returns_world (write out (arg_16 0 m) (arg_32 2 m) (arg_32 6 m) m.files (world m)) m

  unfoldable pub dos_seek : State → Outcome mm.State Host
  dos_seek m =
      returns_world (seek out (arg_16 0 m) (svalue_32 (arg_32 2 m)) (arg_16 6 m) m.files (world m))
        m

  unfoldable pub dos_getdate : State → Outcome mm.State Host
  dos_getdate m =
      let lt : Tm = cpu.localtime m.host in
      let date : ℕ =
        bit_or
          (bit_or (bit_or (lt.tm_wday * 65536) (sub32 lt.tm_year 80 * 512 % word_32))
            ((lt.tm_mon + 1) * 32))
          lt.tm_mday in
      returns date m

  unfoldable pub dos_gettim2 : State → Outcome mm.State Host
  dos_gettim2 m =
      let lt : Tm = cpu.localtime m.host in
      returns (bit_or (bit_or (lt.tm_hour * 65536) (lt.tm_min * 256)) lt.tm_sec) m

  -- The addresses of the name and the buffer are read as 16 bits. A value keeps 255 bytes.
  unfoldable pub dos_getenv : State → Outcome mm.State Host
  dos_getenv m = string_at (arg_16 0 m) m (λ name.
      let value : List ℕ = elim (cpu.host_getenv name m.host) [ none ↦ [] | some v ↦ v ] in
      returns 0 (record m {
        heap = record m.heap { mem = cpu.put_string (arg_16 8 m) (take 255 value) m.heap.mem };
      }))

  unfoldable pub dos_getpdb : State → Outcome mm.State Host
  dos_getpdb m = returns m.current_pdb m

  unfoldable pub dos_malloc : State → Outcome mm.State Host
  dos_malloc m = returns_heap (alloc mm (arg_32 0 m) m.current_pdb m.heap) m

  unfoldable pub dos_setblock : State → Outcome mm.State Host
  dos_setblock m = returns_heap (resize mm (arg_32 0 m) (arg_32 4 m) m.heap) m

  unfoldable pub dos_vernum : State → Outcome mm.State Host
  dos_vernum m = returns 0x36380302 m

  -- `_SUPER`, on whether the argument `stack` is 0 and the supervisor state is set.
  abbrev pub supervise : (is_zero supervisor : Bool) → (stack : ℕ) → State → Outcome mm.State Host
  supervise false true stack m = step_pc (record m {
    regs = cpu.set_supervisor_state false (record m.regs { usp = m.regs.a7; a7 = stack });
  })
  supervise false false stack m = step_pc m
  supervise true true stack m = returns (minus 26) m
  supervise true false stack m =
      let up : Regs = cpu.set_supervisor_state true m.regs in
      step_pc (record m { regs = record up { d0 = up.a7; a7 = up.usp } })

  unfoldable pub dos_super : State → Outcome mm.State Host
  dos_super m = supervise (arg_32 0 m == 0) m.regs.supervisor (arg_32 0 m) m
