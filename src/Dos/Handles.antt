-- ===== src/Dos/Handles.antt =====
-- A program that runs under dos.cc: its steps between DOS calls and the calls, with the handles of
-- doscontext.cc.
use vx68k_v.Base.{
  ℕ, ◌≢◌, Bool, true, false, List, Option, none, some, ◌==◌, ltb, Bool-cases, inl, inr, ◌%◌,
}
use vx68k_v.Base.Int.{ℤ}
use vx68k_v.Base.Bus.{Result, ok, bus_error, out_of_bounds}
use vx68k_v.Allocator.Memory.{MemoryMap}
use vx68k_v.Allocator.{Allocator, alloc, resize}
use vx68k_v.FileName.{export_file_name}
use vx68k_v.Files.{Context, HostOpen, nfiles, find_null, close, dup}
use vx68k_v.Files.Device.{Outside, World, fgetc, fputc, fputs}
use vx68k_v.Files.Handles.{
  IsSound, KeepsSound, close-IsSound, dup-IsSound, open_file-IsSound, create-IsSound,
}
use vx68k_v.Dos.Machine.{
  Cpu, ExecContext, assertion, out_of_range, bus, undefined, Outcome, next, quit_loop, fails,
  returns_files, world, returns_world, returns_heap,
}
use vx68k_v.Dos.{
  arg_16, arg_32, string_at, is_con, creates, opens, returns_zero, supervise, dos_chmod, dos_close,
  dos_create, dos_zero, dos_dup, dos_exit2, dos_fflush, dos_fgetc, dos_fputs, dos_getc, dos_getdate,
  dos_getenv, dos_getpdb, dos_gettim2, dos_malloc, dos_open, dos_print, dos_putchar, dos_read,
  dos_seek, dos_setblock, dos_super, dos_vernum, dos_write,
}
use vx68k_v.Dos.NameCheck.{dos_nameck}
use vx68k_v.Dos.Table.{
  DosCall, call_putchar, call_getc, call_print, call_fflush, call_fgetc, call_fputs, call_super,
  call_intvcs, call_gettim2, call_getdate, call_vernum, call_nameck, call_create, call_open,
  call_close, call_read, call_write, call_delete, call_seek, call_chmod, call_ioctrl, call_dup,
  call_malloc, call_setblock, call_exit2, call_getpdb, call_getenv, call_filedate, execute,
}

-- How a call may end: no assertion fails, and the handles are in step with the counts.
abbrev pub Safe : {Mem Host : Type 0} → Outcome Mem Host → Type 0
Safe (next m) = IsSound m.files
Safe (quit_loop status) = Unit {0}
Safe (fails f) = f ≢ assertion

module _ {Mem Host : Type 0} where
  returns_files-Safe :
      (r : Option (ℤ × Context)) (m : ExecContext Mem Host)
      → KeepsSound r
      → Safe (returns_files r m)
  returns_files-Safe r m (a, e, w) = rw e w

  returns_world-Safe :
      (r : Result (ℤ × World Mem Host)) (m : ExecContext Mem Host)
      → IsSound m.files
      → Safe (returns_world r m)
  returns_world-Safe (ok (v, u)) m w = w
  returns_world-Safe (bus_error a d fc) m w = cc
  returns_world-Safe out_of_bounds m w = cc

  returns_heap-Safe :
      (r : Option (ℕ × Allocator Mem)) (m : ExecContext Mem Host)
      → IsSound m.files
      → Safe (returns_heap r m)
  returns_heap-Safe none m w = cc
  returns_heap-Safe (some (v, a)) m w = w

module _ (mm : MemoryMap) {Host : Type 0} (out : Outside mm.State Host)
    (cpu : Cpu mm.State Host) where
  string_at-Safe :
      (address : ℕ) (m : ExecContext mm.State Host) (k : List ℕ → Outcome mm.State Host)
      → ((s : List ℕ) → Safe (k s))
      → Safe (string_at mm out cpu address m k)
  string_at-Safe address m k h =
      elim (out.get_string address m.heap.mem)
        as (λ r. Safe (elim r [
          | ok s ↦ k s
          | bus_error a d fc ↦ fails bus
          | out_of_bounds ↦ fails undefined
        ])) [ ok s ↦ h s | bus_error a d fc ↦ cc | out_of_bounds ↦ cc ]

  -- A call that exports a name first.
  exported-Safe :
      (r : Option (List ℕ)) (k : List ℕ → Outcome mm.State Host)
      → ((s : List ℕ) → Safe (k s))
      → Safe (elim r [ none ↦ fails out_of_range | some name ↦ k name ])
  exported-Safe none k h = cc
  exported-Safe (some name) k h = h name

  creates-Safe :
      (r : HostOpen × Host) (m : ExecContext mm.State Host)
      → IsSound m.files
      → Safe (creates mm out cpu r m)
  creates-Safe (h, u) m w = create-IsSound h m.files w

  opens-Safe :
      (mode : ℕ) (r : HostOpen × Host) (m : ExecContext mm.State Host)
      → IsSound m.files
      → Safe (opens mm out cpu mode r m)
  opens-Safe mode (h, u) m w = open_file-IsSound false h mode m.files w

  dos_create-Safe :
      (m : ExecContext mm.State Host) → IsSound m.files → Safe (dos_create mm out cpu m)
  unfolding dos_create
  dos_create-Safe m w = elim (Bool-cases (find_null m.files.files == nfiles)) [
    | inl full ↦ rw full w
    | inr room ↦ rw room (
        string_at-Safe (arg_32 mm out cpu 0 m) m (λ s. _)
          (λ s.
            exported-Safe (export_file_name s) (λ name. _)
              (λ name. creates-Safe (cpu.host_creat name m.host) m w)))
  ]

  dos_open-Safe : (m : ExecContext mm.State Host) → IsSound m.files → Safe (dos_open mm out cpu m)
  unfolding dos_open
  dos_open-Safe m w = elim (Bool-cases (find_null m.files.files == nfiles)) [
    | inl full ↦ rw full w
    | inr room ↦ rw room (
        string_at-Safe (arg_32 mm out cpu 0 m) m (λ s. _)
          (λ s. elim (Bool-cases (ltb 2 (arg_16 mm out cpu 4 m % 16))) [
            | inl bad ↦ rw bad w
            | inr good ↦ rw good (elim (Bool-cases (is_con s)) [
              | inl con ↦
                  rw con
                    (open_file-IsSound true HostOpen.not_found (arg_16 mm out cpu 4 m) m.files w)
              | inr name ↦ rw name (
                  exported-Safe (export_file_name s) (λ n. _)
                    (λ n.
                      opens-Safe (arg_16 mm out cpu 4 m)
                        (cpu.host_open n (arg_16 mm out cpu 4 m % 16) m.host) m w))
            ])
          ]))
  ]

  returns_zero-Safe : (o : Outcome mm.State Host) → Safe o → Safe (returns_zero mm out cpu o)
  returns_zero-Safe (next m) w = w
  returns_zero-Safe (quit_loop status) w = w
  returns_zero-Safe (fails f) w = w

  dos_chmod-Safe : (m : ExecContext mm.State Host) → IsSound m.files → Safe (dos_chmod mm out cpu m)
  unfolding dos_chmod
  dos_chmod-Safe m w =
      string_at-Safe (arg_32 mm out cpu 0 m) m (λ s. _)
        (λ s. exported-Safe (export_file_name s) (λ name. _) (λ name. w))

  supervise-Safe :
      (z s : Bool) (stack : ℕ) (m : ExecContext mm.State Host)
      → IsSound m.files
      → Safe (supervise mm out cpu z s stack m)
  supervise-Safe false true stack m w = w
  supervise-Safe false false stack m w = w
  supervise-Safe true true stack m w = w
  supervise-Safe true false stack m w = w

  -- Every call of the table, on sound handles.
  pub execute-Safe :
      (k : DosCall) (m : ExecContext mm.State Host)
      → IsSound m.files
      → Safe (execute mm out cpu k m)
  unfolding execute dos_super dos_close dos_zero dos_dup dos_exit2 dos_fflush dos_fgetc dos_fputs
      dos_getc dos_getdate dos_getenv dos_getpdb dos_gettim2 dos_malloc dos_print dos_putchar
      dos_read dos_seek dos_setblock dos_vernum dos_write dos_nameck
  execute-Safe call_putchar m w =
      returns_zero-Safe _
        (returns_world-Safe (fputc out (arg_16 mm out cpu 0 m) 1 m.files (world m)) m w)
  execute-Safe call_getc m w = returns_world-Safe (fgetc out 0 m.files (world m)) m w
  execute-Safe call_print m w =
      returns_zero-Safe _
        (returns_world-Safe (fputs out (arg_32 mm out cpu 0 m) 1 m.files (world m)) m w)
  execute-Safe call_fflush m w = w
  execute-Safe call_fgetc m w =
      returns_world-Safe (fgetc out (arg_16 mm out cpu 0 m) m.files (world m)) m w
  execute-Safe call_fputs m w =
      returns_world-Safe
        (fputs out (arg_32 mm out cpu 0 m) (arg_16 mm out cpu 4 m) m.files (world m)) m w
  execute-Safe call_super m w =
      supervise-Safe (arg_32 mm out cpu 0 m == 0) m.regs.supervisor (arg_32 mm out cpu 0 m) m w
  execute-Safe call_intvcs m w = w
  execute-Safe call_gettim2 m w = w
  execute-Safe call_getdate m w = w
  execute-Safe call_vernum m w = w
  execute-Safe call_nameck m w = string_at-Safe (arg_32 mm out cpu 0 m) m (λ s. _) (λ s. w)
  execute-Safe call_create m w = dos_create-Safe m w
  execute-Safe call_open m w = dos_open-Safe m w
  execute-Safe call_close m w =
      returns_files-Safe (close (arg_16 mm out cpu 0 m) m.files) m
        (close-IsSound (arg_16 mm out cpu 0 m) m.files w)
  execute-Safe call_read m w = returns_world-Safe _ m w
  execute-Safe call_write m w = returns_world-Safe _ m w
  execute-Safe call_delete m w = w
  execute-Safe call_seek m w = returns_world-Safe _ m w
  execute-Safe call_chmod m w = dos_chmod-Safe m w
  execute-Safe call_ioctrl m w = w
  execute-Safe call_dup m w =
      returns_files-Safe (dup (arg_16 mm out cpu 0 m) m.files) m
        (dup-IsSound (arg_16 mm out cpu 0 m) m.files w)
  execute-Safe call_malloc m w =
      returns_heap-Safe (alloc mm (arg_32 mm out cpu 0 m) m.current_pdb m.heap) m w
  execute-Safe call_setblock m w =
      returns_heap-Safe (resize mm (arg_32 mm out cpu 0 m) (arg_32 mm out cpu 4 m) m.heap) m w
  execute-Safe call_exit2 m w = tt
  execute-Safe call_getpdb m w = w
  execute-Safe call_getenv m w = string_at-Safe (arg_16 mm out cpu 0 m) m (λ s. _) (λ s. w)
  execute-Safe call_filedate m w = w
