-- ===== src/Dos/Table.antt =====
-- The instructions that `add_instructions` of dos.cc gives the processor.
use vx68k_v.Base.{ℕ, List, [], ◌∷◌, Option, none, some, ◌==◌, if◌then◌else◌}
use vx68k_v.Allocator.Memory.{MemoryMap}
use vx68k_v.Files.Device.{Outside}
use vx68k_v.Dos.Machine.{Cpu, ExecContext, Outcome}
use vx68k_v.Dos.{
  dos_chmod, dos_close, dos_create, dos_zero, dos_dup, dos_exit2, dos_fflush, dos_fgetc, dos_fputs,
  dos_getc, dos_getdate, dos_getenv, dos_getpdb, dos_gettim2, dos_malloc, dos_open, dos_print,
  dos_putchar, dos_read, dos_seek, dos_setblock, dos_super, dos_vernum, dos_write,
}
use vx68k_v.Dos.NameCheck.{dos_nameck}

-- The calls, without `_SUPER_JSR`, which runs the processor.
pub data DosCall : Type 0 where
  call_putchar call_getc call_print call_fflush call_fgetc call_fputs call_super : DosCall
  call_intvcs call_gettim2 call_getdate call_vernum call_nameck call_create call_open : DosCall
  call_close call_read call_write call_delete call_seek call_chmod call_ioctrl : DosCall
  call_dup call_malloc call_setblock call_exit2 call_getpdb call_getenv call_filedate : DosCall

abbrev pub table : List (ℕ × DosCall)
table =
    (0xff02, call_putchar)
    ∷ (0xff08, call_getc)
    ∷ (0xff09, call_print)
    ∷ (0xff0d, call_fflush)
    ∷ (0xff1b, call_fgetc)
    ∷ (0xff1e, call_fputs)
    ∷ (0xff20, call_super)
    ∷ (0xff25, call_intvcs)
    ∷ (0xff27, call_gettim2)
    ∷ (0xff2a, call_getdate)
    ∷ (0xff30, call_vernum)
    ∷ (0xff37, call_nameck)
    ∷ (0xff3c, call_create)
    ∷ (0xff3d, call_open)
    ∷ (0xff3e, call_close)
    ∷ (0xff3f, call_read)
    ∷ (0xff40, call_write)
    ∷ (0xff41, call_delete)
    ∷ (0xff42, call_seek)
    ∷ (0xff43, call_chmod)
    ∷ (0xff44, call_ioctrl)
    ∷ (0xff45, call_dup)
    ∷ (0xff48, call_malloc)
    ∷ (0xff4a, call_setblock)
    ∷ (0xff4c, call_exit2)
    ∷ (0xff51, call_getpdb)
    ∷ (0xff53, call_getenv)
    ∷ (0xff57, call_filedate)
    ∷ (0xff81, call_getpdb)
    ∷ (0xff83, call_getenv)
    ∷ (0xff87, call_filedate)
    ∷ []

abbrev pub lookup : ℕ → List (ℕ × DosCall) → Option DosCall
lookup op [] = none
lookup op ((o, k) ∷ rest) = if op == o then some k else lookup op rest

module _ (mm : MemoryMap) {Host : Type 0} (out : Outside mm.State Host)
    (cpu : Cpu mm.State Host) where
  unfoldable pub execute : DosCall → ExecContext mm.State Host → Outcome mm.State Host
  execute call_putchar m = dos_putchar mm out cpu m
  execute call_getc m = dos_getc mm out cpu m
  execute call_print m = dos_print mm out cpu m
  execute call_fflush m = dos_fflush mm out cpu m
  execute call_fgetc m = dos_fgetc mm out cpu m
  execute call_fputs m = dos_fputs mm out cpu m
  execute call_super m = dos_super mm out cpu m
  execute call_intvcs m = dos_zero mm out cpu m
  execute call_gettim2 m = dos_gettim2 mm out cpu m
  execute call_getdate m = dos_getdate mm out cpu m
  execute call_vernum m = dos_vernum mm out cpu m
  execute call_nameck m = dos_nameck mm out cpu m
  execute call_create m = dos_create mm out cpu m
  execute call_open m = dos_open mm out cpu m
  execute call_close m = dos_close mm out cpu m
  execute call_read m = dos_read mm out cpu m
  execute call_write m = dos_write mm out cpu m
  execute call_delete m = dos_zero mm out cpu m
  execute call_seek m = dos_seek mm out cpu m
  execute call_chmod m = dos_chmod mm out cpu m
  execute call_ioctrl m = dos_zero mm out cpu m
  execute call_dup m = dos_dup mm out cpu m
  execute call_malloc m = dos_malloc mm out cpu m
  execute call_setblock m = dos_setblock mm out cpu m
  execute call_exit2 m = dos_exit2 mm out cpu m
  execute call_getpdb m = dos_getpdb mm out cpu m
  execute call_getenv m = dos_getenv mm out cpu m
  execute call_filedate m = dos_zero mm out cpu m
