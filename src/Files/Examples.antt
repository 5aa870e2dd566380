-- ===== src/Files/Examples.antt =====
-- The theorems on the files of filesystem.cc and doscontext.cc at runs with several handles.
use vx68k_v.Base.{ℕ, suc, ◌≡◌, refl, true, false, List, [], ◌∷◌, none, some, length, arith}
use vx68k_v.Base.Bus.{ok}
use vx68k_v.Base.Int.{pos}
use vx68k_v.TextVram.{blank}
use vx68k_v.Files.{
  FileSystem, opened, not_found, init, close, dup, open_file, create, unref, ref, insert_file,
  open_host, open_name, create_name, take_handle, unref_all, destroy,
}
use vx68k_v.Files.Counts.{Returns}
use vx68k_v.Files.Sessions.{
  Call, call_close, call_dup, call_open, call_create, call, calls, session, started,
  started-IsSound, session-no_files,
}
use vx68k_v.Files.Duplicates.{Undone, dup-close}
use vx68k_v.Files.Device.{Outside, World, fputs, write}
use vx68k_v.Files.Device.Calls.{SameScreen, fputs-write}

-- A file is opened and duplicated, a handle of it and the standard output are closed, the console
-- is opened in its place, and a file is not found.
abbrev some_calls : List Call
some_calls =
    call_open false (opened 3) 0
    ∷ call_dup 5
    ∷ call_close 5
    ∷ call_close 1
    ∷ call_open true not_found 2
    ∷ call_create not_found
    ∷ call_close 200
    ∷ []

session-no_files_example : Returns (λ s. (f : ℕ) → s.files (suc f) ≡ none) (session some_calls)
session-no_files_example = session-no_files some_calls

-- The file is closed once, by the destructor.
closed_once : (s : FileSystem) → session some_calls ≡ some s → s.closed ≡ (3 ∷ [])
unfolding session init calls call close dup open_file create unref ref insert_file open_host
    open_name create_name take_handle unref_all destroy
closed_once s e = ground arith

dup-close_example : Returns (λ d. (d.0 ≡ pos 5) × Undone started (close 5 d.1)) (dup 1 started)
unfolding init ref insert_file
dup-close_example = dup-close 1 started started-IsSound refl refl

-- Memory that holds "A", and a host without files.
abbrev outside : Outside (Unit {0}) (Unit {0})
outside = record {
  mem_read = λ a n m. ok (0x41 ∷ []);
  mem_write = λ a s m. ok m;
  get_string = λ a m. ok (0x41 ∷ []);
  host_read = λ fd n h. (none, h);
  host_write = λ fd s h. (some (length s), h);
  host_seek = λ fd o k h. (none, h);
  glyphs = record { k16 = λ c i. 0x55; b16 = λ c i. 0xf0 };
}

abbrev idle : World (Unit {0}) (Unit {0})
idle = record {
  mem = tt;
  host = tt;
  console = record { curx = 95; cury = 30; saved_byte1 = 0; tvram = blank };
}

fputs-write_example :
    SameScreen outside (fputs outside 0x100 1 started idle) (write outside 1 0x100 1 started idle)
fputs-write_example =
    fputs-write outside 0x100 0x100 1 1 (0x41 ∷ []) started idle refl refl (ground arith)
      (record { column = omega arith; line = omega arith; byte = omega arith })
