-- ===== src/Files/Device.antt =====
-- The classes `con_device_file` and `regular_file` of filesystem.cc, and the calls of doscontext.cc
-- that reach them through a handle. `memory_map` of libvm68k and the descriptors of the host are
-- parameters.
pub mod Calls
use vx68k_v.Base.{
  ℕ, zero, suc, ◌%◌, ◌==◌, Bool, true, false, List, [], ◌∷◌, Option, none, some, length,
  if◌then◌else◌,
}
use vx68k_v.Base.Bus.{Result, ok, out_of_bounds, ◌>>=◌}
use vx68k_v.Base.Int.{ℤ, pos, negsuc}
use vx68k_v.TextVram.{Glyphs}
use vx68k_v.Console.{Console, b_putc, b_print}
use vx68k_v.Files.{File, con_device_file, regular_file, Context, handle}

-- `read`, `write` and `get_string` of the memory map, and the host's `read`, `write` and `lseek` on
-- a descriptor: none is -1, and the position is what fits the `sint32_type` it is stored in.
pub record Outside (Mem Host : Type 0) : Type 0 where
  pub mem_read : (address size : ℕ) → Mem → Result (List ℕ)
  pub mem_write : (address : ℕ) → List ℕ → Mem → Result Mem
  pub get_string : (address : ℕ) → Mem → Result (List ℕ)
  pub host_read : (fd size : ℕ) → Host → Option (List ℕ) × Host
  pub host_write : (fd : ℕ) → List ℕ → Host → Option ℕ × Host
  pub host_seek : (fd : ℕ) → (offset : ℤ) → (mode : ℕ) → Host → Option ℕ × Host
  pub glyphs : Glyphs

pub record World (Mem Host : Type 0) : Type 0 where
  pub mem : Mem
  pub host : Host
  pub console : Console

module _ {Mem Host : Type 0} (out : Outside Mem Host) where
  -- What a call returns: a number, or -6 where the host's call gave -1.
  abbrev pub or_error : Option ℕ → ℤ
  or_error none = negsuc 5
  or_error (some n) = pos n

  -- The loop of `con_device_file::write`.
  unfoldable pub put_all : List ℕ → Console → Result Console
  unfolding b_putc
  put_all [] c = ok c
  put_all (i ∷ data_) c = b_putc out.glyphs i c >>= put_all data_

  -- The end of `regular_file::read`.
  unfoldable pub store_read :
      (dataptr : ℕ) → Option (List ℕ) × Host → World Mem Host → Result (ℤ × World Mem Host)
  store_read dataptr (none, h) w = ok (negsuc 5, record w { host = h })
  store_read dataptr (some bytes, h) w = out.mem_write dataptr bytes w.mem >>= λ m.
      ok (pos (length bytes), record w { mem = m; host = h })

  unfoldable pub file_read :
      File → (dataptr size : ℕ) → World Mem Host → Result (ℤ × World Mem Host)
  unfolding store_read
  file_read con_device_file dataptr size w = ok (negsuc 0, w)
  file_read (regular_file fd) dataptr size w = store_read dataptr (out.host_read fd size w.host) w

  unfoldable pub file_write :
      File → (dataptr size : ℕ) → World Mem Host → Result (ℤ × World Mem Host)
  unfolding put_all
  file_write con_device_file dataptr size w = out.mem_read dataptr size w.mem >>= λ bytes.
      (put_all bytes w.console >>= λ c. ok (pos size, record w { console = c }))
  file_write (regular_file fd) dataptr size w = out.mem_read dataptr size w.mem >>= λ bytes. ok (
    or_error (out.host_write fd bytes w.host).0,
    record w { host = (out.host_write fd bytes w.host).1 },
  )

  -- The end of `regular_file::fgetc`: at the end of a file the buffer was never set.
  abbrev pub first_byte : Option (List ℕ) × Host → World Mem Host → Result (ℤ × World Mem Host)
  first_byte (none, h) w = ok (negsuc 5, record w { host = h })
  first_byte (some [], h) w = out_of_bounds
  first_byte (some (b ∷ bs), h) w = ok (pos b, record w { host = h })

  unfoldable pub file_fgetc : File → World Mem Host → Result (ℤ × World Mem Host)
  file_fgetc con_device_file w = ok (pos 1, record w { host = (out.host_read 0 1 w.host).1 })
  file_fgetc (regular_file fd) w = first_byte (out.host_read fd 1 w.host) w

  -- `code` is the 16 bits of the argument.
  unfoldable pub file_fputc : File → (code : ℕ) → World Mem Host → Result (ℤ × World Mem Host)
  unfolding b_putc
  file_fputc con_device_file code w =
      b_putc out.glyphs code w.console >>= λ c. ok (pos 1, record w { console = c })
  file_fputc (regular_file fd) code w =
      ok (pos 1, record w { host = (out.host_write fd (code % 256 ∷ []) w.host).1 })

  unfoldable pub file_fputs : File → (mesptr : ℕ) → World Mem Host → Result (ℤ × World Mem Host)
  unfolding b_print
  file_fputs con_device_file mesptr w = out.get_string mesptr w.mem >>= λ s.
      (b_print out.glyphs s w.console >>= λ c. ok (pos 0, record w { console = c }))
  file_fputs (regular_file fd) mesptr w = out.get_string mesptr w.mem >>= λ s.
      ok (
        or_error (out.host_write fd s w.host).0,
        record w { host = (out.host_write fd s w.host).1 },
      )

  -- The console has the `seek` of class `file`.
  unfoldable pub file_seek :
      File → (offset : ℤ) → (mode : ℕ) → World Mem Host → Result (ℤ × World Mem Host)
  file_seek con_device_file offset mode w = ok (negsuc 0, w)
  file_seek (regular_file fd) offset mode w = ok (
    or_error (out.host_seek fd offset mode w.host).0,
    record w { host = (out.host_seek fd offset mode w.host).1 },
  )

  -- The guard of the calls on a handle.
  abbrev pub on_handle :
      (File → World Mem Host → Result (ℤ × World Mem Host))
      → (fd : ℕ) → Context
      → World Mem Host
      → Result (ℤ × World Mem Host)
  on_handle f fd c w =
      if handle fd c == 0 then ok (negsuc 5, w) else f (c.fs.object (handle fd c)) w

  unfoldable pub read :
      (fd dataptr size : ℕ) → Context → World Mem Host → Result (ℤ × World Mem Host)
  unfolding file_read
  read fd dataptr size c w = on_handle (λ f. file_read f dataptr size) fd c w

  unfoldable pub write :
      (fd dataptr size : ℕ) → Context → World Mem Host → Result (ℤ × World Mem Host)
  unfolding file_write
  write fd dataptr size c w = on_handle (λ f. file_write f dataptr size) fd c w

  unfoldable pub fgetc : (fd : ℕ) → Context → World Mem Host → Result (ℤ × World Mem Host)
  unfolding file_fgetc
  fgetc fd c w = on_handle file_fgetc fd c w

  unfoldable pub fputc : (code fd : ℕ) → Context → World Mem Host → Result (ℤ × World Mem Host)
  unfolding file_fputc
  fputc code fd c w = on_handle (λ f. file_fputc f code) fd c w

  unfoldable pub fputs : (mesptr fd : ℕ) → Context → World Mem Host → Result (ℤ × World Mem Host)
  unfolding file_fputs
  fputs mesptr fd c w = on_handle (λ f. file_fputs f mesptr) fd c w

  unfoldable pub seek :
      (fd : ℕ) → (offset : ℤ) → (mode : ℕ) → Context → World Mem Host → Result (ℤ × World Mem Host)
  unfolding file_seek
  seek fd offset mode c w = on_handle (λ f. file_seek f offset mode) fd c w
