-- ===== src/Disk.antt =====
-- libvx68k/iocsdisk.cc: `image_file_floppy_disk`, a floppy disk of 77 cylinders, 2 heads and 8
-- records of 1024 bytes, in an image file.
mod Examples
pub mod Record
pub mod Transfer
use vx68k_v.Base.{
  ℕ, zero, suc, ◌+◌, ◌-◌, ◌*◌, ◌/◌, ◌%◌, ◌^◌, ◌≤◌, ◌<◌, ◌≡◌, ◌⊎◌, Bool, true, false, Option, none,
  some, ◌==◌, ◌||◌, ltb, leb, if◌then◌else◌, bits, word_32, add32,
}

-- The offset of a record in the image file, with none for `disk_error(0x40040000)`.
unfoldable pub record_offset : ℕ → Option ℕ
record_offset pos =
    let n : ℕ = bits pos 24 8 in
    let c : ℕ = bits pos 16 8 in
    let h : ℕ = bits pos 8 8 in
    let r : ℕ = bits pos 0 8 in
    if n == 3
    then if (ltb 76 c || ltb 1 h) || (ltb r 1 || ltb 8 r)
      then none
      else some (((c * 2 + h) * 8 + (r - 1)) * 1024)
    else none

-- What `read` of the host gives for 1024 bytes at an offset: an error, fewer bytes, or all of them.
pub data Sector : Type 0 where
  failed : Sector
  short : Sector
  full : (ℕ → ℕ) → Sector

-- `memory_map::write` of 1024 bytes, and what a byte of the memory is afterwards.
pub record ByteMap : Type 1 where
  pub State : Type 0
  pub get_8 : ℕ → State → ℕ
  pub write : ℕ → (ℕ → ℕ) → State → State
  pub get-write_in :
      (a j : ℕ) (d : ℕ → ℕ) (s : State)
      → j < 1024
      → a + 1024 ≤ word_32
      → get_8 (a + j) (write a d s) ≡ d j
  pub get-write_out :
      (a x : ℕ) (d : ℕ → ℕ) (s : State)
      → (x < a) ⊎ (a + 1024 ≤ x)
      → a + 1024 ≤ word_32
      → get_8 x (write a d s) ≡ get_8 x s

module _ (M : ByteMap) where
  -- The loop of `read` for `n` records at the offset `off` of the file: %d0 and the memory.
  unfoldable pub read_loop : (n : ℕ) → (ℕ → Sector) → (off buf : ℕ) → M.State → ℕ × M.State
  read_loop zero file off buf s = (0, s)
  read_loop (suc n) file off buf s = elim (file off) [
    | failed ↦ (0x40200000, s)
    | short ↦ (0x40202000, s)
    | full d ↦ read_loop n file (off + 1024) (add32 buf 1024) (M.write buf d s)
  ]

  -- e.value() | (mode >> 8 & 0x3) << 24, of which the two parts share no bit.
  abbrev pub error_value : ℕ → ℕ
  error_value mode = 0x40040000 + bits mode 8 2 * 2 ^ 24

  unfoldable pub read : (mode pos : ℕ) → (ℕ → Sector) → (buf nbytes : ℕ) → M.State → ℕ × M.State
  unfolding record_offset read_loop
  read mode pos file buf nbytes s = elim (record_offset pos) [
    | none ↦ (error_value mode, s)
    | some off ↦ read_loop (add32 nbytes 1023 / 1024) file off buf s
  ]
