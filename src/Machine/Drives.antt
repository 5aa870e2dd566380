-- ===== src/Machine/Drives.antt =====
-- The floppy drives of class machine in libvx68k/machine.cc: `load_fd`, `unload_fd`, `read_disk` and
-- the load of the boot record by `boot`.
use vx68k_v.Base.{
  ℕ, ◌/◌, ◌^◌, ◌≤◌, ◌<◌, ◌≡◌, ◌⊎◌, inl, inr, Bool-cases, leb-le, leb-gt, refl, ap, Option, none,
  some, ◌>>=◌, ◌==◌, leb, if◌then◌else◌, bits, arith,
}
use vx68k_v.Disk.{Sector, ByteMap, read, record_offset}
use vx68k_v.Disk.Transfer.{file_of, copied, read-copied, read-short}

-- NFDS.
abbrev pub nfds : ℕ
nfds = 2

-- The image file of each unit; none is a null pointer.
abbrev pub Drives : Type 0
Drives = ℕ → Option (ℕ → Sector)

-- none is the exception `range_error`.
unfoldable pub unload_fd : ℕ → Drives → Option Drives
unload_fd u fd = if leb nfds u then none else some (λ i. if i == u then none else fd i)

unfoldable pub load_fd : ℕ → (ℕ → Sector) → Drives → Option Drives
unfolding unload_fd
load_fd u image fd =
    if leb nfds u
    then none
    else unload_fd u fd >>= λ e. some (λ i. if i == u then some image else e i)

-- How a transfer ends: with a status and the memory, or by an exception, by `abort`, or by a call
-- through a null pointer.
pub data Transfer (S : Type 0) : Type 0 where
  returned : (status : ℕ) → S → Transfer S
  range_error : Transfer S
  aborted : Transfer S
  null_pointer : Transfer S

module _ (M : ByteMap) where
  abbrev pub finished : ℕ × M.State → Transfer M.State
  finished (status, s) = returned status s

  unfoldable pub read_disk : (mode pos buf nbytes : ℕ) → Drives → M.State → Transfer M.State
  read_disk mode pos buf nbytes fd s =
      let u : ℕ = bits mode 8 4 in
      if mode / 2 ^ 12 == 9
      then if leb nfds u then range_error else elim (fd u) [
        | none ↦ null_pointer
        | some image ↦ finished (read M mode pos image buf nbytes s)
      ]
      else aborted

  -- How `boot` begins: with the processor at an address, or with an exception.
  pub data Boot : Type 0 where
    running : (pc : ℕ) → M.State → Boot
    runtime_error : Boot
    failed : Transfer M.State → Boot

  abbrev pub after_read : Transfer M.State → Boot
  after_read (returned st s) = if bits st 30 2 == 0 then running 0x2000 s else runtime_error
  after_read range_error = failed range_error
  after_read aborted = failed aborted
  after_read null_pointer = failed null_pointer

  unfoldable pub boot : Drives → M.State → Boot
  unfolding read_disk
  boot fd s = after_read (read_disk 0x9070 0x03000001 0x2000 1024 fd s)

  record_1 : record_offset 0x03000001 ≡ some 0
  unfolding record_offset
  record_1 = refl

  boot_full :
      (length : ℕ) (bytes : ℕ → ℕ) (fd : Drives) (s : M.State)
      → fd 0 ≡ some (file_of length bytes)
      → 1024 ≤ length
      → (t : M.State) × (boot fd s ≡ running 0x2000 t)
        × ((x : ℕ) → M.get_8 x t ≡ copied M 0x2000 1024 0 bytes s x)
  unfolding boot
  boot_full length bytes fd s e h =
      let r = read M 0x9070 0x03000001 (file_of length bytes) 0x2000 1024 s in
      let (z, k) =
        read-copied M 0x9070 0x03000001 0 length 0x2000 1024 bytes s record_1 (omega arith)
          (omega (arith, h)) (omega arith) in
      (r.1, rw e (ap (λ n. after_read (returned n r.1)) z), k)

  boot_short :
      (length : ℕ) (bytes : ℕ → ℕ) (fd : Drives) (s : M.State)
      → fd 0 ≡ some (file_of length bytes)
      → length < 1024
      → boot fd s ≡ runtime_error
  unfolding boot
  boot_short length bytes fd s e h =
      let r = read M 0x9070 0x03000001 (file_of length bytes) 0x2000 1024 s in
      let z =
        read-short M 0x9070 0x03000001 0 length 0x2000 1024 bytes s record_1 (omega arith)
          (omega arith) (omega (arith, h)) in
      rw e (ap (λ n. after_read (returned n r.1)) z)

  boot_empty : (fd : Drives) (s : M.State) → fd 0 ≡ none → boot fd s ≡ failed null_pointer
  unfolding boot
  boot_empty fd s e = rw e refl

  -- With an image in the unit 0 that holds a record, `boot` copies its first 1024 bytes to 0x2000 and
  -- starts the processor there; with a shorter image it throws. After `unload_fd` it calls through a
  -- null pointer.
  pub boot-load_fd :
      (length : ℕ) (bytes : ℕ → ℕ) (fd : Drives) (s : M.State)
      → ((e : Drives) × (load_fd 0 (file_of length bytes) fd ≡ some e)
          × (((1024 ≤ length)
                × ((t : M.State) × (boot e s ≡ running 0x2000 t)
                    × ((x : ℕ) → M.get_8 x t ≡ copied M 0x2000 1024 0 bytes s x)))
              ⊎ ((length < 1024) × (boot e s ≡ runtime_error))))
        × ((e : Drives) × (unload_fd 0 fd ≡ some e) × (boot e s ≡ failed null_pointer))
  unfolding load_fd
  boot-load_fd length bytes fd s =
      let e : Drives =
        λ i. if i == 0 then some (file_of length bytes) else if i == 0 then none else fd i in
      let g : Drives = λ i. if i == 0 then none else fd i in
      (
        (
          e,
          refl,
          elim (Bool-cases (leb 1024 length)) [
            | inl b ↦ inl (leb-le _ _ b, boot_full length bytes e s refl (leb-le _ _ b))
            | inr b ↦ inr (leb-gt _ _ b, boot_short length bytes e s refl (leb-gt _ _ b))
          ],
        ),
        (g, refl, boot_empty g s refl),
      )
