-- ===== src/Disk/Examples.antt =====
-- The theorems on iocsdisk.cc at a byte memory of functions.
use vx68k_v.Base.{
  ℕ, ◌+◌, ◌-◌, ◌%◌, ◌≤◌, ◌<◌, ◌≡◌, refl, ◌⊎◌, none, some, true, false, ◌&&◌, leb, ltb, arith,
  if◌then◌else◌, word_32,
}
use vx68k_v.Disk.Transfer.{file_of, copied, read-copied}
use vx68k_v.Machine.Drives.{
  Drives, load_fd, unload_fd, boot, running, runtime_error, failed, null_pointer, boot-load_fd,
}
use vx68k_v.Disk.{ByteMap, record_offset, read}

abbrev put_block : ℕ → (ℕ → ℕ) → (ℕ → ℕ) → ℕ → ℕ
put_block a d s x = if leb a x && ltb x (a + 1024) then d (x - a) else s x

put_block_in :
    (a j : ℕ) (d s : ℕ → ℕ) → j < 1024 → a + 1024 ≤ word_32 → put_block a d s (a + j) ≡ d j
put_block_in a j d s h fits =
    let here : (leb a (a + j) && ltb (a + j) (a + 1024)) ≡ true = ground (arith, h) in
    let there : a + j - a ≡ j = omega arith in rw (here, there) refl

put_block_out :
    (a x : ℕ) (d s : ℕ → ℕ)
    → (x < a) ⊎ (a + 1024 ≤ x)
    → a + 1024 ≤ word_32
    → put_block a d s x ≡ s x
put_block_out a x d s h fits =
    let apart : (leb a x && ltb x (a + 1024)) ≡ false = ground (arith, h) in rw apart refl

abbrev byte_memory : ByteMap
byte_memory = record {
  State = ℕ → ℕ;
  get_8 = λ a s. s a;
  write = put_block;
  get-write_in = put_block_in;
  get-write_out = put_block_out;
}

-- The position of the record 9: cylinder 0, head 1, record 2.
record_9 : record_offset 0x03000102 ≡ some 9216
unfolding record_offset
record_9 = refl

read-copied_example :
    let (d0, u) =
      read byte_memory 0x9070 0x03000102 (file_of 1261568 (λ i. i % 251)) 0x2000 1500 (λ x. 0) in
    (d0 ≡ 0) × ((x : ℕ) → u x ≡ copied byte_memory 0x2000 2048 9216 (λ i. i % 251) (λ y. 0) x)
read-copied_example =
    read-copied byte_memory 0x9070 0x03000102 9216 1261568 0x2000 1500 (λ i. i % 251) (λ x. 0)
      record_9 (omega arith) (omega arith) (omega arith)

abbrev floppy : ℕ → ℕ
floppy i = i % 251

abbrev no_drives : Drives
no_drives u = none

boot-load_fd_example :
    ((e : Drives) × (load_fd 0 (file_of 1261568 floppy) no_drives ≡ some e)
      × (((1024 ≤ 1261568)
            × ((t : ℕ → ℕ) × (boot byte_memory e (λ x. 0) ≡ running 0x2000 t)
                × ((x : ℕ) → t x ≡ copied byte_memory 0x2000 1024 0 floppy (λ y. 0) x)))
          ⊎ ((1261568 < 1024) × (boot byte_memory e (λ x. 0) ≡ runtime_error))))
    × ((e : Drives) × (unload_fd 0 no_drives ≡ some e)
        × (boot byte_memory e (λ x. 0) ≡ failed null_pointer))
boot-load_fd_example = boot-load_fd byte_memory 1261568 floppy no_drives (λ x. 0)
