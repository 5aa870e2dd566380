-- ===== src/Disk/Record.antt =====
-- The place of a record in the image file of iocsdisk.cc.
use vx68k_v.Base.{ℕ, ◌+◌, ◌*◌, ◌/◌, ◌%◌, ◌≤◌, ◌<◌, ◌≡◌, some, arith, bits-bytes, word_32}
use vx68k_v.Disk.{record_offset}

-- Every record that has an offset lies within the 1,261,568 bytes of the image, at a multiple of
-- the record length.
pub record_offset-bounds :
    (pos off : ℕ)
    → record_offset pos ≡ some off
    → (off + 1024 ≤ 77 * 2 * 8 * 1024) × (off % 1024 ≡ 0)
unfolding record_offset
record_offset-bounds pos off e = ground arith

-- The position of the record `k` of the image: the record length code 3, the cylinder, the head and
-- the record from 1.
abbrev pub position : ℕ → ℕ
position k = 3 * 16777216 + k / 16 * 65536 + k / 8 % 2 * 256 + (k % 8 + 1)

-- A position of 32 bits that has an offset is that of its record: different positions have different
-- offsets.
pub record_offset-position :
    (pos off : ℕ) → pos < word_32 → record_offset pos ≡ some off → pos ≡ position (off / 1024)
unfolding record_offset
record_offset-position pos off h e = ground arith

-- The record `k` of the image is found at its position.
pub position-record_offset : (k : ℕ) → k < 77 * 2 * 8 → record_offset (position k) ≡ some (k * 1024)
unfolding record_offset
position-record_offset k h =
    let (n, c, d, r, _) =
      bits-bytes 3 (k / 16) (k / 8 % 2) (k % 8 + 1) (omega arith) (omega arith) (omega arith)
        (omega arith) in
    rw (n, c, d, r) (ground arith)
