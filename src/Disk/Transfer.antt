-- ===== src/Disk/Transfer.antt =====
-- The transfer of records by `read` of iocsdisk.cc.
use vx68k_v.Base.{
  ℕ, zero, suc, ◌+◌, ◌-◌, ◌*◌, ◌/◌, ◌≤◌, ◌<◌, ◌≡◌, ◌∙◌, refl, inl, inr, Bool, true, false, ◌&&◌,
  leb, ltb-false, some, arith, ltb, Bool-cases, ltb-ge, if◌then◌else◌, word_32, add32,
}
use vx68k_v.Disk.{Sector, short, full, ByteMap, record_offset, read_loop, read}

-- A file whose first `length` bytes are `bytes`, and which ends there.
abbrev pub file_of : (length : ℕ) (bytes : ℕ → ℕ) → ℕ → Sector
file_of length bytes off = if ltb length (off + 1024) then short else full (λ j. bytes (off + j))

module _ (M : ByteMap) where
  -- The byte at `x` after `length` bytes of `bytes` from `off` on are copied to `buf`.
  abbrev pub copied : (buf length off : ℕ) (bytes : ℕ → ℕ) (s : M.State) (x : ℕ) → ℕ
  copied buf length off bytes s x =
      if leb buf x && ltb x (buf + length) then bytes (off + (x - buf)) else M.get_8 x s

  write-copied :
      (buf off : ℕ) (bytes : ℕ → ℕ) (s : M.State) (x : ℕ)
      → buf + 1024 ≤ word_32
      → M.get_8 x (M.write buf (λ j. bytes (off + j)) s) ≡ copied buf 1024 off bytes s x
  write-copied buf off bytes s x h = elim (Bool-cases (leb buf x && ltb x (buf + 1024))) [
    | inl here ↦
        let low : buf ≤ x = ground (arith, here) in
        let high : x < buf + 1024 = ground (arith, here) in
        let there : buf + (x - buf) ≡ x = omega (arith, low) in
        rw here (
          rw there at
            (M.get-write_in buf (x - buf) (λ j. bytes (off + j)) s (omega (arith, low, high)) h))
    | inr apart ↦
        rw apart (M.get-write_out buf x (λ j. bytes (off + j)) s (ground (arith, apart)) h)
  ]

  -- The first record and the others make up the whole transfer.
  copied-copied :
      (buf n off : ℕ) (bytes : ℕ → ℕ) (s : M.State) (x : ℕ)
      → buf + suc n * 1024 ≤ word_32
      → copied
          (add32 buf 1024)
          (n * 1024)
          (off + 1024)
          bytes
          (M.write buf (λ j. bytes (off + j)) s)
          x
        ≡ copied buf (suc n * 1024) off bytes s x
  copied-copied buf n off bytes s x fits =
      let first = write-copied buf off bytes s x (omega (arith, fits)) in
      let next : ℕ = add32 buf 1024 in
      let rest : Bool = leb next x && ltb x (next + n * 1024) in
      let whole : Bool = leb buf x && ltb x (buf + suc n * 1024) in
      elim (Bool-cases rest) [
        | inl later ↦
            let inside : whole ≡ true = ground (arith, later, fits) in
            let same : off + 1024 + (x - next) ≡ off + (x - buf) = ground (arith, later, fits) in
            rw (later, inside, same) refl
        | inr not_later ↦ elim (Bool-cases (leb buf x && ltb x (buf + 1024))) [
          | inl now ↦
              let inside : whole ≡ true = ground (arith, now, fits) in
              rw (not_later, first, now, inside) refl
          | inr never ↦
              let outside : whole ≡ false = ground (arith, not_later, never, fits) in
              rw (not_later, first, never, outside) refl
        ]
      ]

  read_loop-copied :
      (n length off buf : ℕ) (bytes : ℕ → ℕ) (s : M.State)
      → off + n * 1024 ≤ length
      → buf + n * 1024 ≤ word_32
      → let (d0, u) = read_loop M n (file_of length bytes) off buf s in
        (d0 ≡ 0) × ((x : ℕ) → M.get_8 x u ≡ copied buf (n * 1024) off bytes s x)
  unfolding read_loop
  read_loop-copied zero length off buf bytes s h fits = (refl, λ x. ground arith)
  read_loop-copied (suc n) length off buf bytes s h fits =
      let u : M.State = M.write buf (λ j. bytes (off + j)) s in
      let room : ltb length (off + 1024) ≡ false =
        ltb-false length (off + 1024) (omega (arith, h)) in
      let (e, below) =
        read_loop-copied n length (off + 1024) (add32 buf 1024) bytes u (omega (arith, h))
          (omega (arith, fits)) in
      rw (room, read_loop) (e, λ x. below x ∙ copied-copied buf n off bytes s x fits)

  read_loop-short :
      (n length off buf : ℕ) (bytes : ℕ → ℕ) (s : M.State)
      → off ≤ length
      → length < off + n * 1024
      → (read_loop M n (file_of length bytes) off buf s).0 ≡ 0x40202000
  unfolding read_loop
  read_loop-short zero length off buf bytes s g h = absurd (omega (arith, g, h))
  read_loop-short (suc n) length off buf bytes s g h = elim (Bool-cases (ltb length (off + 1024))) [
    | inl ends ↦ rw (ends, read_loop) refl
    | inr more ↦
        rw (more, read_loop)
          (read_loop-short n length (off + 1024) (add32 buf 1024) bytes
            (M.write buf (λ j. bytes (off + j)) s) (ltb-ge length (off + 1024) more)
            (omega (arith, h)))
  ]

  -- A read of records that the file holds, into memory that does not wrap around, returns 0 and
  -- copies them: `nbytes`, at most 2^32 - 1024, rounded up to whole records of the file from that of the position on, to the
  -- addresses from `buf` on. Every other byte of the memory stays.
  pub read-copied :
      (mode pos off length buf nbytes : ℕ) (bytes : ℕ → ℕ) (s : M.State)
      → record_offset pos ≡ some off
      → nbytes + 1023 < word_32
      → off + (nbytes + 1023) / 1024 * 1024 ≤ length
      → buf + (nbytes + 1023) / 1024 * 1024 ≤ word_32
      → let (d0, u) = read M mode pos (file_of length bytes) buf nbytes s in
        (d0 ≡ 0)
        × ((x : ℕ) → M.get_8 x u ≡ copied buf ((nbytes + 1023) / 1024 * 1024) off bytes s x)
  unfolding read
  read-copied mode pos off length buf nbytes bytes s e small h fits =
      let n : add32 nbytes 1023 ≡ nbytes + 1023 = omega (arith, small) in
      rw (e, n, read) (read_loop-copied ((nbytes + 1023) / 1024) length off buf bytes s h fits)

  -- A read that goes on behind the end of the file returns 0x40202000.
  pub read-short :
      (mode pos off length buf nbytes : ℕ) (bytes : ℕ → ℕ) (s : M.State)
      → record_offset pos ≡ some off
      → nbytes + 1023 < word_32
      → off ≤ length
      → length < off + (nbytes + 1023) / 1024 * 1024
      → (read M mode pos (file_of length bytes) buf nbytes s).0 ≡ 0x40202000
  unfolding read
  read-short mode pos off length buf nbytes bytes s e small g h =
      let n : add32 nbytes 1023 ≡ nbytes + 1023 = omega (arith, small) in
      rw (e, n, read) (read_loop-short ((nbytes + 1023) / 1024) length off buf bytes s g h)
