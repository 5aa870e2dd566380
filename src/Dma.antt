-- ===== src/Dma.antt =====
-- libvx68k/dmacmem.cc: the IOCS call _DMAMOVE, which moves bytes with an increment for each side.
pub mod Move
mod Examples
use vx68k_v.Base.{
  ℕ, zero, suc, ◌+◌, ◌-◌, ◌/◌, ◌%◌, ◌<◌, ◌≡◌, ◌≢◌, Bool, true, false, ◌==◌, if◌then◌else◌, add32,
  word_32,
}

-- The byte that an address of 24 bits reaches.
abbrev pub cell : ℕ → ℕ
cell a = a % 0x1000000

-- The memory map as supervisor data, byte by byte: a byte is read back as written, and a write
-- leaves the other bytes as they were.
pub record ByteMemory : Type 1 where
  pub State : Type 0
  pub get_8 : ℕ → State → ℕ
  pub put_8 : ℕ → ℕ → State → State
  pub get_8-bound : (a : ℕ) (s : State) → get_8 a s < 256
  pub get-put_self : (a b v : ℕ) (s : State) → cell a ≡ cell b → v < 256 → get_8 a (put_8 b v s) ≡ v
  pub get-put_ne : (a b v : ℕ) (s : State) → cell a ≢ cell b → get_8 a (put_8 b v s) ≡ get_8 a s

-- The table `increments`, modulo 2^32.
abbrev pub increments : ℕ → ℕ
increments k = if k == 1 then 1 else if k == 2 then word_32 - 1 else 0

module _ (mm : ByteMemory) where
  -- `while (n-- > 0)`, from `i` to `j`.
  unfoldable pub move : (n i j i_inc j_inc : ℕ) → mm.State → mm.State
  move zero i j i_inc j_inc s = s
  move (suc n) i j i_inc j_inc s =
      move n (add32 i i_inc) (add32 j j_inc) i_inc j_inc (mm.put_8 j (mm.get_8 i s) s)

  -- On the registers %d1, %d2, %a1 and %a2.
  unfoldable pub iocs_dmamove : (d1 d2 a1 a2 : ℕ) → mm.State → mm.State
  unfolding move
  iocs_dmamove d1 d2 a1 a2 s =
      let mode : ℕ = d1 % 256 in
      let i_inc : ℕ = increments (mode % 4) in
      let j_inc : ℕ = increments (mode / 4 % 4) in
      if mode / 128 % 2 == 1 then move d2 a2 a1 j_inc i_inc s else move d2 a1 a2 i_inc j_inc s
