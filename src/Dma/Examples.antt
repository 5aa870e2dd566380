-- ===== src/Dma/Examples.antt =====
-- The theorem on _DMAMOVE of dmacmem.cc at a move of four bytes to two bytes below.
use vx68k_v.Base.{ℕ, ◌%◌, ◌<◌, ◌≡◌, ◌≢◌, ◌==◌, if◌then◌else◌, arith}
use vx68k_v.Dma.{ByteMemory, cell, iocs_dmamove}
use vx68k_v.Dma.Move.{counted, IsApart, Moved, iocs_dmamove-Moved}

abbrev get_8 : ℕ → (ℕ → ℕ) → ℕ
get_8 a s = s (cell a) % 256

abbrev put_8 : ℕ → ℕ → (ℕ → ℕ) → ℕ → ℕ
put_8 a v s i = if i == cell a then v else s i

get_8-bound : (a : ℕ) (s : ℕ → ℕ) → get_8 a s < 256
get_8-bound a s = omega arith

get-put_self : (a b v : ℕ) (s : ℕ → ℕ) → cell a ≡ cell b → v < 256 → get_8 a (put_8 b v s) ≡ v
get-put_self a b v s h k = ground arith

get-put_ne : (a b v : ℕ) (s : ℕ → ℕ) → cell a ≢ cell b → get_8 a (put_8 b v s) ≡ get_8 a s
get-put_ne a b v s h = ground arith

abbrev byte_memory : ByteMemory
byte_memory = record {
  State = ℕ → ℕ;
  get_8 = get_8;
  put_8 = put_8;
  get_8-bound = get_8-bound;
  get-put_self = get-put_self;
  get-put_ne = get-put_ne;
}

-- Mode 5: both addresses go up, from %a1 to %a2.
up-IsApart : IsApart 4 (counted 1 0x102) (counted 1 0x100)
up-IsApart k l kl ln = (omega (arith, kl, ln), omega (arith, kl, ln))

iocs_dmamove-Moved_example :
    Moved byte_memory 4
      (counted 1 0x102)
      (counted 1 0x100)
      (λ i. i)
      (iocs_dmamove byte_memory 5 4 0x102 0x100 (λ i. i))
iocs_dmamove-Moved_example =
    iocs_dmamove-Moved byte_memory 5 4 0x102 0x100 (λ i. i) (omega arith) (omega arith) up-IsApart
