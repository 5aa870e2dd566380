-- ===== src/MainMemory/Examples.antt =====
-- The theorems on main_memory.cc at a memory of 0x102 bytes.
use vx68k_v.Base.{refl, arith}
use vx68k_v.Base.Bus.{user_data}
use vx68k_v.MainMemory.Access.{Words, byte, over, Wrote, Returns, put_32-Wrote}
use vx68k_v.MainMemory.{MainMemory, put_32}

abbrev small : MainMemory
small = record { size = 0x102; protected_size = 0x20; content = λ i. 0x4afc }

small-Words : Words small
small-Words = (refl, λ i. omega arith)

put_32-Wrote_example :
    Returns
      (Wrote
        (over 0x42 0x56 (over 0x43 0x78 (over 0x40 0x12 (over 0x41 0x34 (λ j. byte j small)))))
        small)
      (put_32 0x40 0x12345678 user_data small)
put_32-Wrote_example =
    put_32-Wrote 0x40 0x12345678 user_data small small-Words refl refl (omega arith)
