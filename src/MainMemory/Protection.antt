-- ===== src/MainMemory/Protection.antt =====
-- The protection and the end of the memory of main_memory.cc.
use vx68k_v.Base.{ℕ, ◌-◌, ◌%◌, ◌≤◌, ◌<◌, ◌≡◌, false, arith}
use vx68k_v.Base.Bus.{FunctionCode, bus_error, out_of_bounds, reading, writing, is_super_data}
use vx68k_v.MainMemory.{
  MainMemory, offset, get_8, get_16, get_32, put_8, put_16, put_32, set_protected_size,
}

-- Every write that is not a supervisor data access faults below the protected size, whatever its
-- width, with the address as given.
pub put-protected :
    (address value p : ℕ) (fc : FunctionCode) (s : MainMemory)
    → is_super_data fc ≡ false
    → offset address < p
    → let u = set_protected_size p s in
      (put_8 address value fc u ≡ bus_error address writing fc)
      × (put_16 address value fc u ≡ bus_error address writing fc)
      × (put_32 address value fc u ≡ bus_error address writing fc)
unfolding set_protected_size put_8 put_16 put_32
put-protected address value p fc s h below = ground arith

-- Every access faults from the end of the memory on, whatever its width and its function code.
pub access-beyond :
    (address value : ℕ) (fc : FunctionCode) (s : MainMemory)
    → s.size ≤ offset address
    → (get_8 address fc s ≡ bus_error address reading fc)
      × (get_16 address fc s ≡ bus_error address reading fc)
      × (get_32 address fc s ≡ bus_error address reading fc)
      × (put_8 address value fc s ≡ bus_error address writing fc)
      × (put_16 address value fc s ≡ bus_error address writing fc)
      × (put_32 address value fc s ≡ bus_error address writing fc)
unfolding get_8 get_16 get_32 put_8 put_16 put_32
access-beyond address value fc s h = ground arith

-- In a memory of at most 16 MB whose size is 2 modulo 4, a long word at its last word passes the guard and reaches
-- behind the end of the array.
pub get_32_last :
    (fc : FunctionCode) (s : MainMemory)
    → s.size % 4 ≡ 2
    → s.size ≤ 0x1000000
    → get_32 (s.size - 2) fc s ≡ out_of_bounds
unfolding get_32
get_32_last fc s h fits = ground arith
