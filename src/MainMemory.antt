-- ===== src/MainMemory.antt =====
-- libvx68kdos/main_memory.cc: the main memory, an array of 16-bit words of which the lowest part is
-- protected from writes that are not supervisor data accesses. The assertions on the alignment of an
-- address are left out: the definitions compute what the code does where they are disabled.
mod Examples
pub mod Access
pub mod Protection
use vx68k_v.Base.{
  ℕ, ◌+◌, ◌-◌, ◌*◌, ◌/◌, ◌%◌, ◌^◌, Bool, true, false, ◌==◌, ◌&&◌, ◌||◌, ltb, leb, not,
  if◌then◌else◌, word_32, add32,
}
use vx68k_v.Base.Bus.{
  FunctionCode, Result, ok, bus_error, out_of_bounds, reading, writing, is_super_data, ◌>>=◌,
}

pub record MainMemory : Type 0 where
  pub size : ℕ
  pub protected_size : ℕ
  pub content : ℕ → ℕ

-- The constructor of a build without assertions, which leaves the storage as `malloc` gives it.
unfoldable pub init : (storage : ℕ → ℕ) → ℕ → MainMemory
init storage size = record { size = add32 size 1 / 2 * 2; protected_size = 0; content = storage }

unfoldable pub set_protected_size : ℕ → MainMemory → MainMemory
set_protected_size protected_size s = record s { protected_size = protected_size }

-- content[i], which C++ leaves undefined behind the end of the array.
abbrev pub load : ℕ → MainMemory → Result ℕ
load i s = if ltb i (s.size / 2) then ok (s.content i) else out_of_bounds

abbrev pub store : (i value : ℕ) → MainMemory → Result MainMemory
store i value s =
    if ltb i (s.size / 2)
    then ok (record s { content = λ j. if j == i then value else s.content j })
    else out_of_bounds

-- The 24 bits of an address that reach the memory.
abbrev pub offset : ℕ → ℕ
offset address = address % 0x1000000

unfoldable pub get_8 : ℕ → FunctionCode → MainMemory → Result ℕ
get_8 address fc s =
    let i : ℕ = offset address in
    if leb s.size i
    then bus_error address reading fc
    else (load (i / 2) s >>= λ w. ok (if i % 2 == 0 then w / 256 else w % 256))

unfoldable pub get_16 : ℕ → FunctionCode → MainMemory → Result ℕ
get_16 address fc s =
    let i : ℕ = offset address in
    if leb s.size i then bus_error address reading fc else load (i / 2) s

unfoldable pub get_32 : ℕ → FunctionCode → MainMemory → Result ℕ
get_32 address fc s =
    let i : ℕ = offset address / 2 in
    if leb s.size (offset address)
    then bus_error address reading fc
    else (load i s >>= λ value0.
        (load (i + 1) s >>= λ value1. ok (value0 * 65536 % word_32 + value1)))

-- The guard of the writes.
abbrev pub refused : ℕ → FunctionCode → MainMemory → Bool
refused address fc s =
    leb s.size (offset address) || (not (is_super_data fc) && ltb (offset address) s.protected_size)

unfoldable pub put_8 : (address value : ℕ) → FunctionCode → MainMemory → Result MainMemory
put_8 address value fc s =
    let v : ℕ = value % 256 in
    let i : ℕ = offset address / 2 in
    if refused address fc s
    then bus_error address writing fc
    else (load i s >>= λ w.
        if not (address % 2 == 0)
        then store i (w / 256 * 256 + v) s
        else store i (w % 256 + v * 256) s)

unfoldable pub put_16 : (address value : ℕ) → FunctionCode → MainMemory → Result MainMemory
put_16 address value fc s =
    if refused address fc s
    then bus_error address writing fc
    else store (offset address / 2) (value % 65536) s

unfoldable pub put_32 : (address value : ℕ) → FunctionCode → MainMemory → Result MainMemory
put_32 address value fc s =
    let v : ℕ = value % word_32 in
    let i : ℕ = offset address / 2 in
    if refused address fc s
    then bus_error address writing fc
    else (store i (v / 65536) s >>= λ u. store (i + 1) (v % 65536) u)
