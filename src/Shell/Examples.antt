-- ===== src/Shell/Examples.antt =====
-- The theorem on `create_env` of shell.cc at two strings in a memory of bytes.
use vx68k_v.Base.{
  ℕ, ◌+◌, ◌-◌, ◌/◌, ◌%◌, ◌≤◌, ◌<◌, ◌≡◌, List, [], ◌∷◌, length, get_or, leb, ltb, ◌==◌, ◌&&◌,
  if◌then◌else◌, arith, word_32,
}
use vx68k_v.Shell.{WriteMemory, env_size, create_env}
use vx68k_v.Shell.Environment.{create_env-strings}

abbrev put_8 : ℕ → ℕ → (ℕ → ℕ) → ℕ → ℕ
put_8 a v s i = if i == a then v else s i

abbrev put_32 : ℕ → ℕ → (ℕ → ℕ) → ℕ → ℕ
put_32 a v s i =
    if i == a
    then v / 16777216
    else if i == a + 1
    then v / 65536 % 256
    else if i == a + 2
    then v / 256 % 256
    else if i == a + 3
    then v % 256
    else s i

abbrev write : ℕ → List ℕ → (ℕ → ℕ) → ℕ → ℕ
write b l s i = if leb b i && ltb i (b + length l) then get_or l (i - b) 0 else s i

abbrev byte_memory : WriteMemory
byte_memory = record {
  State = ℕ → ℕ;
  get_8 = λ a s. s a;
  put_8 = put_8;
  put_32 = put_32;
  write = write;
  get-write_inside = λ a b l s h k m. ground arith;
  get-write_below = λ a b l s h m. ground arith;
  get-write_above = λ a b l s h m. ground arith;
  get-put_32_apart = λ a b v s h m. ground arith;
  get-put_32_below = λ a b v s h m. ground arith;
}

-- "A=" and "B".
abbrev strings : List (List ℕ)
strings = (0x41 ∷ 0x3d ∷ []) ∷ (0x42 ∷ []) ∷ []

create_env-strings_example :
    ((j : ℕ)
      → j < 5
      → create_env byte_memory 0x9000 strings (λ a. 0xff) (0x9004 + j)
        ≡ get_or (0x41 ∷ 0x3d ∷ 0 ∷ 0x42 ∷ 0 ∷ []) j 0)
    × ((a : ℕ)
        → 0x9009 ≤ a
        → a < word_32
        → create_env byte_memory 0x9000 strings (λ a. 0xff) a ≡ 0xff)
    × ((a : ℕ) → a < 0x9000 → create_env byte_memory 0x9000 strings (λ a. 0xff) a ≡ 0xff)
    × (0x209 ≤ env_size strings)
create_env-strings_example =
    create_env-strings byte_memory 0x9000 strings (λ a. 0xff) (omega arith) (omega arith)
