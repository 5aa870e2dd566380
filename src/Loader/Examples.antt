-- ===== src/Loader/Examples.antt =====
-- The theorems on `load_executable` of doscontext.cc at a table of two offsets.
use vx68k_v.Base.{
  ℕ, ◌+◌, ◌*◌, ◌/◌, ◌%◌, ◌≤◌, ◌<◌, ◌≡◌, List, [], ◌∷◌, ◌==◌, arith, if◌then◌else◌, word_32,
}
use vx68k_v.Loader.{LoadMemory, done, fix_ups}
use vx68k_v.Loader.Fixups.{relocate_all, fix_ups-encode}
use vx68k_v.Loader.Relocated.{sites, Fixed, Apart, fix_ups-Fixed}

-- A memory of bytes.
abbrev bytes_get : ℕ → (ℕ → ℕ) → ℕ
bytes_get a s = s a * 16777216 + s (a + 1) * 65536 + s (a + 2) * 256 + s (a + 3)

abbrev bytes_put : ℕ → ℕ → (ℕ → ℕ) → ℕ → ℕ
bytes_put a v s i =
    if i == a
    then v / 16777216
    else if i == a + 1
    then v / 65536 % 256
    else if i == a + 2
    then v / 256 % 256
    else if i == a + 3
    then v % 256
    else s i

bytes_get-put_self : (a v : ℕ) (s : ℕ → ℕ) → v < word_32 → bytes_get a (bytes_put a v s) ≡ v
bytes_get-put_self a v s h = ground arith

bytes_get-put_above :
    (a b v : ℕ) (s : ℕ → ℕ)
    → b + 4 ≤ a
    → a + 4 ≤ word_32
    → bytes_get a (bytes_put b v s) ≡ bytes_get a s
bytes_get-put_above a b v s h k = ground arith

bytes_get-put_below :
    (a b v : ℕ) (s : ℕ → ℕ)
    → a + 4 ≤ b
    → b + 4 ≤ word_32
    → bytes_get a (bytes_put b v s) ≡ bytes_get a s
bytes_get-put_below a b v s h k = ground arith

abbrev byte_memory : LoadMemory
byte_memory = record {
  State = ℕ → ℕ;
  get_32 = bytes_get;
  put_32 = bytes_put;
  write = λ a l s. s;
  put_string = λ a l s. s;
  get-put_self = bytes_get-put_self;
  get-put_above = bytes_get-put_above;
  get-put_below = bytes_get-put_below;
}

abbrev ones : ℕ → ℕ
ones i = 1

-- A short offset and a long one.
abbrev offsets : List ℕ
offsets = 6 ∷ 0x20000 ∷ []

fix_ups-encode_example :
    fix_ups byte_memory 8 0x1000 0x8000 (0 ∷ 6 ∷ 0 ∷ 1 ∷ 0 ∷ 2 ∷ 0 ∷ 0 ∷ []) ones
    ≡ done (relocate_all byte_memory 0x1000 0x8000 offsets ones)
fix_ups-encode_example =
    fix_ups-encode byte_memory 8 0x1000 0x8000 offsets ones (ground arith) (omega arith)

fix_ups-Fixed_example :
    (t : ℕ → ℕ) × (fix_ups byte_memory 8 0x1000 0x8000 (0 ∷ 6 ∷ 0 ∷ 1 ∷ 0 ∷ 2 ∷ 0 ∷ 0 ∷ []) ones
      ≡ done t)
    × Fixed byte_memory 0x1000 ones t (sites 0x8000 offsets)
    × ((a : ℕ)
        → a + 4 ≤ word_32
        → Apart a (sites 0x8000 offsets)
        → bytes_get a t ≡ bytes_get a ones)
fix_ups-Fixed_example =
    fix_ups-Fixed byte_memory 8 0x1000 0x8000 offsets ones (ground arith) (ground arith)
      (omega arith)
