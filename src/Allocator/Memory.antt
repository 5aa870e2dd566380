-- ===== src/Allocator/Memory.antt =====
-- What the allocator relies on of `memory_map`, a class of libvm68k: aligned long words that are
-- read back as written. An access to main memory as supervisor data raises no exception.
use vx68k_v.Base.{ℕ, ◌/◌, ◌%◌, ◌<◌, ◌≡◌, ◌≢◌, ◌==◌, if◌then◌else◌, arith, word_32}

pub record MemoryMap : Type 1 where
  pub State : Type 0
  pub get_32 : ℕ → State → ℕ
  pub put_32 : ℕ → ℕ → State → State
  pub get-put_self : (a v : ℕ) (s : State) → a % 4 ≡ 0 → v < word_32 → get_32 a (put_32 a v s) ≡ v
  pub get-put_ne :
      (a b v : ℕ) (s : State) → a % 4 ≡ 0 → b % 4 ≡ 0 → a ≢ b → get_32 a (put_32 b v s) ≡ get_32 a s

-- A memory of long words that meets the laws.
abbrev pub word_get : ℕ → (ℕ → ℕ) → ℕ
word_get a s = s (a / 4)

abbrev pub word_put : ℕ → ℕ → (ℕ → ℕ) → ℕ → ℕ
word_put a v s i = if a / 4 == i then v else s i

pub word_get-put_self :
    (a v : ℕ) (s : ℕ → ℕ) → a % 4 ≡ 0 → v < word_32 → word_get a (word_put a v s) ≡ v
word_get-put_self a v s h k = ground arith

pub word_get-put_ne :
    (a b v : ℕ) (s : ℕ → ℕ)
    → a % 4 ≡ 0
    → b % 4 ≡ 0
    → a ≢ b
    → word_get a (word_put b v s) ≡ word_get a s
word_get-put_ne a b v s h k ne = ground arith

abbrev pub word_memory : MemoryMap
word_memory = record {
  State = ℕ → ℕ;
  get_32 = word_get;
  put_32 = word_put;
  get-put_self = word_get-put_self;
  get-put_ne = word_get-put_ne;
}
