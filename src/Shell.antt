-- ===== src/Shell.antt =====
-- libvx68kdos/shell.cc: the environment and the argument string that `shell` puts in memory for a
-- program. Strings of the host are lists of bytes without the 0 at their end.
pub mod Environment
pub mod Lifetime
mod Examples
use vx68k_v.Base.{
  ℕ, zero, suc, ◌+◌, ◌-◌, ◌*◌, ◌/◌, ◌%◌, ◌≤◌, ◌<◌, ◌≡◌, ◌&&◌, List, [], ◌∷◌, ◌++◌, length, get_or,
  leb, ltb, if◌then◌else◌, add32, sub32, word_32,
}

-- The memory map as supervisor data: `write` stores bytes one after the other, a long word is four
-- of them.
pub record WriteMemory : Type 1 where
  pub State : Type 0
  pub get_8 : ℕ → State → ℕ
  pub put_8 : ℕ → ℕ → State → State
  pub put_32 : ℕ → ℕ → State → State
  pub write : ℕ → List ℕ → State → State
  pub get-write_inside :
      (a b : ℕ) (l : List ℕ) (s : State)
      → b ≤ a
      → a < b + length l
      → b + length l ≤ word_32
      → get_8 a (write b l s) ≡ get_or l (a - b) 0
  pub get-write_below :
      (a b : ℕ) (l : List ℕ) (s : State)
      → a < b
      → b + length l ≤ word_32
      → get_8 a (write b l s) ≡ get_8 a s
  pub get-write_above :
      (a b : ℕ) (l : List ℕ) (s : State)
      → b + length l ≤ a
      → a < word_32
      → get_8 a (write b l s) ≡ get_8 a s
  pub get-put_32_apart :
      (a b v : ℕ) (s : State) → b + 4 ≤ a → a < word_32 → get_8 a (put_32 b v s) ≡ get_8 a s
  pub get-put_32_below :
      (a b v : ℕ) (s : State) → a < b → b + 4 ≤ word_32 → get_8 a (put_32 b v s) ≡ get_8 a s

-- 4 + 1, and each string with its 0.
abbrev pub string_size : List (List ℕ) → ℕ
string_size [] = 5
string_size (p ∷ ps) = length p + 1 + string_size ps

-- The size in blocks of 0x200 bytes, with 0x200 bytes to spare, in 32 bits.
abbrev pub env_size : List (List ℕ) → ℕ
env_size envp = (string_size envp + 0x200 + 0x1ff) % word_32 / 0x200 * 0x200

-- The argument string.
abbrev pub join : List (List ℕ) → List ℕ
join [] = []
join (p ∷ []) = p
join (p ∷ q ∷ ps) = p ++ (0x20 ∷ join (q ∷ ps))

module _ (mm : WriteMemory) where
  open mm use {State, put_8, put_32, write}

  abbrev pub write_strings : (address : ℕ) → List (List ℕ) → State → State
  write_strings address [] s = s
  write_strings address (p ∷ ps) s =
      write_strings (add32 address (length p + 1)) ps (write address (p ++ (0 ∷ [])) s)

  -- `create_env` with the address that `malloc` gives.
  unfoldable pub create_env : (env : ℕ) → List (List ℕ) → State → State
  create_env env envp s = write_strings (add32 env 4) envp (put_32 env (env_size envp) s)

  -- What `exec` writes before it loads the program: one byte for the length.
  unfoldable pub put_args : (pdb : ℕ) → List (List ℕ) → State → State
  put_args pdb argv s =
      let pdb_base : ℕ = sub32 pdb 0x10 in
      write (add32 pdb_base 0x101) (join argv ++ (0 ∷ []))
        (put_8 (add32 pdb_base 0x100) (length (join argv) % 256) s)
