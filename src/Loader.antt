-- ===== src/Loader.antt =====
-- `load_executable` of libvx68kdos/doscontext.cc, which puts an executable file of the X
-- format in memory.
pub mod Fixups
pub mod Relocated
mod Examples
use vx68k_v.Base.{
  ℕ, zero, suc, ◌+◌, ◌*◌, ◌%◌, ◌<◌, ◌≤◌, ◌≡◌, Bool, true, false, List, [], ◌∷◌, Option, none, some,
  ◌==◌, ◌&&◌, not, ltb, length, get_or, if◌then◌else◌, add32, sub32, word_32,
}
use vx68k_v.FileName.{take, drop}

-- The memory map as the loader uses it: long words and bytes at even addresses. A long word is
-- read back as written, and a write leaves the long words apart from it as they were.
pub record LoadMemory : Type 1 where
  pub State : Type 0
  pub get_32 : ℕ → State → ℕ
  pub put_32 : ℕ → ℕ → State → State
  pub write : ℕ → List ℕ → State → State
  pub put_string : ℕ → List ℕ → State → State
  pub get-put_self : (a v : ℕ) (s : State) → v < word_32 → get_32 a (put_32 a v s) ≡ v
  pub get-put_above :
      (a b v : ℕ) (s : State) → b + 4 ≤ a → a + 4 ≤ word_32 → get_32 a (put_32 b v s) ≡ get_32 a s
  pub get-put_below :
      (a b v : ℕ) (s : State) → a + 4 ≤ b → b + 4 ≤ word_32 → get_32 a (put_32 b v s) ≡ get_32 a s

-- The errors that are thrown; `beyond_table`, a read behind the end of the table, where the code
-- reads and goes on in other memory; and `endless`, the end of the fuel.
pub data Failure : Type 0 where
  open_error : Failure
  read_error : Failure
  exec_format_error : Failure
  beyond_table : Failure
  endless : Failure

pub data Load {ℓ} (A : Type ℓ) : Type ℓ where
  done : A → Load A
  throw : Failure → Load A

infixl 5 ◌>>=◌
abbrev pub ◌>>=◌ {ℓ κ} : {A : Type ℓ} {B : Type κ} → Load A → (A → Load B) → Load B
done a >>= f = f a
throw e >>= f = throw e

-- A big-endian word and long word of a buffer.
abbrev pub word_at : ℕ → List ℕ → ℕ
word_at i b = get_or b i 0 * 256 + get_or b (suc i) 0

abbrev pub long_at : ℕ → List ℕ → ℕ
long_at i b = word_at i b * 65536 + word_at (i + 2) b

-- The next offset of the table, and the rest of it: 1 stands before a long one.
unfoldable pub next_offset : List ℕ → Load (ℕ × List ℕ)
next_offset (b0 ∷ b1 ∷ p) =
    let d : ℕ = b0 * 256 + b1 in
    if d == 1
    then (if ltb (length p) 4 then throw beyond_table else done (long_at 0 p, drop 4 p))
    else done (d, p)
next_offset p = throw beyond_table

module _ (mm : LoadMemory) where
  open mm use {State, get_32, put_32, write, put_string}

  abbrev pub fix_up : (delta address : ℕ) → State → State
  fix_up delta address s = put_32 address (add32 (get_32 address s) delta) s

  -- The loop on the table, on fuel. `delta` is load_address - base.
  unfoldable pub fix_ups : (fuel delta address : ℕ) → List ℕ → State → Load State
  fix_ups fuel delta address [] s = done s
  fix_ups zero delta address (b ∷ p) s = throw endless
  fix_ups (suc fuel) delta address (b ∷ p) s = next_offset (b ∷ p) >>= λ r.
      (if r.0 % 2 == 0
        then fix_ups fuel delta (add32 address r.0) r.1 (fix_up delta (add32 address r.0) s)
        else throw exec_format_error)

  -- %a0, %a1, the start address, and the memory.
  pub record Image : Type 0 where
    pub a0 : ℕ
    pub a1 : ℕ
    pub start : ℕ
    pub mem : State

  -- Every round of the loop takes two bytes at least.
  unfoldable pub load_executable :
      (name : List ℕ) → Option (List ℕ) → (address : ℕ) → State → Load Image
  unfolding fix_ups
  load_executable name none address s = throw open_error
  load_executable name (some content) address s =
      let base : ℕ = long_at 4 content in
      let start_offset : ℕ = long_at 8 content in
      let text_size : ℕ = long_at 12 content in
      let data_size : ℕ = long_at 16 content in
      let bss_size : ℕ = long_at 20 content in
      let reloc_size : ℕ = long_at 24 content in
      let load_address : ℕ = add32 address 0xf0 in
      let size : ℕ = text_size + data_size in
      let psp : ℕ = sub32 load_address 0x100 in
      let table : List ℕ = take reloc_size (drop size (drop 64 content)) in
      if ltb (length content) 64
      then throw read_error
      else if not ((get_or content 0 0 == 0x48) && (get_or content 1 0 == 0x55))
      then throw exec_format_error
      else if ltb (length content) (64 + size)
      then throw read_error
      else if ltb (length content) (64 + size + reloc_size)
      then throw read_error
      else fix_ups (length table) (sub32 load_address base) load_address table
          (write load_address (take size (drop 64 content)) s)
        >>= λ t. done (record {
          a0 = psp;
          a1 = add32 load_address ((text_size + data_size + bss_size) % word_32);
          start = add32 load_address start_offset;
          mem = put_string (add32 psp 0xc4) name (put_32 (add32 psp 0x80) 0 t);
        })
