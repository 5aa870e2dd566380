-- ===== src/TextVram/Iterator.antt =====
-- What textvram.cc, sram.cc and fontrom.cc rely on of `uint16_iterator`, a class of libvm68k: it
-- reads and writes a 16-bit value in two bytes, and its bytes are big-endian as on the MC68000.
use vx68k_v.Base.{ℕ, ◌+◌, ◌*◌, ◌/◌, ◌%◌, ◌<◌, ◌≡◌, ◌≢◌, refl, ◌==◌, if◌then◌else◌, arith}

pub record WordIterator : Type 0 where
  pub fetch : ℕ → (ℕ → ℕ) → ℕ
  pub store : ℕ → ℕ → (ℕ → ℕ) → ℕ → ℕ
  pub fetch-store : (p v : ℕ) (b : ℕ → ℕ) → v < 65536 → fetch p (store p v b) ≡ v
  pub fetch_same : (p : ℕ) (b c : ℕ → ℕ) → b p ≡ c p → b (p + 1) ≡ c (p + 1) → fetch p b ≡ fetch p c
  pub store_other : (p v : ℕ) (b : ℕ → ℕ) (j : ℕ) → j ≢ p → j ≢ p + 1 → store p v b j ≡ b j

abbrev pub fetch_bytes : ℕ → (ℕ → ℕ) → ℕ
fetch_bytes p b = b p * 256 + b (p + 1)

abbrev pub store_bytes : ℕ → ℕ → (ℕ → ℕ) → ℕ → ℕ
store_bytes p v b j = if j == p then v / 256 else if j == p + 1 then v % 256 else b j

pub fetch-store_bytes : (p v : ℕ) (b : ℕ → ℕ) → v < 65536 → fetch_bytes p (store_bytes p v b) ≡ v
fetch-store_bytes p v b h = ground arith

pub store_bytes_other :
    (p v : ℕ) (b : ℕ → ℕ) (j : ℕ) → j ≢ p → j ≢ p + 1 → store_bytes p v b j ≡ b j
store_bytes_other p v b j h k = ground arith

pub fetch_bytes_same :
    (p : ℕ) (b c : ℕ → ℕ) → b p ≡ c p → b (p + 1) ≡ c (p + 1) → fetch_bytes p b ≡ fetch_bytes p c
fetch_bytes_same p b c h k = rw (h, k) refl

abbrev pub big_endian : WordIterator
big_endian = record {
  fetch = fetch_bytes;
  store = store_bytes;
  fetch-store = fetch-store_bytes;
  fetch_same = fetch_bytes_same;
  store_other = store_bytes_other;
}
