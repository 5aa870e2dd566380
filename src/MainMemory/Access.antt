-- ===== src/MainMemory/Access.antt =====
-- Reads and writes of main_memory.cc: the bytes of a memory, and its words and long words in terms
-- of them.
use vx68k_v.Base.{
  ℕ, ◌+◌, ◌*◌, ◌/◌, ◌%◌, ◌<◌, ◌≡◌, ◌∙◌, refl, ap, inl, inr, true, false, arith, ◌==◌, ==-false,
  ==-eq, ltb, Bool-cases, ltb-true, leb-false, if◌then◌else◌, word_32,
}
use vx68k_v.Base.Bus.{FunctionCode, Result, ok}
use vx68k_v.MainMemory.{MainMemory, offset, refused, get_8, get_16, get_32, put_8, put_16, put_32}

-- A memory of a whole number of words, each of 16 bits, as the constructor leaves it.
abbrev pub Words : MainMemory → Type 0
Words s = (s.size % 2 ≡ 0) × ((i : ℕ) → s.content i < 65536)

-- The byte at an offset.
abbrev pub byte : ℕ → MainMemory → ℕ
byte i s = if i % 2 == 0 then s.content (i / 2) / 256 else s.content (i / 2) % 256

module _ (address : ℕ) (fc : FunctionCode) (s : MainMemory) (w : Words s) where
  -- The byte at an address within the memory is read as it stands.
  pub get_8-byte : offset address < s.size → get_8 address fc s ≡ ok (byte (offset address) s)
  unfolding get_8
  get_8-byte h =
      rw
        (
          leb-false s.size (offset address) h,
          ltb-true (offset address / 2) (s.size / 2) (omega (arith, w.0)),
        )
        refl

  -- A word at an even address within the memory is its two bytes, the higher first.
  pub get_16-byte :
      offset address < s.size
      → address % 2 ≡ 0
      → get_16 address fc s ≡ ok (byte (offset address) s * 256 + byte (offset address + 1) s)
  unfolding get_16
  get_16-byte h even =
      let i : ℕ = offset address in
      let even_i : i % 2 ≡ 0 = omega (arith, even) in
      let odd_i : (i + 1) % 2 ≡ 1 = omega (arith, even) in
      let same : (i + 1) / 2 ≡ i / 2 = omega (arith, even) in
      rw
        (
          leb-false s.size i h,
          ltb-true (i / 2) (s.size / 2) (omega (arith, w.0)),
          even_i,
          odd_i,
          same,
        )
        (ap ok (omega arith))

  -- A long word at an address divisible by four, all of it within the memory, is its four bytes, the
  -- highest first.
  pub get_32-byte :
      offset address + 3 < s.size
      → address % 4 ≡ 0
      → get_32 address fc s
        ≡ ok (
            ((byte (offset address) s * 256 + byte (offset address + 1) s) * 256
                + byte (offset address + 2) s)
              * 256
            + byte (offset address + 3) s)
  unfolding get_32
  get_32-byte h even =
      let i : ℕ = offset address in
      let e₀ : i % 2 ≡ 0 = omega (arith, even) in
      let e₁ : (i + 1) % 2 ≡ 1 = omega (arith, even) in
      let e₂ : (i + 2) % 2 ≡ 0 = omega (arith, even) in
      let e₃ : (i + 3) % 2 ≡ 1 = omega (arith, even) in
      let h₁ : (i + 1) / 2 ≡ i / 2 = omega (arith, even) in
      let h₂ : (i + 2) / 2 ≡ i / 2 + 1 = omega (arith, even) in
      let h₃ : (i + 3) / 2 ≡ i / 2 + 1 = omega (arith, even) in
      rw
        (
          leb-false s.size i (omega (arith, h)),
          ltb-true (i / 2) (s.size / 2) (omega (arith, w.0)),
          ltb-true (i / 2 + 1) (s.size / 2) (omega (arith, w.0, even)),
          e₀,
          e₁,
          e₂,
          e₃,
          h₁,
          h₂,
          h₃,
        )
        (ap ok (omega (arith, w.1 (i / 2))))

-- The bytes with the one at `i` replaced.
abbrev pub over : (i v : ℕ) → (ℕ → ℕ) → ℕ → ℕ
over i v f j = if j == i then v else f j

-- A write returns the memory with these bytes, and the sizes as they were.
abbrev pub Wrote : (bytes : ℕ → ℕ) → MainMemory → MainMemory → Type 0
Wrote bytes s u =
    ((j : ℕ) → byte j u ≡ bytes j)
    × Words u
    × (u.size ≡ s.size)
    × (u.protected_size ≡ s.protected_size)

abbrev pub Returns : (MainMemory → Type 0) → Result MainMemory → Type 0
Returns P r = (u : MainMemory) × (r ≡ ok u) × P u

abbrev bytes_of : MainMemory → ℕ → ℕ
bytes_of s j = byte j s

-- The memory with one word replaced.
abbrev stored : (k v : ℕ) → MainMemory → MainMemory
stored k v s = record s { content = λ j. if j == k then v else s.content j }

stored-over :
    (k hi lo : ℕ) (s : MainMemory)
    → lo < 256
    → (j : ℕ)
    → byte j (stored k (hi * 256 + lo) s) ≡ over (k * 2) hi (over (k * 2 + 1) lo (bytes_of s)) j
stored-over k hi lo s h j = elim (Bool-cases (j / 2 == k)) [
  | inl here ↦ rw here (ground arith)
  | inr other ↦
      rw
        (
          other,
          ==-false j (k * 2) (ground (arith, other)),
          ==-false j (k * 2 + 1) (ground (arith, other)),
        )
        refl
]

stored-Words : (k v : ℕ) (s : MainMemory) → Words s → v < 65536 → Words (stored k v s)
stored-Words k v s w h = (w.0, λ i. ground (arith, w.1 i))

stored-over_even :
    (k v : ℕ) (s : MainMemory)
    → v < 256
    → s.content k < 65536
    → (j : ℕ) → byte j (stored k (s.content k % 256 + v * 256) s) ≡ over (k * 2) v (bytes_of s) j
stored-over_even k v s h small j = elim (Bool-cases (j / 2 == k)) [
  | inl here ↦
      let e : j / 2 ≡ k = ==-eq (j / 2) k here in rw (here, ap s.content e) (ground (arith, e))
  | inr other ↦ rw (other, ==-false j (k * 2) (ground (arith, other))) refl
]

stored-over_odd :
    (k v : ℕ) (s : MainMemory)
    → v < 256
    → s.content k < 65536
    → (j : ℕ)
    → byte j (stored k (s.content k / 256 * 256 + v) s) ≡ over (k * 2 + 1) v (bytes_of s) j
stored-over_odd k v s h small j = elim (Bool-cases (j / 2 == k)) [
  | inl here ↦
      let e : j / 2 ≡ k = ==-eq (j / 2) k here in rw (here, ap s.content e) (ground (arith, e))
  | inr other ↦ rw (other, ==-false j (k * 2 + 1) (ground (arith, other))) refl
]

module _ (address value : ℕ) (fc : FunctionCode) (s : MainMemory) (w : Words s) where
  -- A byte that is written replaces the byte at its address, and nothing else.
  pub put_8-Wrote :
      refused address fc s ≡ false
      → Returns
          (Wrote (over (offset address) (value % 256) (bytes_of s)) s)
          (put_8 address value fc s)
  unfolding put_8
  put_8-Wrote h =
      let i : ℕ = offset address in
      let inside : i < s.size = ground (arith, h) in
      let k : ℕ = i / 2 in
      let c : ℕ = s.content k in
      let v : ℕ = value % 256 in
      let word : c < 65536 = w.1 k in
      let fits : ltb k (s.size / 2) ≡ true = ltb-true k (s.size / 2) (omega (arith, w.0)) in
      elim (Bool-cases (address % 2 == 0)) [
        | inl even ↦
            let here : k * 2 ≡ i = ground (arith, even) in
            rw (h, fits, even)
              (
                stored k (c % 256 + v * 256) s,
                refl,
                (
                  (λ j. rw here at (stored-over_even k v s (omega arith) word j)),
                  stored-Words k (c % 256 + v * 256) s w (omega arith),
                  refl,
                  refl,
                ),
              )
        | inr odd ↦
            let here : k * 2 + 1 ≡ i = ground (arith, odd) in
            rw (h, fits, odd)
              (
                stored k (c / 256 * 256 + v) s,
                refl,
                (
                  (λ j. rw here at (stored-over_odd k v s (omega arith) word j)),
                  stored-Words k (c / 256 * 256 + v) s w (omega arith),
                  refl,
                  refl,
                ),
              )
      ]

  -- A word that is written at an even address replaces the two bytes there, the higher first, and
  -- nothing else.
  pub put_16-Wrote :
      address % 2 ≡ 0
      → refused address fc s ≡ false
      → Returns
          (Wrote
            (over
              (offset address)
              (value / 256 % 256)
              (over (offset address + 1) (value % 256) (bytes_of s)))
            s)
          (put_16 address value fc s)
  unfolding put_16
  put_16-Wrote even h =
      let i : ℕ = offset address in
      let k : ℕ = i / 2 in
      let inside : i < s.size = ground (arith, h) in
      let fits : ltb k (s.size / 2) ≡ true = ltb-true k (s.size / 2) (omega (arith, w.0)) in
      let here : k * 2 ≡ i = omega (arith, even) in
      let split : value % 65536 ≡ value / 256 % 256 * 256 + value % 256 = omega arith in
      rw (h, fits, split)
        (
          stored k (value / 256 % 256 * 256 + value % 256) s,
          refl,
          (
            (λ j. rw here at (stored-over k (value / 256 % 256) (value % 256) s (omega arith) j)),
            stored-Words k (value / 256 % 256 * 256 + value % 256) s w (omega arith),
            refl,
            refl,
          ),
        )

  -- A long word that is written, past the guard, at an address divisible by four, all of it within the memory,
  -- replaces the four bytes there, the highest first, and nothing else.
  pub put_32-Wrote :
      address % 4 ≡ 0
      → refused address fc s ≡ false
      → offset address + 3 < s.size
      → Returns
          (Wrote
            (over (offset address + 2) (value / 256 % 256) (
              over (offset address + 3) (value % 256) (
                over
                  (offset address)
                  (value / 16777216 % 256)
                  (over (offset address + 1) (value / 65536 % 256) (bytes_of s)))))
            s)
          (put_32 address value fc s)
  unfolding put_32
  put_32-Wrote even h fits =
      let i : ℕ = offset address in
      let k : ℕ = i / 2 in
      let fits₀ : ltb k (s.size / 2) ≡ true = ltb-true k (s.size / 2) (omega (arith, w.0)) in
      let fits₁ : ltb (k + 1) (s.size / 2) ≡ true =
        ltb-true (k + 1) (s.size / 2) (omega (arith, w.0, even)) in
      let here : k * 2 ≡ i = omega (arith, even) in
      let next : (k + 1) * 2 ≡ i + 2 = omega (arith, even) in
      let third : i + 2 + 1 ≡ i + 3 = omega arith in
      let hi : ℕ = value / 16777216 % 256 * 256 + value / 65536 % 256 in
      let lo : ℕ = value / 256 % 256 * 256 + value % 256 in
      let upper : value % word_32 / 65536 ≡ value / 16777216 % 256 * 256 + value / 65536 % 256 =
        omega arith in
      let lower : value % word_32 % 65536 ≡ value / 256 % 256 * 256 + value % 256 = omega arith in
      rw (h, fits₀, fits₁, upper, lower)
        (
          stored (k + 1) lo (stored k hi s),
          refl,
          (
            (λ j.
                rw (next, third) at
                  (stored-over (k + 1) (value / 256 % 256) (value % 256) (stored k hi s)
                    (omega arith) j)
                ∙ ap
                    (λ n.
                      if j == i + 2
                      then value / 256 % 256
                      else if j == i + 3
                      then value % 256
                      else n)
                    (rw here at (
                      stored-over k (value / 16777216 % 256) (value / 65536 % 256) s (omega arith)
                        j))),
            stored-Words (k + 1) lo (stored k hi s) (stored-Words k hi s w (omega arith))
                (omega arith),
            refl,
            refl,
          ),
        )
