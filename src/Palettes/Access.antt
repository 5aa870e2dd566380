-- ===== src/Palettes/Access.antt =====
-- Reads and writes of the palette in palettemem.cc, and the colours that the display takes from it.
use vx68k_v.Base.{
  ℕ, ◌+◌, ◌-◌, ◌*◌, ◌/◌, ◌%◌, ◌≤◌, ◌<◌, ◌≡◌, ◌≢◌, ◌∙◌, ap, sym, refl, inl, inr, true, false, arith,
  ◌==◌, not, ==-eq, ==-false, eq_self, leb, Bool-cases, if◌then◌else◌, word_32,
}
use vx68k_v.Base.Bus.{FunctionCode, super_data, is_super_data, Result, ok, bus_error, reading}
use vx68k_v.Palettes.{Palettes, get_16, get_8, put_16, put_8}

-- The addresses of the text palette.
abbrev pub IsText : ℕ → Type 0
IsText address = (0x200 ≤ address % 0x2000) × (address % 0x2000 < 0x400)

-- What a supervisor write of `v` to the entry `i` leaves.
abbrev pub Written : Palettes → (i v : ℕ) → Palettes → Type 0
Written s i v u =
    (u.tpalette i ≡ v)
    × ((j : ℕ) → j ≢ i → u.tpalette j ≡ s.tpalette j)
    × (u.text_colors_modified ≡ (if v == s.tpalette i then s.text_colors_modified else true))

abbrev pub Returns {ℓ} : {A : Type ℓ} → (A → Type 0) → Result A → Type ℓ
Returns {A = A} P r = (a : A) × (r ≡ ok a) × P a

-- The entry at an address.
abbrev pub entry : ℕ → ℕ
entry address = (address % 0x2000 - 0x200) / 2

get_16-entry :
    (address : ℕ) (s : Palettes)
    → IsText address
    → get_16 address super_data s ≡ ok (s.tpalette (entry address))
unfolding get_16
get_16-entry address s t =
    let off : ℕ = address % word_32 / 2 * 2 % 0x2000 in
    let same : (off - 256 * 2) / 2 ≡ entry address = omega (arith, t.0, t.1) in
    let low : leb (256 * 2) off ≡ true = ground (arith, t.0, t.1) in
    let high : leb (2 * 256 * 2) off ≡ false = ground (arith, t.0, t.1) in rw (low, high, same) refl

-- The palette with the entry `i` set.
abbrev changed : (i v : ℕ) → Palettes → Palettes
changed i v s = if v == s.tpalette i then s else (record {
  tpalette = λ j. if j == i then v else s.tpalette j;
  text_colors_modified = true;
})

put_16-changed :
    (address value : ℕ) (s : Palettes)
    → IsText address
    → put_16 address value super_data s ≡ ok (changed (entry address) (value % 65536) s)
unfolding put_16
put_16-changed address value s t =
    let off : ℕ = address % word_32 / 2 * 2 % 0x2000 in
    let same : (off - 256 * 2) / 2 ≡ entry address = omega (arith, t.0, t.1) in
    let low : leb (256 * 2) off ≡ true = ground (arith, t.0, t.1) in
    let high : leb (2 * 256 * 2) off ≡ false = ground (arith, t.0, t.1) in
    elim (Bool-cases (value % 65536 == s.tpalette (entry address))) [
      | inl eq ↦ rw (low, high, same, eq) refl
      | inr ne ↦ rw (low, high, same, ne) refl
    ]

changed-Written : (i v : ℕ) (s : Palettes) → Written s i v (changed i v s)
changed-Written i v s = elim (Bool-cases (v == s.tpalette i)) [
  | inl eq ↦ rw eq (sym (==-eq v (s.tpalette i) eq), (λ j ne. refl), refl)
  | inr ne ↦ rw (ne, eq_self i) (refl, (λ j apart. rw (==-false j i apart) refl), refl)
]

-- A word that a supervisor writes to a text palette address sets exactly its entry, and marks the colours as
-- modified if and only if the entry changes; it is read back at the same address.
pub put_16-Written :
    (address value : ℕ) (s : Palettes)
    → IsText address
    → Returns
        (λ u.
          Written s (entry address) (value % 65536) u
          × (get_16 address super_data u ≡ ok (value % 65536)))
        (put_16 address value super_data s)
put_16-Written address value s t =
    let u : Palettes = changed (entry address) (value % 65536) s in
    let w : Written s (entry address) (value % 65536) u =
      changed-Written (entry address) (value % 65536) s in
    (u, put_16-changed address value s t, (w, get_16-entry address u t ∙ ap ok w.0))

-- The byte of a word that the device gives at an address.
abbrev byte_at : (address w : ℕ) → ℕ
byte_at address w = if not (address % word_32 % 2 == 0) then w / 256 % 256 else w % 256

get_8-entry :
    (address : ℕ) (s : Palettes)
    → IsText address
    → get_8 address super_data s ≡ ok (byte_at address (s.tpalette (entry address)))
unfolding get_8
get_8-entry address s t =
    let same : entry (address % word_32) ≡ entry address = omega arith in
    rw (get_16-entry (address % word_32) s (omega (arith, t.0), omega (arith, t.1)), same) refl

-- The word with its byte at an address replaced.
abbrev with_byte : (address v w : ℕ) → ℕ
with_byte address v w =
    if not (address % word_32 % 2 == 0) then w % 256 + v * 256 else w / 256 * 256 + v

with_byte-here :
    (address v w : ℕ) → w < 65536 → v < 256 → byte_at address (with_byte address v w % 65536) ≡ v
with_byte-here address v w h small = ground arith

with_byte-other :
    (address v w : ℕ)
    → w < 65536
    → v < 256
    → byte_at (address / 2 * 2 + (1 - address % 2)) (with_byte address v w % 65536)
      ≡ byte_at (address / 2 * 2 + (1 - address % 2)) w
with_byte-other address v w h small = ground arith

put_8-changed :
    (address value : ℕ) (s : Palettes)
    → IsText address
    → put_8 address value super_data s
      ≡ ok (
          changed
            (entry address)
            (with_byte address (value % 256) (s.tpalette (entry address)) % 65536)
            s)
unfolding put_8
put_8-changed address value s t =
    let a : ℕ = address % word_32 in
    let t' : IsText a = (omega (arith, t.0), omega (arith, t.1)) in
    let same : entry a ≡ entry address = omega arith in
    let w : ℕ = s.tpalette (entry address) in
    let there : (n : ℕ) → put_16 a n super_data s ≡ ok (changed (entry address) (n % 65536) s) =
      λ n. put_16-changed a n s t' ∙ ap (λ i. ok (changed i (n % 65536) s)) same in
    elim (Bool-cases (a % 2 == 0)) [
      | inl even ↦ rw (get_16-entry a s t', even, same) (there (w / 256 * 256 + value % 256))
      | inr odd ↦ rw (get_16-entry a s t', odd, same) (there (w % 256 + value % 256 * 256))
    ]

-- A byte that a supervisor writes to a text palette address, of an entry of 16 bits, is read back there, and the other byte of the entry
-- stays as it was.
pub put_8-get_8 :
    (address value : ℕ) (s : Palettes)
    → IsText address
    → s.tpalette (entry address) < 65536
    → Returns
        (λ u.
          (get_8 address super_data u ≡ ok (value % 256))
          × (get_8 (address / 2 * 2 + (1 - address % 2)) super_data u
              ≡ get_8 (address / 2 * 2 + (1 - address % 2)) super_data s))
        (put_8 address value super_data s)
put_8-get_8 address value s t small =
    let i : ℕ = entry address in
    let w : ℕ = with_byte address (value % 256) (s.tpalette i) in
    let u : Palettes = changed i (w % 65536) s in
    let other : ℕ = address / 2 * 2 + (1 - address % 2) in
    let t' : IsText other = (omega (arith, t.0), omega (arith, t.1)) in
    let beside : entry other ≡ i = omega arith in
    let put : u.tpalette i ≡ w % 65536 = (changed-Written i (w % 65536) s).0 in
    (
      u,
      put_8-changed address value s t,
      (
        get_8-entry address u t
            ∙ ap ok (
                ap (byte_at address) put
                ∙ with_byte-here address (value % 256) (s.tpalette i) small (omega arith)),
        get_8-entry other u t'
            ∙ ap (λ n. ok (byte_at other n)) (ap u.tpalette beside ∙ put)
            ∙ ap ok (with_byte-other address (value % 256) (s.tpalette i) small (omega arith))
            ∙ ap (λ n. ok (byte_at other (s.tpalette n))) (sym beside)
            ∙ sym (get_8-entry other s t'),
      ),
    )

-- The byte at the even address of an entry is its low byte, and that at the odd address its high
-- byte, against the order of the bytes of a word on the MC68000.
pub get_8_swapped :
    (address w : ℕ) (s : Palettes)
    → address % 2 ≡ 0
    → address + 1 < word_32
    → get_16 address super_data s ≡ ok w
    → w < 65536
    → (get_8 address super_data s ≡ ok (w % 256))
      × (get_8 (address + 1) super_data s ≡ ok (w / 256))
unfolding get_8
get_8_swapped address w s even fits e h = ground arith

-- A byte write that is not a supervisor data access faults with the status of a read.
pub put_8-reading :
    (address value : ℕ) (fc : FunctionCode) (s : Palettes)
    → is_super_data fc ≡ false
    → put_8 address value fc s ≡ bus_error (address % word_32 / 2 * 2) reading fc
unfolding put_8 get_16
put_8-reading address value fc s h = ground arith
