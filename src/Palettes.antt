-- ===== src/Palettes.antt =====
-- libvx68k/palettemem.cc: `palettes_memory`, the 256 text palette entries behind the addresses
-- 0x200 to 0x3ff of the device, and the mark that a colour has changed.
mod Examples
pub mod Access
use vx68k_v.Base.{
  ℕ, zero, suc, ◌+◌, ◌-◌, ◌*◌, ◌/◌, ◌%◌, ◌^◌, Bool, true, false, List, [], ◌∷◌, ◌++◌, ◌==◌, ◌&&◌,
  ltb, leb, not, if◌then◌else◌, bits, word_32,
}
use vx68k_v.Base.Bus.{
  FunctionCode, Result, ok, bus_error, out_of_bounds, reading, writing, is_super_data, ◌>>=◌,
}

pub record Palettes : Type 0 where
  pub tpalette : ℕ → ℕ
  pub text_colors_modified : Bool

-- The constructor.
unfoldable pub init : Palettes
init = record {
  tpalette = λ i.
      if i == 1
      then 0xf83e
      else if i == 2
      then 0xffc0
      else if i == 3
      then 0xfffe
      else if leb 4 i && ltb i 8
      then 0xde6c
      else if leb 8 i && ltb i 16
      then 0x4022
      else 0;
  text_colors_modified = false;
}

unfoldable pub check_text_colors_modified : Palettes → Bool × Palettes
check_text_colors_modified s = (s.text_colors_modified, record s { text_colors_modified = false })

-- The four bytes of a colour.
unfoldable pub rgba : ℕ → List ℕ
rgba value =
    if value == 0
    then 0 ∷ 0 ∷ 0 ∷ 0 ∷ []
    else (let x = value % 2 in
        let r = bits value 6 5 * 2 + x in
        let g = bits value 11 5 * 2 + x in
        let b = value % 0x40 in r * 0xff / 0x3f ∷ g * 0xff / 0x3f ∷ b * 0xff / 0x3f ∷ 0xff ∷ [])

-- The loops of `get_text_colors` from `first` on, `n` entries before the end of the palette.
unfoldable pub colors_loop : (n first last : ℕ) → Palettes → Result (List ℕ)
colors_loop zero first last s = if first == last then ok [] else out_of_bounds
colors_loop (suc n) first last s =
    let rest = colors_loop n (first + 1) last s in
    if first == last then ok [] else (rest >>= λ l. ok (s.tpalette first ∷ l))

unfoldable pub get_text_colors : (first last : ℕ) → Palettes → Result (List ℕ)
unfolding colors_loop
get_text_colors first last s = colors_loop (256 - first) first last s

abbrev pub rgba_all : List ℕ → List ℕ
rgba_all [] = []
rgba_all (v ∷ vs) = rgba v ++ rgba_all vs

-- The overload that writes bytes.
unfoldable pub get_text_colors_rgba : (first last : ℕ) → Palettes → Result (List ℕ)
unfolding get_text_colors rgba
get_text_colors_rgba first last s = get_text_colors first last s >>= λ l. ok (rgba_all l)

unfoldable pub get_16 : ℕ → FunctionCode → Palettes → Result ℕ
get_16 address fc s =
    let a : ℕ = address % word_32 / 2 * 2 in
    let off : ℕ = a % 0x2000 in
    if not (is_super_data fc)
    then bus_error a reading fc
    else if leb (2 * 256 * 2) off
    then ok 0
    else if leb (256 * 2) off
    then ok (s.tpalette ((off - 256 * 2) / 2))
    else ok 0

unfoldable pub get_8 : ℕ → FunctionCode → Palettes → Result ℕ
unfolding get_16
get_8 address fc s =
    let a : ℕ = address % word_32 in
    get_16 a fc s >>= λ w. ok (if not (a % 2 == 0) then w / 256 % 256 else w % 256)

unfoldable pub put_16 : (address value : ℕ) → FunctionCode → Palettes → Result Palettes
put_16 address value fc s =
    let a : ℕ = address % word_32 / 2 * 2 in
    let v : ℕ = value % 65536 in
    let off : ℕ = a % 0x2000 in
    let i : ℕ = (off - 256 * 2) / 2 in
    if not (is_super_data fc)
    then bus_error a writing fc
    else if leb (2 * 256 * 2) off
    then ok s
    else if leb (256 * 2) off
    then if v == s.tpalette i
      then ok s
      else ok (record {
        tpalette = λ j. if j == i then v else s.tpalette j;
        text_colors_modified = true;
      })
    else ok s

unfoldable pub put_8 : (address value : ℕ) → FunctionCode → Palettes → Result Palettes
unfolding get_16 put_16
put_8 address value fc s =
    let a : ℕ = address % word_32 in
    let v : ℕ = value % 256 in
    get_16 a fc s >>= λ w.
    if not (a % 2 == 0)
    then put_16 a (w % 256 + v * 256) fc s
    else put_16 a (w / 256 * 256 + v) fc s
