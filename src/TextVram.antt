-- ===== src/TextVram.antt =====
-- libvx68k/textvram.cc: `text_video_memory`, the four bit planes of the text screen and the marks
-- of the rasters to redraw. The buffer is a function on its offsets; a write outside it, or a mark
-- outside the vector, is `out_of_bounds`. The mutex only guards the calls, one call is one step.
mod Examples
pub mod Sjis
pub mod Iterator
pub mod Draw
pub mod Conversion
pub mod Marks
pub mod Changes
pub mod Raster
pub mod Fill
use Prim.Native.Nat.{bit_or}
use vx68k_v.Base.{
  ℕ, zero, suc, ◌+◌, ◌-◌, ◌*◌, ◌/◌, ◌%◌, ◌^◌, ◌≡◌, Bool, true, false, ◌&&◌, ◌||◌, List, [], ◌∷◌,
  ◌==◌, ltb, leb, not, if◌then◌else◌, bits,
}
use vx68k_v.Base.Bus.{
  FunctionCode, Result, ok, bus_error, out_of_bounds, reading, writing, is_super_data, ◌>>=◌,
}
use Iterator.{WordIterator}
use Sjis.{draw_code}

abbrev pub row_size : ℕ
row_size = 128

abbrev pub plane_size : ℕ
plane_size = 131072

abbrev pub buffer_size : ℕ
buffer_size = 524288

abbrev pub Buffer : Type 0
Buffer = ℕ → ℕ

pub record TextVram : Type 0 where
  pub buf : Buffer
  pub marks : ℕ → Bool

-- The constructor: cleared planes, no mark.
abbrev pub blank : TextVram
blank = record { buf = λ _. 0; marks = λ _. false }

abbrev pub put_byte : ℕ → ℕ → Buffer → Result Buffer
put_byte i v b =
    if ltb i buffer_size then ok (λ j. if i == j then v % 256 else b j) else out_of_bounds

-- `mark_update_area`; only the rows count.
unfoldable pub mark_update_area : (top bottom : ℕ) → TextVram → Result TextVram
mark_update_area top bottom t =
    if leb top bottom && leb bottom 1024
    then ok (record t { marks = λ y. (leb top y && ltb y bottom) || t.marks y })
    else out_of_bounds

unfoldable pub row_changed : ℕ → TextVram → Bool × TextVram
row_changed index t =
    if t.marks index
    then (true, record t { marks = λ y. if y == index then false else t.marks y })
    else (false, t)

unfoldable pub poll_update : TextVram → (ℕ → Bool) × TextVram
poll_update t = (t.marks, record t { marks = λ _. false })

-- One plane of `scroll`: the copy of 30 lines of 16 rows up by one, and the cleared last line.
abbrev pub scroll_plane : ℕ → Buffer → Buffer
scroll_plane base b j =
    if leb base j && ltb j (base + 61440)
    then b (j + 2048)
    else if leb (base + 61440) j && ltb j (base + 63488)
    then 0
    else b j

unfoldable pub scroll : TextVram → Result TextVram
unfolding mark_update_area
scroll t =
    mark_update_area 0 496 (record t { buf = scroll_plane plane_size (scroll_plane 0 t.buf) })

-- The rows of a glyph, from the offset `p`: two bytes of the image a row, or one.
unfoldable pub draw_wide : ℕ → (img : ℕ → ℕ) → (i p : ℕ) → Buffer → Result Buffer
draw_wide zero img i p b = ok b
draw_wide (suc n) img i p b = put_byte p (img i) b >>= λ b1.
    put_byte (p + 1) (img (i + 1)) b1 >>= λ b2. draw_wide n img (i + 2) (p + row_size) b2

unfoldable pub draw_narrow : ℕ → (img : ℕ → ℕ) → (i p : ℕ) → Buffer → Result Buffer
draw_narrow zero img i p b = ok b
draw_narrow (suc n) img i p b =
    put_byte p (img i) b >>= λ b1. draw_narrow n img (i + 1) (p + row_size) b1

-- The images that the connected console supplies, by character code and byte.
pub record Glyphs : Type 0 where
  pub k16 : ℕ → ℕ → ℕ
  pub b16 : ℕ → ℕ → ℕ

unfoldable pub draw_char : Glyphs → (x y c : ℕ) → TextVram → Result TextVram
unfolding draw_wide draw_narrow mark_update_area draw_code
draw_char g x y c t =
    let (ch1, ch2) = draw_code c in
    let p : ℕ = y * 16 * row_size + x in
    if leb 0x21 ch1 && leb ch1 0x7e
    then (draw_wide 16 (g.k16 (bit_or (ch1 * 256) ch2)) 0 p t.buf >>= λ b1.
        draw_wide 16 (g.k16 (bit_or (ch1 * 256) ch2)) 0 (plane_size + p) b1 >>= λ b2.
        mark_update_area (y * 16) (y * 16 + 16) (record t { buf = b2 }))
    else (draw_narrow 16 (g.b16 ch2) 0 p t.buf >>= λ b1.
        draw_narrow 16 (g.b16 ch2) 0 (plane_size + p) b1 >>= λ b2.
        mark_update_area (y * 16) (y * 16 + 16) (record t { buf = b2 }))

-- `connect`, for the marks.
unfoldable pub connect : TextVram → Result TextVram
unfolding mark_update_area
connect t = mark_update_area 0 512 t

module _ (it : WordIterator) where
  open it use {fetch, store}

  unfoldable pub get_16 : ℕ → FunctionCode → TextVram → Result ℕ
  get_16 address fc t =
      if not (is_super_data fc)
      then bus_error address reading fc
      else ok (fetch (address % buffer_size) t.buf)

  unfoldable pub put_16 : ℕ → ℕ → FunctionCode → TextVram → Result TextVram
  unfolding mark_update_area
  put_16 address value fc t =
      let a : ℕ = address % buffer_size in
      let y : ℕ = a / row_size % 1024 in
      if not (is_super_data fc)
      then bus_error address writing fc
      else if value % 65536 == fetch a t.buf
      then ok t
      else mark_update_area y (y + 1) (record t { buf = store a (value % 65536) t.buf })

unfoldable pub get_8 : ℕ → FunctionCode → TextVram → Result ℕ
get_8 address fc t =
    if not (is_super_data fc)
    then bus_error address reading fc
    else ok (t.buf (address % buffer_size))

unfoldable pub put_8 : ℕ → ℕ → FunctionCode → TextVram → Result TextVram
unfolding mark_update_area
put_8 address value fc t =
    let a : ℕ = address % buffer_size in
    let y : ℕ = a / row_size % 1024 in
    if not (is_super_data fc)
    then bus_error address writing fc
    else if value % 256 == t.buf a
    then ok t
    else mark_update_area y (y + 1)
        (record t { buf = λ j. if a == j then value % 256 else t.buf j })

-- `text_video_raster_iterator`: the offset of its buffer, its position, and the bytes of the four
-- planes at the position.
pub record RasterIterator : Type 0 where
  pub base : ℕ
  pub pos : ℕ
  pub pack0 : ℕ
  pub pack1 : ℕ
  pub pack2 : ℕ
  pub pack3 : ℕ

-- The iterator with the bytes of its position read.
abbrev pub load_packs : Buffer → (base pos : ℕ) → RasterIterator
load_packs b base pos =
    let p : ℕ = base + pos / 8 % row_size in
    record {
      base = base;
      pos = pos;
      pack0 = b (p + 0 * plane_size);
      pack1 = b (p + 1 * plane_size);
      pack2 = b (p + 2 * plane_size);
      pack3 = b (p + 3 * plane_size);
    }

unfoldable pub raster : (x y : ℕ) → Buffer → RasterIterator
raster x y b = load_packs b (y * row_size) x

-- Prefix `operator++`.
unfoldable pub increment : Buffer → RasterIterator → RasterIterator
increment b r =
    if not ((r.pos + 1) / 8 == r.pos / 8)
    then load_packs b r.base (r.pos + 1)
    else record r { pos = r.pos + 1 }

-- `operator*`: bit `i` of the value is the bit of plane `i` under the mask 0x80 >> pos % 8.
unfoldable pub pixel : RasterIterator → ℕ
pixel r =
    let bit : ℕ → ℕ = λ pack. pack / 2 ^ (7 - r.pos % 8) % 2 in
    bit r.pack0 + 2 * bit r.pack1 + 4 * bit r.pack2 + 8 * bit r.pack3
