-- ===== src/Screen.antt =====
-- libvx68k-gtk/gtkconsole.cc: how `gtk_console::handle_timeout` brings the screen up to date, with
-- `machine::scan_row` of include/vx68k/machine.h, which it calls for each row.
pub mod Pixels
pub mod Steps
pub mod Rows
pub mod Refresh
pub mod Sweep
pub mod Timeouts
mod Examples
use vx68k_v.Base.{
  ℕ, zero, suc, ◌+◌, ◌-◌, ◌*◌, ◌/◌, ◌%◌, ◌^◌, Bool, true, false, ◌&&◌, ◌||◌, List, [], ◌∷◌, ◌==◌,
  ltb, leb, if◌then◌else◌, get_or, bits, sub32,
}
use vx68k_v.Base.Bus.{Result, ok, ◌>>=◌}
use vx68k_v.TextVram.{Buffer, TextVram, RasterIterator, raster, increment, pixel, row_changed}
use vx68k_v.Palettes.{Palettes, get_text_colors, check_text_colors_modified}

-- The size of the screen in pixels, of a row of its image in bytes, and SCREEN_CHECK_INTERVAL.
abbrev pub width : ℕ
width = 768

abbrev pub height : ℕ
height = 512

abbrev pub image_row_size : ℕ
image_row_size = 2304

abbrev pub screen_check_interval : ℕ
screen_check_interval = 25

-- The byte `n` of `rgb_table`, three for each colour, as the constructor fills it.
unfoldable pub rgb_table : ℕ → ℕ
rgb_table n =
    let i : ℕ = n / 3 in
    let x : ℕ = i % 2 in
    if n % 3 == 0
    then (bits i 6 5 * 2 + x) * 0xff / 0x3f
    else if n % 3 == 1
    then (bits i 11 5 * 2 + x) * 0xff / 0x3f
    else i % 0x40 * 0xff / 0x3f

-- `*first = color` of a `pixel_iterator` at the offset `p`.
abbrev pub put_pixel : (p color : ℕ) → Buffer → Buffer
put_pixel p color rgb j =
    if leb p j && ltb j (p + 3) then rgb_table (color * 3 + (j - p)) else rgb j

-- The loop of `scan_row`, `n` pixels before the end.
unfoldable pub scan : (n : ℕ) → List ℕ → Buffer → RasterIterator → (p : ℕ) → Buffer → Buffer
scan zero colors b r p rgb = rgb
scan (suc n) colors b r p rgb =
    let color : ℕ = get_or colors (pixel r) 0 in
    scan n colors b (increment b r) (p + 3)
      (if color == 0 then put_pixel p 0 rgb else put_pixel p color rgb)

-- `scan_row` into the `n` pixels at the offset `p` of the image.
unfoldable pub scan_row : (y n p : ℕ) → TextVram → Palettes → Buffer → Result Buffer
unfolding scan
scan_row y n p t s rgb =
    get_text_colors 0 16 s >>= λ colors. ok (scan n colors t.buf (raster 0 y t.buf) p rgb)

-- The devices that the console reads, and its fields. `queued` has the rows for which it asks GTK to
-- draw an area, the last one first.
pub record Display : Type 0 where
  pub vram : TextVram
  pub palettes : Palettes
  pub rgb_buf : Buffer
  pub counter : ℕ
  pub queued : List ℕ

-- The lines before the loop over the rows: whether all of them are drawn.
unfoldable pub begin_timeout : Display → Bool × Display
unfolding check_text_colors_modified
begin_timeout d =
    let counter : ℕ = sub32 d.counter 1 in
    if counter == 0
    then (let (u, s) = check_text_colors_modified d.palettes in
        (u, record d { palettes = s; counter = screen_check_interval }))
    else (false, record d { counter = counter })

-- The body of the loop over the rows.
unfoldable pub refresh_row : (u : Bool) → (y : ℕ) → Display → Result Display
unfolding row_changed
refresh_row u y d =
    let (changed, t) = row_changed y d.vram in
    if changed || u
    then (scan_row y width (y * image_row_size) t d.palettes d.rgb_buf >>= λ rgb.
        ok (record d { vram = t; rgb_buf = rgb; queued = y ∷ d.queued }))
    else ok (record d { vram = t })

-- The loop, `n` rows before the end.
unfoldable pub refresh_rows : (n : ℕ) → (u : Bool) → (y : ℕ) → Display → Result Display
refresh_rows zero u y d = ok d
refresh_rows (suc n) u y d = refresh_row u y d >>= refresh_rows n u (y + 1)

unfoldable pub handle_timeout : Display → Result Display
unfolding begin_timeout
handle_timeout d = let (u, e) = begin_timeout d in refresh_rows height u 0 e
