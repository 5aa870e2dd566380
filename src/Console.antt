-- ===== src/Console.antt =====
-- The text console of libvx68k/machine.cc: `b_putc` and `b_print`, over the text VRAM.
mod Examples
pub mod Screen
use vx68k_v.Base.{
  ℕ, ◌+◌, ◌-◌, ◌*◌, ◌/◌, ◌%◌, ◌^◌, ◌&&◌, ◌||◌, Bool, List, [], ◌∷◌, ◌==◌, ltb, leb, not,
  if◌then◌else◌, add32, bits,
}
use vx68k_v.Base.Bus.{Result, ok, ◌>>=◌}
use vx68k_v.TextVram.{TextVram, Glyphs, scroll, draw_char}
use Prim.Native.Nat.{bit_or}

pub record Console : Type 0 where
  pub curx : ℕ
  pub cury : ℕ
  pub saved_byte1 : ℕ
  pub tvram : TextVram

-- ++cury, and the scroll below line 30.
unfoldable pub line_down : Console → Result Console
unfolding scroll
line_down c =
    if add32 c.cury 1 == 31
    then (scroll c.tvram >>= λ t. ok (record c { tvram = t }))
    else ok (record c { cury = add32 c.cury 1 })

-- The control codes.
unfoldable pub control : ℕ → Console → Result Console
unfolding line_down
control code c =
    if code == 0x09
    then ok (record c { curx = add32 c.curx 8 / 8 * 8 })
    else if code == 0x0a
    then line_down c
    else if code == 0x0d
    then ok (record c { curx = 0 })
    else ok c

-- The code with the saved first byte.
abbrev pub complete : ℕ → Console → ℕ
complete code c =
    if not (c.saved_byte1 == 0) && leb code 0xff then bit_or code (c.saved_byte1 * 256) else code

-- The cursor before a character is put: a wide one leaves the last column free, and the cursor
-- behind the last column goes to the next line.
unfoldable pub wrap : ℕ → Console → Result Console
unfolding line_down
wrap code c =
    let x : ℕ = if leb 0x100 code && (add32 c.curx 1 == 96) then add32 c.curx 1 else c.curx in
    if x == 96 then line_down (record c { curx = 0 }) else ok (record c { curx = x })

abbrev pub is_first_byte : ℕ → Bool
is_first_byte code = (leb 0x80 code && leb code 0x9f) || (leb 0xe0 code && leb code 0xff)

unfoldable pub show : Glyphs → ℕ → Console → Result Console
unfolding draw_char
show g code c =
    if is_first_byte code
    then ok (record c { saved_byte1 = code })
    else draw_char g c.curx c.cury code c.tvram >>= λ t. ok (record c {
      tvram = t;
      curx = if leb 0x100 code then add32 (add32 c.curx 1) 1 else add32 c.curx 1;
    })

unfoldable pub b_putc : Glyphs → ℕ → Console → Result Console
unfolding control wrap show
b_putc g code c =
    if leb code 0x1f || (code == 0x7f)
    then control code (record c { saved_byte1 = 0 })
    else wrap (complete code c) (record c { saved_byte1 = 0 }) >>= show g (complete code c)

-- `b_print`, over the bytes of the string.
unfoldable pub b_print : Glyphs → List ℕ → Console → Result Console
unfolding b_putc
b_print g [] c = ok c
b_print g (code ∷ rest) c = b_putc g code c >>= b_print g rest
