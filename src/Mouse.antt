-- ===== src/Mouse.antt =====
-- libvx68k/sccmem.cc: the mouse of `scc_memory` and the IOCS calls that report it. An `int` is an
-- integer: its overflow is undefined in C++, and no operation here leaves the range of the bounds.
mod Examples
pub mod Position
pub mod Report
use vx68k_v.Base.{
  ℕ, suc, ◌+◌, ◌-◌, ◌*◌, ◌/◌, ◌%◌, ◌^◌, Bool, true, false, List, [], ◌∷◌, Option, none, some, ◌>>=◌,
  length, ltb, set, get_elem?, if◌then◌else◌, bits,
}
use vx68k_v.Base.Int.{ℤ, pos, negsuc, ltb_ℤ, ◌-ℤ◌}

pub record Point : Type 0 where
  pub x : ℤ
  pub y : ℤ

pub record Mouse : Type 0 where
  pub left : ℤ
  pub top : ℤ
  pub right : ℤ
  pub bottom : ℤ
  pub states : List Bool
  pub position : Point
  pub old_position : Point
  pub motion : Point

-- `mouse_state`, with none for the exception `out_of_range`.
unfoldable pub mouse_state : ℕ → Mouse → Option Bool
mouse_state button s = get_elem? s.states button

unfoldable pub set_mouse_state : ℕ → Bool → Mouse → Option Mouse
set_mouse_state button state s =
    if ltb button (length s.states)
    then some (record s { states = set s.states button state })
    else none

-- One coordinate of `set_mouse_position`.
unfoldable pub limit : (low high v : ℤ) → ℤ
limit low high v = if ltb_ℤ v low then low else if ltb_ℤ v high then v else (high -ℤ pos 1)

unfoldable pub set_mouse_position : (x y : ℤ) → Mouse → Mouse
unfolding limit
set_mouse_position x y s = record s {
  position = record { x = limit s.left s.right x; y = limit s.top s.bottom y };
}

unfoldable pub track_mouse : Mouse → Mouse
track_mouse s = record s {
  motion = record { x = s.position.x -ℤ s.old_position.x; y = s.position.y -ℤ s.old_position.y };
  old_position = s.position;
}

unfoldable pub set_mouse_bounds : (l t r b : ℤ) → Mouse → Mouse
set_mouse_bounds l t r b s = record s { left = l; top = t; right = r; bottom = b }

unfoldable pub initialize_mouse : Mouse → Mouse
initialize_mouse s = record s {
  left = pos 0;
  top = pos 0;
  right = pos 768;
  bottom = pos 512;
  motion = record { x = pos 0; y = pos 0 };
}

-- The low `w` bits of an `int`, `v & (1 << w) - 1`.
abbrev pub low_bits : (w : ℕ) → ℤ → ℕ
low_bits w (pos n) = n % 2 ^ w
low_bits w (negsuc n) = 2 ^ w - 1 - n % 2 ^ w

-- The value of %d0 after each call.
unfoldable pub iocs_ms_curgt : Mouse → ℕ
iocs_ms_curgt s = low_bits 16 s.position.x * 65536 + low_bits 16 s.position.y

unfoldable pub saturate : ℤ → ℤ
saturate v = if ltb_ℤ v (negsuc 126) then negsuc 126 else if ltb_ℤ (pos 127) v then pos 127 else v

abbrev button_byte : Bool → ℕ
button_byte b = if b then 0xff else 0

unfoldable pub pack : (left right : Bool) → Point → ℕ
unfolding saturate
pack left right delta =
    low_bits 8 (saturate delta.x) * 2 ^ 24
    + low_bits 8 (saturate delta.y) * 2 ^ 16
    + button_byte left * 256
    + button_byte right

unfoldable pub iocs_ms_getdt : Mouse → Option ℕ
unfolding mouse_state pack
iocs_ms_getdt s = do l ← mouse_state 0 s; r ← mouse_state 1 s; some (pack l r s.motion)

unfoldable pub iocs_ms_init : Mouse → Mouse
unfolding initialize_mouse
iocs_ms_init s = initialize_mouse s

unfoldable pub iocs_ms_limit : (tl br : ℕ) → Mouse → Mouse
unfolding set_mouse_bounds
iocs_ms_limit tl br s =
    set_mouse_bounds (pos (tl / 65536)) (pos (tl % 65536)) (pos (br / 65536)) (pos (br % 65536)) s
