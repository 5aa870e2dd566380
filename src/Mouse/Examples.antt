-- ===== src/Mouse/Examples.antt =====
-- The theorems on sccmem.cc at a mouse on a screen of 768 by 512.
use vx68k_v.Base.{true, false, [], ◌∷◌, bits, arith}
use vx68k_v.Base.Int.{ℤ, pos, negsuc}
use vx68k_v.Mouse.Position.{IsNearest, iocs_ms_curgt-IsNearest}
use vx68k_v.Mouse.{Point, Mouse, set_mouse_position, iocs_ms_limit, iocs_ms_curgt}

abbrev point : (x y : ℤ) → Point
point x y = record { x = x; y = y }

abbrev centred : Mouse
centred = record {
  left = pos 0;
  top = pos 0;
  right = pos 768;
  bottom = pos 512;
  states = true ∷ false ∷ [];
  position = point (pos 384) (pos 256);
  old_position = point (pos 384) (pos 256);
  motion = point (negsuc 299) (pos 20);
}

-- The corners (16, 32) and (400, 300), and a position on the right of them.
iocs_ms_curgt-IsNearest_example :
    let d =
      iocs_ms_curgt
        (set_mouse_position (pos 900) (pos 100) (iocs_ms_limit 0x100020 0x190012c centred)) in
    IsNearest (pos 16) (pos 400) (pos 900) (pos (bits d 16 16))
    × IsNearest (pos 32) (pos 300) (pos 100) (pos (bits d 0 16))
iocs_ms_curgt-IsNearest_example =
    iocs_ms_curgt-IsNearest 0x100020 0x190012c (pos 900) (pos 100) centred (omega arith)
      (omega arith) (omega arith)
