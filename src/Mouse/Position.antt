-- ===== src/Mouse/Position.antt =====
-- The position of the mouse of sccmem.cc, from the corners that the guest sets to the position that it
-- is told.
use mathlib.Core.Path.{subst}
use vx68k_v.Base.{ℕ, ◌/◌, ◌%◌, ◌^◌, ◌<◌, ◌≡◌, ◌⊎◌, bits, arith}
use vx68k_v.Base.Int.{ℤ, pos, ◌-ℤ◌, ◌≤ℤ◌, ◌<ℤ◌}
use vx68k_v.Mouse.{Mouse, limit, set_mouse_position, iocs_ms_limit, iocs_ms_curgt}
use vx68k_v.Mouse.Report.{iocs_ms_limit-curgt}

-- What a coordinate becomes: itself within [low, high), and the nearest end of it outside.
abbrev pub IsNearest : (low high v u : ℤ) → Type 0
IsNearest low high v u =
    ((v <ℤ low) × (u ≡ low))
    ⊎ ((low ≤ℤ v) × (v <ℤ high) × (u ≡ v))
    ⊎ ((high ≤ℤ v) × (u ≡ high -ℤ pos 1))

limit-IsNearest : (low high v : ℤ) → low <ℤ high → IsNearest low high v (limit low high v)
unfolding limit ◌-ℤ◌
limit-IsNearest low high v h = ground arith

set_mouse_position-IsNearest :
    (x y : ℤ) (s : Mouse)
    → s.left <ℤ s.right
    → s.top <ℤ s.bottom
    → let u = set_mouse_position x y s in
      IsNearest s.left s.right x u.position.x × IsNearest s.top s.bottom y u.position.y
unfolding set_mouse_position
set_mouse_position-IsNearest x y s h v =
    (limit-IsNearest s.left s.right x h, limit-IsNearest s.top s.bottom y v)

-- After `_MS_LIMIT` with corners of 32 bits that leave at least one point, `_MS_CURGT` reports, for a
-- position set afterwards, the coordinates in 16 bits each of the point within the corners that is
-- nearest to that position: each coordinate as it was asked for if it is within, and the nearest end
-- if it is not.
pub iocs_ms_curgt-IsNearest :
    (tl br : ℕ) (x y : ℤ) (s : Mouse)
    → br < 2 ^ 32
    → tl / 65536 < br / 65536
    → tl % 65536 < br % 65536
    → let d = iocs_ms_curgt (set_mouse_position x y (iocs_ms_limit tl br s)) in
      IsNearest (pos (tl / 65536)) (pos (br / 65536)) x (pos (bits d 16 16))
      × IsNearest (pos (tl % 65536)) (pos (br % 65536)) y (pos (bits d 0 16))
unfolding iocs_ms_limit
iocs_ms_curgt-IsNearest tl br x y s h hx hy =
    let (ex, ey, _, _, _, _) = iocs_ms_limit-curgt tl br x y s h hx hy in
    let (nx, ny) =
      set_mouse_position-IsNearest x y (iocs_ms_limit tl br s) (ground (arith, hx))
        (ground (arith, hy)) in
    (
      subst (IsNearest (pos (tl / 65536)) (pos (br / 65536)) x) ex nx,
      subst (IsNearest (pos (tl % 65536)) (pos (br % 65536)) y) ey ny,
    )
