-- ===== src/TextVram/Raster.antt =====
-- The raster iterator of textvram.cc reads ahead a byte of each plane; what it yields is the pixel
-- of the planes all the same.
use vx68k_v.Base.{
  ℕ, zero, suc, ◌+◌, ◌-◌, ◌*◌, ◌/◌, ◌%◌, ◌^◌, ◌≡◌, refl, inl, inr, ap, ◌∙◌, arith, ◌==◌, Bool-cases,
  ==-eq,
}
use vx68k_v.TextVram.{
  Buffer, row_size, plane_size, RasterIterator, load_packs, raster, increment, pixel,
}

-- The iterator after `n` increments.
pub advance : ℕ → Buffer → RasterIterator → RasterIterator
advance zero b r = r
advance (suc n) b r = increment b (advance n b r)

-- The pixel of column `x` of the raster `y`, its bit of plane `i` at place `i`. A raster is 1024
-- pixels wide and begins again at its end.
unfoldable pub plane_bit : Buffer → (x y plane : ℕ) → ℕ
plane_bit b x y plane = b (y * row_size + x % 1024 / 8 + plane * plane_size) / 2 ^ (7 - x % 8) % 2

unfoldable pub screen_pixel : Buffer → (x y : ℕ) → ℕ
unfolding plane_bit
screen_pixel b x y =
    plane_bit b x y 0 + 2 * plane_bit b x y 1 + 4 * plane_bit b x y 2 + 8 * plane_bit b x y 3

pub increment-load_packs :
    (b : Buffer) (base pos : ℕ) → increment b (load_packs b base pos) ≡ load_packs b base (pos + 1)
unfolding increment
increment-load_packs b base pos = elim (Bool-cases ((pos + 1) / 8 == pos / 8)) [
  | inl same ↦ rw (same, ==-eq ((pos + 1) / 8) (pos / 8) same)
  | inr next ↦ rw next
]

advance-load_packs :
    (n : ℕ) (b : Buffer) (base pos : ℕ)
    → advance n b (load_packs b base pos) ≡ load_packs b base (pos + n)
unfolding advance
advance-load_packs zero b base pos = ap (load_packs b base) (omega arith)
advance-load_packs (suc n) b base pos =
    ap (increment b) (advance-load_packs n b base pos)
    ∙ increment-load_packs b base (pos + n)
    ∙ ap (load_packs b base) (omega arith)

-- After any number of increments the iterator of a raster yields the pixel that many columns on.
pub advance-screen_pixel :
    (n : ℕ) (b : Buffer) (x y : ℕ) → pixel (advance n b (raster x y b)) ≡ screen_pixel b (x + n) y
unfolding pixel raster screen_pixel plane_bit
advance-screen_pixel n b x y =
    let column : (x + n) / 8 % 128 ≡ (x + n) % 1024 / 8 = omega arith in
    rw (advance-load_packs n b (y * row_size) x, column)

-- A raster iterator with its bytes read yields the pixel at its position.
pub pixel-load_packs :
    (b : Buffer) (x y : ℕ) → pixel (load_packs b (y * row_size) x) ≡ screen_pixel b x y
unfolding pixel screen_pixel plane_bit
pixel-load_packs b x y = let column : x / 8 % 128 ≡ x % 1024 / 8 = omega arith in rw column refl
