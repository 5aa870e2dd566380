-- ===== src/TextVram/Draw.antt =====
-- What `draw_char` of textvram.cc does to the buffer, byte by byte, and where it stays inside.
use Prim.Native.Nat.{bit_or}
use native.Mathlib.Nat.{zero-add}
use mathlib.Core.Path.{fun_ext}
use vx68k_v.TextVram.Sjis.{draw_code}
use vx68k_v.Base.{
  ℕ, zero, suc, ◌+◌, ◌-◌, ◌*◌, ◌/◌, ◌%◌, ◌≤◌, ◌<◌, ◌≡◌, refl, ap, ◌∙◌, inl, inr, Bool, true, false,
  ◌&&◌, ◌||◌, arith, Bool-cases, ltb, leb, ◌==◌, if◌then◌else◌, ltb-true, ltb-lt, leb-le, leb-true,
  ==-true, ==-eq,
}
use vx68k_v.Base.Bus.{ok}
use vx68k_v.TextVram.{
  Buffer, row_size, buffer_size, plane_size, Glyphs, TextVram, draw_wide, draw_narrow, draw_char,
  mark_update_area,
}

-- The buffer with `n` rows of an image of `w` bytes a row laid on it from the offset `p`.
abbrev pub stamp : (w n : ℕ) → (img : ℕ → ℕ) → (i p : ℕ) → Buffer → Buffer
stamp w n img i p b j =
    if leb p j && (ltb ((j - p) / 128) n && ltb ((j - p) % 128) w)
    then img (i + w * ((j - p) / 128) + (j - p) % 128) % 256
    else b j

stamp_step-narrow :
    (n : ℕ) (img : ℕ → ℕ) (i p : ℕ) (b : Buffer) (j : ℕ)
    → stamp 1 n img (i + 1) (p + 128) (λ k. if p == k then img i % 256 else b k) j
      ≡ stamp 1 (suc n) img i p b j
stamp_step-narrow n img i p b j = ground arith

stamp_step-wide :
    (n : ℕ) (img : ℕ → ℕ) (i p : ℕ) (b : Buffer) (j : ℕ)
    → stamp 2 n img
        (i + 2)
        (p + 128)
        (λ k. if p + 1 == k then img (i + 1) % 256 else if p == k then img i % 256 else b k)
        j
      ≡ stamp 2 (suc n) img i p b j
stamp_step-wide n img i p b j = ground arith

-- Rows that end inside the buffer are drawn, and are the stamp of the image.
pub draw_narrow-stamp :
    (n : ℕ) (img : ℕ → ℕ) (i p : ℕ) (b : Buffer)
    → p + n * 128 ≤ buffer_size + 127
    → draw_narrow n img i p b ≡ ok (stamp 1 n img i p b)
unfolding draw_narrow
draw_narrow-stamp zero img i p b h = ap ok (fun_ext λ j. ground arith)
draw_narrow-stamp (suc n) img i p b h = rw (ltb-true p buffer_size (omega arith)) (
    draw_narrow-stamp n img (i + 1) (p + 128) _ (omega arith)
    ∙ ap ok (fun_ext λ j. stamp_step-narrow n img i p b j))

pub draw_wide-stamp :
    (n : ℕ) (img : ℕ → ℕ) (i p : ℕ) (b : Buffer)
    → p + n * 128 ≤ buffer_size + 126
    → draw_wide n img i p b ≡ ok (stamp 2 n img i p b)
unfolding draw_wide
draw_wide-stamp zero img i p b h = ap ok (fun_ext λ j. ground arith)
draw_wide-stamp (suc n) img i p b h =
    rw (ltb-true p buffer_size (omega arith), ltb-true (p + 1) buffer_size (omega arith))
      (draw_wide-stamp n img (i + 2) (p + 128) _ (omega arith)
        ∙ ap ok (fun_ext λ j. stamp_step-wide n img i p b j))

-- The width of the image of a code in bytes, and its bytes.
abbrev pub is_wide : ℕ → Bool
is_wide c = leb 0x21 (draw_code c).0 && leb (draw_code c).0 0x7e

abbrev pub glyph_width : ℕ → ℕ
glyph_width c = if is_wide c then 2 else 1

abbrev pub glyph_image : Glyphs → ℕ → ℕ → ℕ
glyph_image g c =
    if is_wide c
    then g.k16 (bit_or ((draw_code c).0 * 256) (draw_code c).1)
    else g.b16 (draw_code c).1

-- The buffer with a character cell of `w` bytes by 16 rows on the planes 0 and 1 replaced, where the
-- offset `j` is the byte `j % 128` of the row `j % plane_size / 128` of the plane `j / plane_size`.
abbrev pub with_cell : (w : ℕ) → (img : ℕ → ℕ) → (x y : ℕ) → Buffer → Buffer
with_cell w img x y b j =
    if ltb (j / plane_size) 2
      && (leb (y * 16) (j % plane_size / row_size) && ltb (j % plane_size / row_size) (y * 16 + 16))
      && (leb x (j % row_size) && ltb (j % row_size) (x + w))
    then img (w * (j % plane_size / row_size - y * 16) + (j % row_size - x)) % 256
    else b j

-- The same on the plane `q` alone.
abbrev with_plane_cell : (q w : ℕ) → (img : ℕ → ℕ) → (x y : ℕ) → Buffer → Buffer
with_plane_cell q w img x y b j =
    if (j / plane_size == q)
      && (leb (y * 16) (j % plane_size / row_size) && ltb (j % plane_size / row_size) (y * 16 + 16))
      && (leb x (j % row_size) && ltb (j % row_size) (x + w))
    then img (w * (j % plane_size / row_size - y * 16) + (j % row_size - x)) % 256
    else b j

and_true_3 : (a b c : Bool) → (a && (b && c)) ≡ true → (a ≡ true) × (b ≡ true) × (c ≡ true)
and_true_3 a b c h = ground arith

and_true_5 :
    (a b c d e : Bool)
    → (a && (b && c) && (d && e)) ≡ true
    → (a ≡ true) × (b ≡ true) × (c ≡ true) × (d ≡ true) × (e ≡ true)
and_true_5 a b c d e h = ground arith

if_same :
    (s c : Bool) (u v d : ℕ)
    → (s ≡ true → (c ≡ true) × (u ≡ v))
    → (c ≡ true → s ≡ true)
    → (if s then u else d) ≡ (if c then v else d)
if_same true true u v d f g = (f refl).1
if_same true false u v d f g = let e = (f refl).0 in cc e
if_same false true u v d f g = cc (g refl)
if_same false false u v d f g = refl

-- The coordinates of an offset inside the stamp.
stamp_coordinates :
    (q w x y pl r col d m j : ℕ)
    → j ≡ pl * plane_size + r * 128 + col
    → r < 1024
    → col < 128
    → x + w ≤ 128
    → y < 64
    → j ≡ q * plane_size + (y * 16 * row_size + x) + d * 128 + m
    → d < 16
    → m < w
    → (pl ≡ q)
      × (y * 16 ≤ r)
      × (r < y * 16 + 16)
      × (x ≤ col)
      × (col < x + w)
      × (d ≡ r - y * 16)
      × (m ≡ col - x)
stamp_coordinates q w x y pl r col d m j e rl cl h k f dl ml = omega arith

coordinates_stamp :
    (q w x y pl r col j : ℕ)
    → j ≡ pl * plane_size + r * 128 + col
    → x + w ≤ 128
    → y < 64
    → pl ≡ q
    → y * 16 ≤ r
    → r < y * 16 + 16
    → x ≤ col
    → col < x + w
    → (q * plane_size + (y * 16 * row_size + x) ≤ j)
      × ((j - (q * plane_size + (y * 16 * row_size + x))) / 128 < 16)
      × ((j - (q * plane_size + (y * 16 * row_size + x))) % 128 < w)
coordinates_stamp q w x y pl r col j e h k a lo hi le ri = omega arith

stamp-plane :
    (q w : ℕ) (img : ℕ → ℕ) (x y : ℕ) (b : Buffer) (j : ℕ)
    → x + w ≤ 128
    → y < 64
    → stamp w 16 img 0 (q * plane_size + (y * 16 * row_size + x)) b j
      ≡ with_plane_cell q w img x y b j
stamp-plane q w img x y b j h k =
    let pl : ℕ = j / plane_size in
    let r : ℕ = j % plane_size / row_size in
    let col : ℕ = j % row_size in
    let p : ℕ = q * plane_size + (y * 16 * row_size + x) in
    let stamped : Bool = leb p j && (ltb ((j - p) / 128) 16 && ltb ((j - p) % 128) w) in
    let in_cell : Bool =
      (pl == q) && (leb (y * 16) r && ltb r (y * 16 + 16)) && (leb x col && ltb col (x + w)) in
    if_same stamped in_cell _ _ (b j)
      (λ e.
        let t = and_true_3 (leb p j) (ltb ((j - p) / 128) 16) (ltb ((j - p) % 128) w) e in
        let le = leb-le p j t.0 in
        let co =
          stamp_coordinates q w x y pl r col ((j - p) / 128) ((j - p) % 128) j (omega arith)
            (omega arith) (omega arith) h k (omega (arith, le)) (ltb-lt _ _ t.1) (ltb-lt _ _ t.2) in
        (
          rw (
            ==-true pl q co.0,
            leb-true (y * 16) r co.1,
            ltb-true r (y * 16 + 16) co.2,
            leb-true x col co.3,
            ltb-true col (x + w) co.4,
          ),
          ap (λ i. img i % 256) (rw (co.5, co.6) (omega arith)),
        ))
      (λ e.
        let t =
          and_true_5 (pl == q) (leb (y * 16) r) (ltb r (y * 16 + 16)) (leb x col) (ltb col (x + w))
            e in
        let at_plane = ==-eq pl q t.0 in
        let low = leb-le (y * 16) r t.1 in
        let high = ltb-lt r (y * 16 + 16) t.2 in
        let left = leb-le x col t.3 in
        let right = ltb-lt col (x + w) t.4 in
        let inside : (p ≤ j) × ((j - p) / 128 < 16) × ((j - p) % 128 < w) =
          coordinates_stamp q w x y pl r col j (omega arith) h k at_plane low high left right in
        rw (
          leb-true p j inside.0,
          ltb-true ((j - p) / 128) 16 inside.1,
          ltb-true ((j - p) % 128) w inside.2,
        ))

two_planes :
    (pl v d : ℕ) (rows cols : Bool)
    → (if (pl == 1) && rows && cols then v else if (pl == 0) && rows && cols then v else d)
      ≡ (if ltb pl 2 && rows && cols then v else d)
two_planes pl v d rows cols = ground arith

-- The two planes of `draw_char`.
stamp-with_cell :
    (w : ℕ) (img : ℕ → ℕ) (x y : ℕ) (b : Buffer) (j : ℕ)
    → x + w ≤ 128
    → y < 64
    → stamp w 16 img 0
        (plane_size + (y * 16 * row_size + x))
        (stamp w 16 img 0 (y * 16 * row_size + x) b)
        j
      ≡ with_cell w img x y b j
stamp-with_cell w img x y b j h k =
    let first = rw zero-add at (stamp-plane 0 w img x y b j h k) in
    let second = stamp-plane 1 w img x y (stamp w 16 img 0 (y * 16 * row_size + x) b) j h k in
    let r : ℕ = j % plane_size / row_size in
    let rows : Bool = leb (y * 16) r && ltb r (y * 16 + 16) in
    let cols : Bool = leb x (j % row_size) && ltb (j % row_size) (x + w) in
    let v : ℕ = img (w * (r - y * 16) + (j % row_size - x)) % 256 in
    second
    ∙ ap (λ d. if (j / plane_size == 1) && rows && cols then v else d) first
    ∙ two_planes (j / plane_size) v (b j) rows cols

-- The state after `draw_char`: the cell on both planes, and its 16 rows marked.
abbrev pub drawn : Glyphs → (x y c : ℕ) → TextVram → TextVram
drawn g x y c t = record {
  buf = with_cell (glyph_width c) (glyph_image g c) x y t.buf;
  marks = λ r. (leb (y * 16) r && ltb r (y * 16 + 16)) || t.marks r;
}

mark_rows :
    (y : ℕ) (t : TextVram)
    → y < 64
    → mark_update_area (y * 16) (y * 16 + 16) t
      ≡ ok (record t { marks = λ r. (leb (y * 16) r && ltb r (y * 16 + 16)) || t.marks r })
unfolding mark_update_area
mark_rows y t k =
    rw (leb-true (y * 16) (y * 16 + 16) (omega arith), leb-true (y * 16 + 16) 1024 (omega arith))

-- A character whose image ends within the 128 bytes of a row, on a text line below 64, is drawn
-- without an access outside the buffer or the marks. It replaces exactly the bytes of its cell on
-- the planes 0 and 1 and marks exactly the 16 rows of the cell in addition.
pub draw_char-drawn :
    (g : Glyphs) (x y c : ℕ) (t : TextVram)
    → x + glyph_width c ≤ 128
    → y < 64
    → draw_char g x y c t ≡ ok (drawn g x y c t)
unfolding draw_char
draw_char-drawn g x y c t h k =
    let p : ℕ = y * 16 * row_size + x in
    let wide_image : ℕ → ℕ = g.k16 (bit_or ((draw_code c).0 * 256) (draw_code c).1) in
    let narrow_image : ℕ → ℕ = g.b16 (draw_code c).1 in
    let marked : Buffer → TextVram =
      λ b. record { buf = b; marks = λ r. (leb (y * 16) r && ltb r (y * 16 + 16)) || t.marks r } in
    elim (Bool-cases (is_wide c)) [
      | inl wide ↦
          let h' : x + 2 ≤ 128 = rw wide at h in
          rw
            (
              wide,
              draw_wide-stamp 16 wide_image 0 p t.buf (omega arith),
              draw_wide-stamp 16 wide_image 0 (plane_size + p) _ (omega arith),
              mark_rows y _ k,
            )
            (ap (λ b. ok (marked b)) (fun_ext λ j. stamp-with_cell 2 wide_image x y t.buf j h' k))
      | inr narrow ↦
          let h' : x + 1 ≤ 128 = rw narrow at h in
          rw
            (
              narrow,
              draw_narrow-stamp 16 narrow_image 0 p t.buf (omega arith),
              draw_narrow-stamp 16 narrow_image 0 (plane_size + p) _ (omega arith),
              mark_rows y _ k,
            )
            (ap (λ b. ok (marked b)) (fun_ext λ j. stamp-with_cell 1 narrow_image x y t.buf j h' k))
    ]
