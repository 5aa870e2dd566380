-- ===== src/Console/Screen.antt =====
-- The cursor of the text console of machine.cc stays on the screen of 96 by 31 cells.
use vx68k_v.Base.{
  ℕ, ◌+◌, ◌*◌, ◌/◌, ◌≤◌, ◌<◌, ◌≡◌, ◌≢◌, refl, ◌⊎◌, inl, inr, ◌&&◌, ◌||◌, List, [], ◌∷◌, arith, ◌==◌,
  leb, Bool-cases, if◌then◌else◌, add32, bits,
}
use vx68k_v.Base.Bus.{Result, ok, ◌>>=◌}
use vx68k_v.TextVram.{Glyphs, scroll, mark_update_area}
use vx68k_v.TextVram.Draw.{glyph_width, draw_char-drawn}
use vx68k_v.TextVram.Sjis.{draw_code}
use vx68k_v.Console.{
  Console, line_down, control, complete, wrap, is_first_byte, show, b_putc, b_print,
}

-- The cursor stands on a cell, or behind the last column.
pub record OnScreen (c : Console) : Type 0 where
  pub column : c.curx ≤ 96
  pub line : c.cury ≤ 30
  pub byte : c.saved_byte1 < 256

-- A call that returns, with what it leaves.
abbrev pub Returns : (Console → Type 0) → Result Console → Type 0
Returns P r = (c : Console) × (r ≡ ok c) × P c

then_Returns :
    {P Q : Console → Type 0} {r : Result Console} {k : Console → Result Console}
    → Returns P r
    → ((c : Console) → P c → Returns Q (k c))
    → Returns Q (r >>= k)
then_Returns (c, e, p) f = rw e (f c p)

-- `line_down` returns, and leaves the column.
line_down-Returns :
    (c : Console)
    → c.cury ≤ 30
    → Returns
        (λ d. (d.cury ≤ 30) × (d.curx ≡ c.curx) × (d.saved_byte1 ≡ c.saved_byte1))
        (line_down c)
unfolding line_down scroll mark_update_area
line_down-Returns c h = elim (Bool-cases (add32 c.cury 1 == 31)) [
  | inl last ↦ rw last (_, refl, (h, refl, refl))
  | inr more ↦ rw more (_, refl, (ground arith, refl, refl))
]

control-OnScreen :
    (code : ℕ) (c : Console)
    → OnScreen c
    → (code ≢ 9) ⊎ (c.curx < 96)
    → Returns OnScreen (control code c)
unfolding control
control-OnScreen code c v tab = elim (Bool-cases (code == 0x09)) [
  | inl t ↦ rw t (
    record c { curx = add32 c.curx 8 / 8 * 8 },
    refl,
    record { column = ground arith; line = v.line; byte = v.byte },
  )
  | inr nt ↦ rw nt (elim (Bool-cases (code == 0x0a)) [
    | inl lf ↦ rw lf (
        let (d, e, p) = line_down-Returns c v.line in
        (
          d,
          e,
          record {
            column = omega (arith, p.1, v.column);
            line = p.0;
            byte = omega (arith, p.2, v.byte);
          },
        ))
    | inr nlf ↦ rw nlf (elim (Bool-cases (code == 0x0d)) [
      | inl cr ↦ rw cr (
        record c { curx = 0 },
        refl,
        record { column = omega arith; line = v.line; byte = v.byte },
      )
      | inr ncr ↦ rw ncr (c, refl, v)
    ])
  ])
]

-- The cursor leaves room for the character.
abbrev HasRoom : ℕ → Console → Type 0
HasRoom code c =
    (c.curx + (if leb 0x100 code then 2 else 1) ≤ 96) × (c.cury ≤ 30) × (c.saved_byte1 < 256)

wrap-HasRoom : (code : ℕ) (c : Console) → OnScreen c → Returns (HasRoom code) (wrap code c)
unfolding wrap
wrap-HasRoom code c v =
    let x : ℕ = if leb 0x100 code && (add32 c.curx 1 == 96) then add32 c.curx 1 else c.curx in
    elim (Bool-cases (x == 96)) [
      | inl full ↦ rw full (
          let (d, e, p) = line_down-Returns (record c { curx = 0 }) v.line in
          (d, e, (ground arith, p.0, omega (arith, p.2, v.byte))))
      | inr room ↦ rw room (record c { curx = x }, refl, (ground (arith, v.column), v.line, v.byte))
    ]

glyph_width-le : (code : ℕ) → glyph_width code ≤ (if leb 0x100 code then 2 else 1)
unfolding draw_code
glyph_width-le code = elim (Bool-cases (leb 0x100 code)) [
  | inl wide ↦ rw wide (ground arith)
  | inr narrow ↦
      let zero_byte : bits code 8 8 ≡ 0 = ground arith in rw (narrow, zero_byte) (omega arith)
]

show-OnScreen :
    (g : Glyphs) (code : ℕ) (c : Console) → HasRoom code c → Returns OnScreen (show g code c)
unfolding show
show-OnScreen g code c room = elim (Bool-cases (is_first_byte code)) [
  | inl first ↦ rw first (
    record c { saved_byte1 = code },
    refl,
    record { column = ground arith; line = room.1; byte = ground arith },
  )
  | inr whole ↦
      rw
        (
          whole,
          draw_char-drawn g c.curx c.cury code c.tvram (ground (arith, glyph_width-le code))
              (omega (arith, room)),
        )
        (_, refl, record { column = ground (arith, room.0); line = room.1; byte = room.2 })
]

-- From a cursor on the screen every code but a tab behind the last column returns, with no access
-- outside the text planes, and leaves the cursor on the screen.
pub b_putc-OnScreen :
    (g : Glyphs) (code : ℕ) (c : Console)
    → OnScreen c
    → (code ≢ 9) ⊎ (c.curx < 96)
    → Returns OnScreen (b_putc g code c)
unfolding b_putc
b_putc-OnScreen g code c v tab =
    let fresh : OnScreen (record c { saved_byte1 = 0 }) = record {
      column = v.column;
      line = v.line;
      byte = omega arith;
    } in
    elim (Bool-cases (leb code 0x1f || (code == 0x7f))) [
      | inl ctl ↦ rw ctl (control-OnScreen code (record c { saved_byte1 = 0 }) fresh tab)
      | inr chr ↦ rw chr (
          then_Returns (wrap-HasRoom (complete code c) (record c { saved_byte1 = 0 }) fresh)
            (show-OnScreen g (complete code c)))
    ]

-- A tab behind the last column takes the cursor off the screen, to column 104.
pub b_putc_tab :
    (g : Glyphs) (c : Console)
    → c.curx ≡ 96
    → Returns (λ d. (d.curx ≡ 104) × (¬ OnScreen d)) (b_putc g 9 c)
unfolding b_putc control
b_putc_tab g c e =
    (record c { curx = 104; saved_byte1 = 0 }, rw e, (refl, λ v. absurd (omega (arith, v.column))))

abbrev pub NoTab : List ℕ → Type 0
NoTab [] = Unit {0}
NoTab (code ∷ rest) = (code ≢ 9) × NoTab rest

-- From a cursor on the screen, `b_print` of a string without a tab returns and leaves the cursor
-- on the screen.
pub b_print-OnScreen :
    (g : Glyphs) (s : List ℕ) (c : Console)
    → OnScreen c
    → NoTab s
    → Returns OnScreen (b_print g s c)
unfolding b_print
b_print-OnScreen g [] c v n = (c, refl, v)
b_print-OnScreen g (code ∷ rest) c v n =
    then_Returns (b_putc-OnScreen g code c v (inl n.0)) (λ d w. b_print-OnScreen g rest d w n.1)
