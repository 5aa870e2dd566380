-- ===== src/TextVram/Marks.antt =====
-- No update of the text planes in textvram.cc is lost: from a poll on, every byte that differs from
-- what it was at the poll lies in a raster that is marked.
use vx68k_v.Base.{
  ℕ, ◌+◌, ◌-◌, ◌*◌, ◌/◌, ◌%◌, ◌≤◌, ◌<◌, ◌≡◌, ◌≢◌, refl, ◌∙◌, ◌⊎◌, inl, inr, Bool, true, false, ◌&&◌,
  ◌||◌, List, [], ◌∷◌, arith, ◌==◌, ltb, leb, Bool-cases, if◌then◌else◌, leb-true, ltb-true, ==-eq,
  ltb-ge,
}
use vx68k_v.Base.Bus.{super_data, Result, ok, ◌>>=◌}
use vx68k_v.TextVram.{
  Buffer, TextVram, Glyphs, buffer_size, plane_size, row_size, mark_update_area, scroll,
  scroll_plane, draw_char, put_8, poll_update, put_16,
}
use vx68k_v.TextVram.Draw.{glyph_width, glyph_image, drawn, draw_char-drawn}
use vx68k_v.TextVram.Iterator.{WordIterator}

-- Every byte that differs from the snapshot lies in a marked raster.
abbrev pub Covers : Buffer → TextVram → Type 0
Covers snap t =
    (j : ℕ) → j < buffer_size → t.buf j ≢ snap j → t.marks (j % plane_size / row_size) ≡ true

abbrev pub Returns : (TextVram → Type 0) → Result TextVram → Type 0
Returns P r = (t : TextVram) × (r ≡ ok t) × P t

-- Marks that grow, over a buffer that changes in the new marks only.
Covers-grow :
    (snap : Buffer) (t u : TextVram)
    → Covers snap t
    → ((j : ℕ)
        → j < buffer_size
        → (u.buf j ≡ t.buf j) ⊎ (u.marks (j % plane_size / row_size) ≡ true))
    → ((r : ℕ) → t.marks r ≡ true → u.marks r ≡ true)
    → Covers snap u
Covers-grow snap t u cov change grow j h ne = elim (change j h) [
  | inl same ↦ grow (j % plane_size / row_size) (cov j h (λ e. ne (same ∙ e)))
  | inr marked ↦ marked
]

or_right : (a b : Bool) → b ≡ true → (a || b) ≡ true
or_right a b h = ground arith

-- A byte is the one written, in the raster that is marked, or unchanged.
byte_change :
    (a j v d : ℕ) (m : Bool)
    → a < buffer_size
    → ((if a == j then v else d) ≡ d)
      ⊎ (((leb (a / row_size % 1024) (j % plane_size / row_size)
              && ltb (j % plane_size / row_size) (a / row_size % 1024 + 1))
            || m)
          ≡ true)
byte_change a j v d m h = elim (Bool-cases (a == j)) [
  | inl hit ↦
      let e : a / row_size % 1024 ≡ j % plane_size / row_size = omega (arith, ==-eq a j hit) in
      inr (
        rw (
          leb-true (a / row_size % 1024) (j % plane_size / row_size) (omega arith),
          ltb-true (j % plane_size / row_size) (a / row_size % 1024 + 1) (omega arith),
        ))
  | inr miss ↦ inl (rw miss)
]

-- A byte of a cell lies in its rows, or is unchanged.
cell_change :
    (plane rows cols : Bool) (v d : ℕ) (m : Bool)
    → ((if plane && rows && cols then v else d) ≡ d) ⊎ ((rows || m) ≡ true)
cell_change plane rows cols v d m = ground arith

-- A scroll changes the first 496 rasters only.
scroll_change :
    (b : Buffer) (j : ℕ) (m : Bool)
    → (scroll_plane plane_size (scroll_plane 0 b) j ≡ b j)
      ⊎ (((leb 0 (j % plane_size / row_size) && ltb (j % plane_size / row_size) 496) || m) ≡ true)
scroll_change b j m = elim (Bool-cases (ltb (j % plane_size / row_size) 496)) [
  | inl above ↦ inr (rw (leb-true 0 (j % plane_size / row_size) (omega arith), above))
  | inr below ↦
      let row : 496 ≤ j % plane_size / row_size = ltb-ge (j % plane_size / row_size) 496 below in
      inl (ground arith)
]

put_8-Covers :
    (snap : Buffer) (address value : ℕ) (t : TextVram)
    → Covers snap t
    → Returns (Covers snap) (put_8 address value super_data t)
unfolding put_8 mark_update_area
put_8-Covers snap address value t cov =
    let a : ℕ = address % buffer_size in
    let y : ℕ = a / row_size % 1024 in
    elim (Bool-cases (value % 256 == t.buf a)) [
      | inl same ↦ rw same (t, refl, cov)
      | inr new ↦
          let u : TextVram = record {
            buf = λ j. if a == j then value % 256 else t.buf j;
            marks = λ r. (leb y r && ltb r (y + 1)) || t.marks r;
          } in
          rw (new, leb-true y (y + 1) (omega arith), leb-true (y + 1) 1024 (omega arith))
            (
              u,
              refl,
              Covers-grow snap t u cov
                  (λ j h.
                    byte_change a j (value % 256) (t.buf j) (t.marks (j % plane_size / row_size))
                      (omega arith))
                  (λ r m. or_right (leb y r && ltb r (y + 1)) (t.marks r) m),
            )
    ]

draw_char-Covers :
    (snap : Buffer) (g : Glyphs) (x y c : ℕ) (t : TextVram)
    → Covers snap t
    → x + glyph_width c ≤ 128
    → y < 64
    → Returns (Covers snap) (draw_char g x y c t)
draw_char-Covers snap g x y c t cov h k = (
  drawn g x y c t,
  draw_char-drawn g x y c t h k,
  Covers-grow snap t (drawn g x y c t) cov
      (λ j i.
        cell_change (ltb (j / plane_size) 2)
          (leb (y * 16) (j % plane_size / row_size)
            && ltb (j % plane_size / row_size) (y * 16 + 16))
          (leb x (j % row_size) && ltb (j % row_size) (x + glyph_width c))
          (glyph_image g c
              (glyph_width c * (j % plane_size / row_size - y * 16) + (j % row_size - x))
            % 256)
          (t.buf j) (t.marks (j % plane_size / row_size)))
      (λ r m. or_right (leb (y * 16) r && ltb r (y * 16 + 16)) (t.marks r) m),
)

scroll-Covers : (snap : Buffer) (t : TextVram) → Covers snap t → Returns (Covers snap) (scroll t)
unfolding scroll mark_update_area
scroll-Covers snap t cov = (
  _,
  refl,
  Covers-grow snap t
      (record {
        buf = scroll_plane plane_size (scroll_plane 0 t.buf);
        marks = λ r. (leb 0 r && ltb r 496) || t.marks r;
      })
      cov (λ j h. scroll_change t.buf j (t.marks (j % plane_size / row_size)))
      (λ r m. or_right (leb 0 r && ltb r 496) (t.marks r) m),
)

module _ (it : WordIterator) where
  open it use {fetch, store, store_other}

  word_change :
      (a v j : ℕ) (t : TextVram)
      → a < buffer_size
      → a % 2 ≡ 0
      → (store a v t.buf j ≡ t.buf j)
        ⊎ (((leb (a / row_size % 1024) (j % plane_size / row_size)
                && ltb (j % plane_size / row_size) (a / row_size % 1024 + 1))
              || t.marks (j % plane_size / row_size))
            ≡ true)
  word_change a v j t h even = elim (Bool-cases ((a == j) || (a + 1 == j))) [
    | inl hit ↦
        let e : a / row_size % 1024 ≡ j % plane_size / row_size = ground arith in
        inr (
          rw (
            leb-true (a / row_size % 1024) (j % plane_size / row_size) (omega arith),
            ltb-true (j % plane_size / row_size) (a / row_size % 1024 + 1) (omega arith),
          ))
    | inr miss ↦ inl (store_other a v t.buf j (λ e. ground arith) (λ e. ground arith))
  ]

  -- A word at an even address lies in one raster.
  put_16-Covers :
      (snap : Buffer) (address value : ℕ) (t : TextVram)
      → Covers snap t
      → address % 2 ≡ 0
      → Returns (Covers snap) (put_16 it address value super_data t)
  unfolding put_16 mark_update_area
  put_16-Covers snap address value t cov even =
      let a : ℕ = address % buffer_size in
      let y : ℕ = a / row_size % 1024 in
      elim (Bool-cases (value % 65536 == fetch a t.buf)) [
        | inl same ↦ rw same (t, refl, cov)
        | inr new ↦
            let u : TextVram = record {
              buf = store a (value % 65536) t.buf;
              marks = λ r. (leb y r && ltb r (y + 1)) || t.marks r;
            } in
            rw (new, leb-true y (y + 1) (omega arith), leb-true (y + 1) 1024 (omega arith))
              (
                u,
                refl,
                Covers-grow snap t u cov
                    (λ j h. word_change a (value % 65536) j t (omega arith) (omega arith))
                    (λ r m. or_right (leb y r && ltb r (y + 1)) (t.marks r) m),
              )
      ]

  -- The writes of the program and the guest, and a history of them.
  pub data Write : Type 0 where
    byte word : (address value : ℕ) → Write
    character : (x y c : ℕ) → Write
    scrolling : Write

  -- What the callers keep to: even word addresses, and characters inside the rows.
  abbrev pub IsFitting : Write → Type 0
  IsFitting (byte address value) = Unit {0}
  IsFitting (word address value) = address % 2 ≡ 0
  IsFitting (character x y c) = (x + glyph_width c ≤ 128) × (y < 64)
  IsFitting scrolling = Unit {0}

  abbrev pub AllFitting : List Write → Type 0
  AllFitting [] = Unit {0}
  AllFitting (w ∷ ws) = IsFitting w × AllFitting ws

  unfoldable pub perform : Glyphs → Write → TextVram → Result TextVram
  perform g (byte address value) t = put_8 address value super_data t
  perform g (word address value) t = put_16 it address value super_data t
  perform g (character x y c) t = draw_char g x y c t
  perform g scrolling t = scroll t

  pub perform_all : Glyphs → List Write → TextVram → Result TextVram
  unfolding perform
  perform_all g [] t = ok t
  perform_all g (w ∷ ws) t = perform g w t >>= perform_all g ws

  pub perform-Covers :
      (snap : Buffer) (g : Glyphs) (w : Write) (t : TextVram)
      → Covers snap t
      → IsFitting w
      → Returns (Covers snap) (perform g w t)
  unfolding perform
  perform-Covers snap g (byte address value) t cov f = put_8-Covers snap address value t cov
  perform-Covers snap g (word address value) t cov f = put_16-Covers snap address value t cov f
  perform-Covers snap g (character x y c) t cov f = draw_char-Covers snap g x y c t cov f.0 f.1
  perform-Covers snap g scrolling t cov f = scroll-Covers snap t cov

  perform_all-Covers :
      (snap : Buffer) (g : Glyphs) (ws : List Write) (t : TextVram)
      → Covers snap t
      → AllFitting ws
      → Returns (Covers snap) (perform_all g ws t)
  unfolding perform_all
  perform_all-Covers snap g [] t cov f = (t, refl, cov)
  perform_all-Covers snap g (w ∷ ws) t cov f =
      let (u, e, c) = perform-Covers snap g w t cov f.0 in
      rw e (perform_all-Covers snap g ws u c f.1)

  -- After a poll any history of byte writes, word writes at even addresses, characters inside the
  -- rows and scrolls returns, and every byte of the planes that then differs from what it was at the
  -- poll lies in a marked raster.
  pub poll_update-Covers :
      (g : Glyphs) (ws : List Write) (t : TextVram)
      → AllFitting ws
      → Returns (Covers t.buf) (perform_all g ws (poll_update t).1)
  unfolding poll_update
  poll_update-Covers g ws t f =
      perform_all-Covers t.buf g ws (record t { marks = λ _. false }) (λ j h ne. absurd (ne refl)) f
