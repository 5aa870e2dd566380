-- ===== src/Screen/Timeouts.antt =====
-- The timeouts of gtkconsole.cc while the guest writes nothing: each draws the rows that are marked,
-- and one in 25 looks at the colours.
use vx68k_v.Base.{
  ℕ, zero, suc, ◌+◌, ◌≤◌, ◌<◌, ◌≡◌, refl, sym, ap, ◌∙◌, inl, inr, Bool, true, false, arith,
}
use vx68k_v.Base.Bus.{Result, ok, ◌>>=◌}
use vx68k_v.TextVram.{Glyphs}
use vx68k_v.TextVram.Changes.{ok_injective}
use vx68k_v.TextVram.Iterator.{WordIterator}
use vx68k_v.Screen.{
  Display, height, screen_check_interval, begin_timeout, refresh_rows, handle_timeout,
}
use vx68k_v.Screen.Steps.{
  Phase, idle, drawing, Step, row, timeout, finish, text, colour_word, colour_byte, Reaches, here,
  next,
}
use vx68k_v.Screen.Rows.{Drawn}
use vx68k_v.Screen.Refresh.{Reaches-UpToDate}
use vx68k_v.Screen.Sweep.{
  row-Swept, Swept-next, begun-Elapsed, IsNear, Elapsed-IsNear, begun-counter, Swept, Elapsed,
  Settled,
}

marked_twice : {b : Bool} → b ≡ false → b ≡ true → ⊥
marked_twice h k = cc

-- `handle_timeout` as often as `n` says.
unfoldable pub timeouts : ℕ → Display → Result Display
timeouts zero d = ok d
timeouts (suc n) d = handle_timeout d >>= timeouts n

module _ (it : WordIterator) (g : Glyphs) where
  -- The loop over the rows returns, by steps of the console.
  rows-Swept :
      (n y : ℕ) (u : Bool) (p : Phase) (c d : Display)
      → y + n ≡ height
      → Reaches it g p c (drawing u y) d
      → (e : Display) × (refresh_rows n u y d ≡ ok e) × Swept n y d e × Reaches it g p c idle e
  unfolding refresh_rows
  rows-Swept zero y u p c d h r = (
    d,
    refl,
    record {
      buf_kept = refl;
      palettes_kept = refl;
      counter_kept = refl;
      marks_below = λ r h. refl;
      marks_gone = λ r h l. absurd (omega (arith, h, l));
    },
    next r (finish u y d (omega (arith, h))),
  )
  rows-Swept (suc n) y u p c d h r =
      let (e, k, s) = row-Swept u y d in
      let (f, l, t, q) =
        rows-Swept n (suc y) u p c e (omega (arith, h))
          (next r (row u y d e (omega (arith, h)) k)) in
      (f, rw k (ap (λ i. refresh_rows n u i e) (omega arith) ∙ l), Swept-next n y d e f s t, q)

  timeout-Settled :
      (p : Phase) (c d : Display)
      → Reaches it g p c idle d
      → (e : Display) × (handle_timeout d ≡ ok e) × Elapsed d e × Reaches it g p c idle e
  unfolding handle_timeout
  timeout-Settled p c d r =
      let (u, b) = begin_timeout d in
      let (e, k, s, q) =
        rows-Swept height 0 (begin_timeout d).0 p c (begin_timeout d).1 refl (next r (timeout d)) in
      (e, k, begun-Elapsed d e s, q)

  timeouts-Settled :
      (n : ℕ) (p : Phase) (c d : Display)
      → Reaches it g p c idle d
      → IsNear n d
      → ((r : ℕ) → r < height → d.vram.marks r ≡ false)
      → (e : Display) × (timeouts n d ≡ ok e) × Settled d e × Reaches it g p c idle e
  unfolding timeouts
  timeouts-Settled zero p c d r near gone = (
    d,
    refl,
    record {
      buf_kept = refl;
      tpalette_kept = refl;
      marks_gone = gone;
      unmodified = elim near [ inl m ↦ m | inr (a, b, c) ↦ absurd (omega (arith, a, b)) ];
    },
    r,
  )
  timeouts-Settled (suc n) p c d r near gone =
      let (e, k, s, q) = timeout-Settled p c d r in
      let (f, l, t, z) = timeouts-Settled n p c e q (Elapsed-IsNear n d e s near) s.marks_gone in
      (
        f,
        rw k l,
        record {
          buf_kept = t.buf_kept ∙ s.buf_kept;
          tpalette_kept = t.tpalette_kept ∙ s.tpalette_kept;
          marks_gone = t.marks_gone;
          unmodified = t.unmodified;
        },
        z,
      )

  -- The counter stays from 1 to 25.
  Step-counter :
      {p : Phase} {d : Display} {q : Phase} {e : Display}
      → Step it g p d q e
      → (1 ≤ d.counter) × (d.counter ≤ screen_check_interval)
      → (1 ≤ e.counter) × (e.counter ≤ screen_check_interval)
  Step-counter (text p d w t f e) h = h
  Step-counter (colour_word p d a v fc s e) h = h
  Step-counter (colour_byte p d a v fc s e) h = h
  Step-counter (timeout d) h = begun-counter d h
  Step-counter (row u y d e l k) h =
      let (f, m, s) = row-Swept u y d in
      let same : e ≡ f = ok_injective e f (sym k ∙ m) in
      let kept : e.counter ≡ d.counter = ap (λ i. i.counter) same ∙ s.counter_kept in
      (omega (arith, kept, h.0), omega (arith, kept, h.1))
  Step-counter (finish u y d l) h = h

  Reaches-counter :
      {d e : Display} {q : Phase}
      → Reaches it g idle d q e
      → d.counter ≡ 1
      → (1 ≤ e.counter) × (e.counter ≤ screen_check_interval)
  Reaches-counter here h = (omega (arith, h), omega (arith, h))
  Reaches-counter (next r s) h = Step-counter s (Reaches-counter r h)

  -- Where each row of a timeout and each write is one step, and the writes are bytes, words,
  -- characters and scrolls of the text planes and bytes and words of the palette: with the counter at
  -- 1 as the constructor leaves it and every raster of the screen marked, after any such steps up to
  -- the end of a timeout, 26 timeouts with no write of the guest return, leave the planes and the
  -- colours as they are, and the image then shows every pixel of the screen in its red, green and blue.
  pub timeouts-Drawn :
      (c d : Display)
      → c.counter ≡ 1
      → ((y : ℕ) → y < height → c.vram.marks y ≡ true)
      → Reaches it g idle c idle d
      → (e : Display) × (timeouts 26 d ≡ ok e)
        × (e.vram.buf ≡ d.vram.buf)
        × (e.palettes.tpalette ≡ d.palettes.tpalette)
        × ((y : ℕ) → y < height → Drawn e y)
  unfolding timeouts
  timeouts-Drawn c d first marked r =
      let (f, k, s, q) = timeout-Settled idle c d r in
      let h = Reaches-counter q first in
      let (e, l, t, z) = timeouts-Settled 25 idle c f q (inr (h.0, h.1, h.1)) s.marks_gone in
      (
        e,
        rw k l,
        t.buf_kept ∙ s.buf_kept,
        t.tpalette_kept ∙ s.tpalette_kept,
        λ y i. elim (Reaches-UpToDate it g z marked y i) [
          | inl (inl m) ↦ absurd (marked_twice (t.marks_gone y i) m)
          | inl (inr (inl m)) ↦ absurd (marked_twice t.unmodified m)
          | inl (inr (inr none)) ↦ elim none [ ]
          | inr drawn ↦ drawn
        ],
      )
