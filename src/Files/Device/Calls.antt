-- ===== src/Files/Device/Calls.antt =====
-- Text written through a handle of doscontext.cc, by `fputs` and by `write` of filesystem.cc.
use vx68k_v.Base.{ℕ, ◌≡◌, refl, List, [], ◌∷◌, ◌==◌, Bool-cases, inl, inr}
use vx68k_v.Base.Bus.{Result, ok, bus_error, out_of_bounds, ◌>>=◌}
use vx68k_v.Base.Int.{ℤ}
use vx68k_v.Console.{Console, b_putc, b_print}
use vx68k_v.Console.Screen.{OnScreen, NoTab, b_print-OnScreen}
use vx68k_v.Files.{File, con_device_file, regular_file, Context, handle}
use vx68k_v.Files.Device.{Outside, World, put_all, file_write, file_fputs, write, fputs}

module _ {Mem Host : Type 0} (out : Outside Mem Host) where
  -- The loop of `write` to the console does what `b_print` does.
  put_all-b_print : (s : List ℕ) (c : Console) → put_all out s c ≡ b_print out.glyphs s c
  unfolding put_all b_print
  put_all-b_print [] c = refl
  put_all-b_print (i ∷ s) c =
      elim (b_putc out.glyphs i c) as (λ r. (r >>= put_all out s) ≡ (r >>= b_print out.glyphs s)) [
        | ok d ↦ put_all-b_print s d
        | bus_error a d fc ↦ refl
        | out_of_bounds ↦ refl
      ]

  -- Both calls return, with the same console, and its cursor is on the screen.
  abbrev pub SameScreen : (a b : Result (ℤ × World Mem Host)) → Type 0
  SameScreen a b =
      (x : ℤ × World Mem Host) × (y : ℤ × World Mem Host) × (a ≡ ok x)
      × (b ≡ ok y)
      × (x.1.console ≡ y.1.console)
      × OnScreen x.1.console

  file-SameScreen :
      (f : File) (mesptr dataptr size : ℕ) (s : List ℕ) (w : World Mem Host)
      → out.get_string mesptr w.mem ≡ ok s
      → out.mem_read dataptr size w.mem ≡ ok s
      → NoTab s
      → OnScreen w.console
      → SameScreen (file_fputs out f mesptr w) (file_write out f dataptr size w)
  unfolding file_fputs file_write
  file-SameScreen con_device_file mesptr dataptr size s w e e' n v =
      let (c, p, q) = b_print-OnScreen out.glyphs s w.console v n in
      rw (e, e', put_all-b_print s w.console, p) (_, _, refl, refl, refl, q)
  file-SameScreen (regular_file fd) mesptr dataptr size s w e e' n v =
      rw (e, e') (_, _, refl, refl, refl, v)

  -- Where the string at `mesptr` is the `size` bytes at `dataptr`, has no tab, and the cursor is on
  -- the screen: `fputs` and `write` through any handle, a bad one or one of a host's file included,
  -- return, leave the same console, and leave the cursor on the screen.
  pub fputs-write :
      (mesptr dataptr size fd : ℕ) (s : List ℕ) (c : Context) (w : World Mem Host)
      → out.get_string mesptr w.mem ≡ ok s
      → out.mem_read dataptr size w.mem ≡ ok s
      → NoTab s
      → OnScreen w.console
      → SameScreen (fputs out mesptr fd c w) (write out fd dataptr size c w)
  unfolding fputs write
  fputs-write mesptr dataptr size fd s c w e e' n v = elim (Bool-cases (handle fd c == 0)) [
    | inl bad ↦ rw bad (_, _, refl, refl, refl, v)
    | inr good ↦
        rw good (file-SameScreen (c.fs.object (handle fd c)) mesptr dataptr size s w e e' n v)
  ]
