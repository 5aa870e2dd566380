-- ===== src/Screen/Examples.antt =====
-- The theorems on the screen of gtkconsole.cc after a byte that the guest writes.
use vx68k_v.Base.{ℕ, ◌*◌, true, ◌<◌, ◌≡◌, ◌&&◌, ◌||◌, ◌==◌, leb, ltb, if◌then◌else◌, refl, []}
use vx68k_v.Base.Bus.{ok}
use vx68k_v.TextVram.{TextVram, Glyphs, put_8, mark_update_area}
use vx68k_v.TextVram.Iterator.{big_endian}
use vx68k_v.TextVram.Marks.{byte, perform}
use vx68k_v.Palettes.{init}
use vx68k_v.Screen.{Display, height, begin_timeout}
use vx68k_v.Screen.Steps.{idle, drawing, Reaches, here, next, text, timeout}
use vx68k_v.Screen.Rows.{Drawn, UpToDate}
use vx68k_v.Screen.Refresh.{Reaches-UpToDate}
use vx68k_v.Screen.Timeouts.{timeouts, timeouts-Drawn}

abbrev bars : Glyphs
bars = record { k16 = λ c i. 0x55; b16 = λ c i. 0xf0 }

-- A console that is just connected, its image with whatever the storage held.
abbrev connected : Display
connected = record {
  vram = record { buf = λ _. 0; marks = λ _. true };
  palettes = init;
  rgb_buf = λ j. j * 7;
  counter = 1;
  queued = [];
}

abbrev written : TextVram
written = record {
  buf = λ j. if 0x105 == j then 0xff else 0;
  marks = λ y. (leb 2 y && ltb y 3) || true;
}

write_reached : Reaches big_endian bars idle connected idle (record connected { vram = written })
unfolding perform put_8 mark_update_area
write_reached = next here (text idle connected (byte 0x105 0xff) written tt refl)

Reaches-UpToDate_example :
    UpToDate
      (drawing (begin_timeout (record connected { vram = written })).0 0)
      (begin_timeout (record connected { vram = written })).1
Reaches-UpToDate_example =
    Reaches-UpToDate big_endian bars
      (next write_reached (timeout (record connected { vram = written }))) (λ y h. refl)

timeouts-Drawn_example :
    (e : Display) × (timeouts 26 (record connected { vram = written }) ≡ ok e)
    × (e.vram.buf ≡ written.buf)
    × (e.palettes.tpalette ≡ init.tpalette)
    × ((y : ℕ) → y < height → Drawn e y)
timeouts-Drawn_example =
    timeouts-Drawn big_endian bars connected (record connected { vram = written }) refl
      (λ y h. refl) write_reached
