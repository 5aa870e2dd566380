-- ===== src/Console/Examples.antt =====
-- The theorems on the console of machine.cc at a string that wraps at the last column.
use vx68k_v.Base.{ℕ, List, [], ◌∷◌, arith}
use vx68k_v.TextVram.{Glyphs, blank}
use vx68k_v.Console.Screen.{OnScreen, Returns, b_print-OnScreen}
use vx68k_v.Console.{Console, b_print}

abbrev bars : Glyphs
bars = record { k16 = λ c i. 0x55; b16 = λ c i. 0xf0 }

abbrev corner : Console
corner = record { curx = 95; cury = 30; saved_byte1 = 0; tvram = blank }

corner-OnScreen : OnScreen corner
corner-OnScreen = record { column = omega arith; line = omega arith; byte = omega arith }

-- A single-byte character, a double-byte one that does not fit on the line, and a new line.
abbrev text : List ℕ
text = 0x41 ∷ 0x88 ∷ 0x9f ∷ 0x0d ∷ 0x0a ∷ []

b_print-OnScreen_example : Returns OnScreen (b_print bars text corner)
b_print-OnScreen_example = b_print-OnScreen bars text corner corner-OnScreen (ground arith)
