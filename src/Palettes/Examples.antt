-- ===== src/Palettes/Examples.antt =====
-- The theorems on palettemem.cc at entry 5 of a fresh palette.
use vx68k_v.Base.{◌<◌, ◌≡◌, arith}
use vx68k_v.Base.Bus.{super_data, ok}
use vx68k_v.Palettes.Access.{IsText, entry, Written, Returns, put_16-Written}
use vx68k_v.Palettes.{init, get_16, put_16}

five-IsText : IsText 0xe8220a
five-IsText = (omega arith, omega arith)

entry_small : init.tpalette (entry 0xe8220a) < 65536
unfolding init
entry_small = omega arith

put_16-Written_example :
    Returns
      (λ u. Written init 5 0x1234 u × (get_16 0xe8220a super_data u ≡ ok 0x1234))
      (put_16 0xe8220a 0x1234 super_data init)
put_16-Written_example = put_16-Written 0xe8220a 0x1234 init five-IsText
