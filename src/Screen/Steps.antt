-- ===== src/Screen/Steps.antt =====
-- The console and the guest side by side: the timeout goes on row by row, and the thread of the
-- processor writes to the text planes and to the palette in between. A write and a row are one step
-- each. This is a condition on the threads and not what the code ensures: `row_changed` and the writes
-- to the text planes take no lock. The filled rectangles of _TXFILL are not among the writes.
use vx68k_v.Base.{ℕ, suc, ◌≡◌, ◌<◌, Bool}
use vx68k_v.Base.Bus.{FunctionCode, ok}
use vx68k_v.TextVram.{TextVram, Glyphs}
use vx68k_v.TextVram.Iterator.{WordIterator}
use vx68k_v.TextVram.Marks.{Write, IsFitting, perform}
use vx68k_v.Palettes.{Palettes, put_8, put_16}
use vx68k_v.Screen.{Display, height, begin_timeout, refresh_row}

-- Where the console is: between two timeouts, or before the row `y` of one.
pub data Phase : Type 0 where
  idle : Phase
  drawing : (u : Bool) (y : ℕ) → Phase

module _ (it : WordIterator) (g : Glyphs) where
  pub data Step : Phase → Display → Phase → Display → Type 0 where
    text :
        (p : Phase) (d : Display) (w : Write it) (t : TextVram)
        → IsFitting it w
        → perform it g w d.vram ≡ ok t
        → Step p d p (record d { vram = t })
    colour_word :
        (p : Phase) (d : Display) (address value : ℕ) (fc : FunctionCode) (s : Palettes)
        → put_16 address value fc d.palettes ≡ ok s
        → Step p d p (record d { palettes = s })
    colour_byte :
        (p : Phase) (d : Display) (address value : ℕ) (fc : FunctionCode) (s : Palettes)
        → put_8 address value fc d.palettes ≡ ok s
        → Step p d p (record d { palettes = s })
    timeout : (d : Display) → Step idle d (drawing (begin_timeout d).0 0) (begin_timeout d).1
    row :
        (u : Bool) (y : ℕ) (d e : Display)
        → y < height
        → refresh_row u y d ≡ ok e
        → Step (drawing u y) d (drawing u (suc y)) e
    finish : (u : Bool) (y : ℕ) (d : Display) → y ≡ height → Step (drawing u y) d idle d

  pub data Reaches (p : Phase) (d : Display) : Phase → Display → Type 0 where
    here : Reaches p d p d
    next : {q r : Phase} {e f : Display} → Reaches p d q e → Step q e r f → Reaches p d r f
