-- ===== src/Allocator/Overflow.antt =====
-- Lengths of allocator.cc that wrap when the header of 16 bytes is added.
use vx68k_v.Base.{
  ℕ, suc, ◌+◌, ◌-◌, ◌/◌, ◌≤◌, ◌<◌, ◌≡◌, ap, ◌∙◌, some, List, ◌∷◌, [], arith, leb-true, add32, sub32,
  word_32,
}
use vx68k_v.Allocator.Memory.{MemoryMap}
use vx68k_v.Allocator.Chain.{Block}
use vx68k_v.Allocator.Split.{Valid}
use vx68k_v.Allocator.Alloc.{round16, gap, Valid-Seen, alloc_loop-fit}
use vx68k_v.Allocator.{Allocator, make_block, alloc_loop, alloc}

module _ (mm : MemoryMap) where
  open mm use {State}

  -- A length of 2^32 - 16 or more is not refused: where the topmost gap holds 16 bytes, `alloc`
  -- succeeds with a block shorter than its own header, of `len + 16 - 2^32` bytes.
  alloc-wraps :
      (a : Allocator State) (b : Block) (bs : List Block) (len parent : ℕ)
      → Valid mm a (b ∷ bs)
      → word_32 ≤ len + 16
      → len < word_32
      → 16 ≤ gap a.limit b
      → alloc mm len parent a
        ≡ some (
          add32 (round16 b.finish) 0x10,
          make_block mm (round16 b.finish) (len + 16 - word_32) b.start (sub32 parent 0x10) a,
        )
  unfolding alloc
  alloc-wraps a b bs len parent v big small room =
      let e : add32 len 0x10 ≡ len + 16 - word_32 = omega arith in
      let f : a.limit / 16 + 1 ≡ suc (a.limit / 16) = omega arith in
      rw (e, f)
        (ap
            (λ last.
              alloc_loop mm (suc (a.limit / 16)) (len + 16 - word_32) parent 0x10 a.limit last a)
            v.last
          ∙ alloc_loop-fit mm (a.limit / 16) (len + 16 - word_32) parent 0x10 a.limit a b bs
              (Valid-Seen mm a [] b bs v)
              (leb-true (len + 16 - word_32) (gap a.limit b) (omega arith)))
