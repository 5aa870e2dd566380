-- ===== src/Allocator/Init.antt =====
-- The constructor of `memory_allocator` in allocator.cc: one root block, its header and no bytes.
use vx68k_v.Base.{ℕ, ◌+◌, ◌*◌, ◌/◌, ◌≤◌, ◌<◌, ◌≡◌, refl, [], ◌∷◌, arith, add32, align16, word_32}
use vx68k_v.Allocator.Memory.{MemoryMap}
use vx68k_v.Allocator.Split.{Valid}
use vx68k_v.Allocator.Insert.{write_header-Header}
use vx68k_v.Allocator.Alloc.{round16}
use vx68k_v.Allocator.{init}

module _ (mm : MemoryMap) where
  open mm use {State}

  -- The constructor leaves a well-formed state whose only block is the root block, the header alone
  -- at the address rounded up to 16, if that header lies below the limit.
  pub init-Valid :
      (address lim : ℕ) (m : State)
      → 0 < address
      → lim < word_32
      → round16 address + 16 ≤ lim / 16 * 16
      → Valid mm
          (init mm address lim m)
          (record { start = round16 address; parent = 0; finish = round16 address + 16 } ∷ [])
  unfolding init
  init-Valid address lim m ap lw room =
      let e : align16 address ≡ round16 address = omega arith in
      let f : add32 (round16 address) 0x10 ≡ round16 address + 16 = omega arith in
      rw (e, f)
        (record {
          chain = (
            write_header-Header mm (round16 address) 0 0 (round16 address + 16) 0 m (omega arith)
                (omega arith) (omega arith) (omega arith) (omega arith),
            tt,
          );
          layout = (omega arith, omega arith, omega arith, omega arith, tt);
          last = refl;
          root = refl;
          limit_lt = omega arith;
          limit_aligned = omega arith;
        })
