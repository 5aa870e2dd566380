-- ===== src/Allocator/Insert.antt =====
-- `make_block` of allocator.cc puts one block into the chain, above a block that is there.
use vx68k_v.Base.{
  ℕ, ◌+◌, ◌%◌, ◌≤◌, ◌<◌, ◌≡◌, ◌≢◌, refl, List, [], ◌∷◌, ◌++◌, ◌∙◌, sym, arith, ==-false, add32,
  word_32,
}
use vx68k_v.Allocator.Memory.{MemoryMap}
use vx68k_v.Allocator.Chain.{
  Block, lowest_or, Layout, IsHeader, Spares, Spares-above, Spares-below, lowest-IsHeader, Header,
  Chain, Header-put, Chain-put, Chain-link_up, Chain-link_down,
}
use vx68k_v.Allocator.Split.{
  Layout-split, Layout-join, Chain-split, Chain-join, lowest_or-append, Valid,
}
use vx68k_v.Allocator.{Allocator, make_block}

module _ (mm : MemoryMap) where
  open mm use {State, get_32, put_32, get-put_self, get-put_ne}

  -- The memory after the four words of a new header.
  abbrev pub write_header : (start prev parent finish next : ℕ) → State → State
  write_header start prev parent finish next m = put_32 (add32 start 12) next (
      put_32 (add32 start 8) finish (put_32 (add32 start 4) parent (put_32 (add32 start 0) prev m)))

  pub write_header-Header :
      (start prev parent finish next : ℕ) (m : State)
      → IsHeader start
      → prev < word_32
      → parent < word_32
      → finish < word_32
      → next < word_32
      → Header mm
          (write_header start prev parent finish next m)
          (record { start = start; parent = parent; finish = finish })
          next
          prev
  write_header-Header start prev parent finish next m hs pl ql fl nl = record {
    prev =
        skip 0 12 next _ (omega arith)
        ∙ skip 0 8 finish _ (omega arith)
        ∙ skip 0 4 parent _ (omega arith)
        ∙ get-put_self (add32 start 0) prev m (omega arith) pl;
    parent =
        skip 4 12 next _ (omega arith)
        ∙ skip 4 8 finish _ (omega arith)
        ∙ get-put_self (add32 start 4) parent _ (omega arith) ql;
    end = skip 8 12 next _ (omega arith) ∙ get-put_self (add32 start 8) finish _ (omega arith) fl;
    next = get-put_self (add32 start 12) next _ (omega arith) nl;
  }
    where
      skip :
          (j k v : ℕ) (s : State)
          → (add32 start j % 4 ≡ 0) × (add32 start k % 4 ≡ 0) × (add32 start j ≢ add32 start k)
          → get_32 (add32 start j) (put_32 (add32 start k) v s) ≡ get_32 (add32 start j) s
      skip j k v s e = get-put_ne (add32 start j) (add32 start k) v s e.0 e.1 e.2

  Chain-write_header :
      (m : State) (up down : ℕ) (bs : List Block) (start prev parent finish next : ℕ)
      → Chain mm m up bs down
      → Spares start bs
      → IsHeader start
      → Chain mm (write_header start prev parent finish next m) up bs down
  Chain-write_header m up down bs start prev parent finish next c sp h =
      let c0 = Chain-put mm m up down bs start 0 prev c sp h (omega arith) (omega arith) in
      let c1 = Chain-put mm _ up down bs start 4 parent c0 sp h (omega arith) (omega arith) in
      let c2 = Chain-put mm _ up down bs start 8 finish c1 sp h (omega arith) (omega arith) in
      Chain-put mm _ up down bs start 12 next c2 sp h (omega arith) (omega arith)

  -- The memory after the header is written and the block below is linked to it.
  abbrev with_header : (start prev parent finish next : ℕ) → State → State
  with_header start prev parent finish next m =
      put_32 (add32 prev 12) start (write_header start prev parent finish next m)

  -- The lower part of the chain, with the new block on top.
  with_header-Chain :
      (m : State) (next top : ℕ) (b : Block) (bs : List Block) (start parent finish : ℕ)
      → Chain mm m next (b ∷ bs) 0
      → Layout top (b ∷ bs)
      → top ≤ start
      → IsHeader start
      → parent < word_32
      → finish < word_32
      → next < word_32
      → Chain mm
          (with_header start b.start parent finish next m)
          next
          (record { start = start; parent = parent; finish = finish } ∷ b ∷ bs)
          0
  with_header-Chain m next top b bs start parent finish c l tx h ql fl nl =
      let new = write_header-Header start b.start parent finish next m h (omega arith) ql fl nl in
      let rest =
        Chain-write_header m next 0 (b ∷ bs) start b.start parent finish next c
          (Spares-above top (b ∷ bs) start l (omega arith) tx) h in
      (
        Header-put mm b.start 12 start new h (omega arith) (omega arith) (omega arith)
            (omega arith),
        Chain-link_up mm _ next 0 b bs top start rest l (omega arith) (omega arith),
      )

  make_block-top :
      (start len prev parent : ℕ) (a : Allocator State)
      → get_32 (add32 prev 12) a.mem ≡ 0
      → make_block mm start len prev parent a ≡ record a {
        mem = with_header start prev parent (add32 start len) 0 a.mem;
        last_block = start;
      }
  unfolding make_block
  make_block-top start len prev parent a e = rw e

  make_block-below :
      (start len prev parent next : ℕ) (a : Allocator State)
      → get_32 (add32 prev 12) a.mem ≡ next
      → next ≢ 0
      → make_block mm start len prev parent a ≡ record a {
        mem =
            put_32
              (add32 next 0)
              start
              (with_header start prev parent (add32 start len) next a.mem);
      }
  unfolding make_block
  make_block-below start len prev parent next a e ne = rw (e, ==-false next 0 ne)

  -- A block that fits into the gap above `b` is put there.
  pub make_block-Valid :
      (a : Allocator State) (us : List Block) (b : Block) (bs : List Block) (start len parent : ℕ)
      → Valid mm a (us ++ b ∷ bs)
      → start % 16 ≡ 0
      → b.finish ≤ start
      → 16 ≤ len
      → start + len ≤ lowest_or a.limit us
      → parent < word_32
      → Valid mm
          (make_block mm start len b.start parent a)
          (us ++ record { start = start; parent = parent; finish = start + len } ∷ b ∷ bs)
  make_block-Valid a [] b bs start len parent v sa sf sl room ql =
      let e : add32 start len ≡ start + len = omega (arith, v.limit_lt) in
      let l = v.layout in
      rw (make_block-top start len b.start parent a v.chain.0.next, e)
        (record {
          chain =
              with_header-Chain a.mem 0 b.finish b bs start parent (start + len) v.chain
                (l.0, l.1, l.2, omega arith, l.4) sf (omega (arith, v.limit_lt)) ql
                (omega (arith, v.limit_lt)) (omega arith);
          layout = (omega arith, sa, omega arith, room, (l.0, l.1, l.2, sf, l.4));
          last = refl;
          root = v.root;
          limit_lt = v.limit_lt;
          limit_aligned = v.limit_aligned;
        })
  make_block-Valid a (u ∷ us) b bs start len parent v sa sf sl room ql =
      let e : add32 start len ≡ start + len = omega (arith, low, v.limit_lt) in
      let ne : n ≢ 0 = omega (arith, low) in
      rw (make_block-below start len b.start parent n a c.1.0.next ne, e)
        (record {
          chain = Chain-join mm _ 0 0 (u ∷ us) (new ∷ b ∷ bs) upper lower;
          layout =
              Layout-join a.limit (u ∷ us) (new ∷ b ∷ bs) l.0
                (omega (arith, l.1), sa, omega arith, room, (l.1.0, l.1.1, l.1.2, sf, l.1.4));
          last = v.last;
          root =
              v.root
              ∙ lowest_or-append u.start us (b ∷ bs)
              ∙ sym (lowest_or-append u.start us (new ∷ b ∷ bs));
          limit_lt = v.limit_lt;
          limit_aligned = v.limit_aligned;
        })
    where
      n : ℕ
      n = lowest_or u.start us

      new : Block
      new = record { start = start; parent = parent; finish = start + len }

      c : Chain mm a.mem 0 (u ∷ us) b.start × Chain mm a.mem n (b ∷ bs) 0
      c = Chain-split mm a.mem 0 0 (u ∷ us) (b ∷ bs) v.chain

      l : Layout a.limit (u ∷ us) × Layout n (b ∷ bs)
      l = Layout-split a.limit (u ∷ us) (b ∷ bs) v.layout

      low : IsHeader n × (0 < n) × (n + 16 ≤ a.limit)
      low = lowest-IsHeader a.limit u us l.0 (omega (arith, v.limit_lt))

      header : IsHeader start
      header = omega (arith, low)

      m : State
      m = with_header start b.start parent (start + len) n a.mem

      upper : Chain mm (put_32 (add32 n 0) start m) 0 (u ∷ us) start
      upper =
          Chain-link_down mm m 0 b.start u us a.limit start
            (Chain-put mm _ 0 b.start (u ∷ us) b.start 12 start
              (Chain-write_header a.mem 0 b.start (u ∷ us) start b.start parent (start + len) n c.0
                (Spares-below a.limit (u ∷ us) start l.0 (omega (arith, v.limit_lt)) (omega arith))
                header)
              (Spares-below a.limit (u ∷ us) b.start l.0 (omega (arith, v.limit_lt))
                (omega (arith, l.1)))
              (omega (arith, l.1, low)) (omega arith) (omega arith))
            l.0 (omega (arith, v.limit_lt)) (omega (arith, low))

      lower : Chain mm (put_32 (add32 n 0) start m) n (new ∷ b ∷ bs) 0
      lower =
          Chain-put mm m n 0 (new ∷ b ∷ bs) n 0 start
            (with_header-Chain a.mem n b.finish b bs start parent (start + len) c.1
              (l.1.0, l.1.1, l.1.2, omega arith, l.1.4) sf header ql (omega (arith, low))
              (omega (arith, low)))
            (Spares-above n (new ∷ b ∷ bs) n
              (omega (arith, l.1), sa, omega arith, room, (l.1.0, l.1.1, l.1.2, sf, l.1.4))
              (omega (arith, low)) (omega arith))
            low.0 (omega arith) (omega arith)
