-- ===== src/Allocator/Remove.antt =====
-- `remove_block`, `free_by_parent` and `free` of allocator.cc on blocks that own no others.
use vx68k_v.Base.{
  ℕ, suc, ◌+◌, ◌-◌, ◌/◌, ◌≤◌, ◌<◌, ◌≡◌, ◌≢◌, refl, sym, ap, ◌∙◌, false, some, List, [], ◌∷◌, ◌++◌,
  arith, ltb, ==-false, ltb-false, eq_self, add32, sub32, minus, length, length-append,
}
use mathlib.Core.List.{append-nil}
use vx68k_v.Allocator.Memory.{MemoryMap}
use vx68k_v.Allocator.Chain.{
  Block, first_or, lowest_or, Layout, IsHeader, Spares-above, Spares-below, lowest-IsHeader, Chain,
  Chain-put, Chain-link_up, Chain-link_down,
}
use vx68k_v.Allocator.Split.{
  lowest_or-append, plus, plus-length, Avoids, Avoids-of_Spares, Spares-upper, Layout-split,
  Layout-join, length-Layout, Chain-split, Chain-join, Valid,
}
use vx68k_v.Allocator.Alloc.{next-IsHeader, Valid-Seen, Valid-shift}
use vx68k_v.Allocator.{
  Allocator, rounds, remove_block, free_by_parent_loop, free_by_parent, free_loop, free,
}

module _ (mm : MemoryMap) where
  open mm use {State, get_32, put_32}

  remove_block-top :
      (block prev : ℕ) (a : Allocator State)
      → get_32 (add32 block 0) a.mem ≡ prev
      → get_32 (add32 block 12) a.mem ≡ 0
      → remove_block mm block a
        ≡ record a { mem = put_32 (add32 prev 12) 0 a.mem; last_block = prev }
  unfolding remove_block
  remove_block-top block prev a e f = rw (e, f)

  remove_block-below :
      (block prev next : ℕ) (a : Allocator State)
      → get_32 (add32 block 0) a.mem ≡ prev
      → get_32 (add32 block 12) a.mem ≡ next
      → next ≢ 0
      → remove_block mm block a
        ≡ record a { mem = put_32 (add32 next 0) prev (put_32 (add32 prev 12) next a.mem) }
  unfolding remove_block
  remove_block-below block prev next a e f ne = rw (e, f, ==-false next 0 ne)

  -- `remove_block` of a block with one below it takes that block out of a well-formed chain, and
  -- leaves the other blocks as they are.
  pub remove_block-Valid :
      (a : Allocator State) (us : List Block) (b d : Block) (bs : List Block)
      → Valid mm a (us ++ b ∷ d ∷ bs)
      → Valid mm (remove_block mm b.start a) (us ++ d ∷ bs)
  remove_block-Valid a [] b d bs v =
      let l = v.layout in
      rw (remove_block-top b.start d.start a v.chain.0.prev v.chain.0.next) (record {
        chain =
            Chain-link_up mm a.mem b.start 0 d bs b.start 0 v.chain.1 l.4
              (omega (arith, v.limit_lt)) (omega arith);
        layout = (l.4.0, l.4.1, l.4.2, omega arith, l.4.4);
        last = refl;
        root = v.root;
        limit_lt = v.limit_lt;
        limit_aligned = v.limit_aligned;
      })
  remove_block-Valid a (u ∷ us) b d bs v =
      rw (remove_block-below b.start d.start n a c.1.0.prev c.1.0.next (omega (arith, low)))
        (record {
          chain = Chain-join mm _ 0 0 (u ∷ us) (d ∷ bs) upper lower;
          layout = Layout-join a.limit (u ∷ us) (d ∷ bs) l.0 below;
          last = v.last;
          root =
              v.root
              ∙ lowest_or-append u.start us (b ∷ d ∷ bs)
              ∙ sym (lowest_or-append u.start us (d ∷ bs));
          limit_lt = v.limit_lt;
          limit_aligned = v.limit_aligned;
        })
    where
      n : ℕ
      n = lowest_or u.start us

      c : Chain mm a.mem 0 (u ∷ us) b.start × Chain mm a.mem n (b ∷ d ∷ bs) 0
      c = Chain-split mm a.mem 0 0 (u ∷ us) (b ∷ d ∷ bs) v.chain

      l : Layout a.limit (u ∷ us) × Layout n (b ∷ d ∷ bs)
      l = Layout-split a.limit (u ∷ us) (b ∷ d ∷ bs) v.layout

      low : IsHeader n × (0 < n) × (n + 16 ≤ a.limit)
      low = lowest-IsHeader a.limit u us l.0 (omega (arith, v.limit_lt))

      below : Layout n (d ∷ bs)
      below = (l.1.4.0, l.1.4.1, l.1.4.2, omega (arith, l.1), l.1.4.4)

      m : State
      m = put_32 (add32 d.start 12) n a.mem

      upper : Chain mm (put_32 (add32 n 0) d.start m) 0 (u ∷ us) d.start
      upper =
          Chain-link_down mm m 0 b.start u us a.limit d.start
            (Chain-put mm a.mem 0 b.start (u ∷ us) d.start 12 n c.0
              (Spares-below a.limit (u ∷ us) d.start l.0 (omega (arith, v.limit_lt))
                (omega (arith, below)))
              (omega (arith, below, low)) (omega arith) (omega arith))
            l.0 (omega (arith, v.limit_lt)) (omega (arith, below, low))

      lower : Chain mm (put_32 (add32 n 0) d.start m) n (d ∷ bs) 0
      lower =
          Chain-put mm m n 0 (d ∷ bs) n 0 d.start
            (Chain-link_up mm a.mem b.start 0 d bs n n c.1.1 below (omega (arith, low))
              (omega (arith, low)))
            (Spares-above n (d ∷ bs) n below (omega (arith, low)) (omega arith)) low.0 (omega arith)
            (omega arith)

  -- No block has `owner`, the address of a header, for its parent.
  abbrev pub Unowned : ℕ → List Block → Type 0
  Unowned owner [] = Unit {0}
  Unowned owner (b ∷ bs) = (b.parent ≢ owner) × Unowned owner bs

  free_by_parent_loop-pass :
      (n parent : ℕ) (a : Allocator State) (us : List Block) (b : Block) (bs : List Block)
      → Valid mm a (us ++ b ∷ bs)
      → b.parent ≢ sub32 parent 16
      → free_by_parent_loop mm (suc n) parent b.start a
        ≡ free_by_parent_loop mm n parent (first_or 0 bs) a
  unfolding free_by_parent_loop
  free_by_parent_loop-pass n parent a us b bs v ne =
      let s = Valid-Seen mm a us b bs v in
      let c = (Chain-split mm a.mem 0 0 us (b ∷ bs) v.chain).1 in
      rw (
        s.not_null,
        c.0.parent,
        ==-false b.parent (sub32 parent 16) ne,
        s.prev,
        free_by_parent_loop,
      )

  free_by_parent_loop-end :
      (n parent : ℕ) (a : Allocator State) → free_by_parent_loop mm (suc n) parent 0 a ≡ some a
  unfolding free_by_parent_loop
  free_by_parent_loop-end n parent a = refl

  free_by_parent_loop-Unowned :
      (k parent : ℕ) (a : Allocator State) (us bs : List Block)
      → Valid mm a (us ++ bs)
      → Unowned (sub32 parent 16) bs
      → free_by_parent_loop mm (plus bs (suc k)) parent (first_or 0 bs) a ≡ some a
  free_by_parent_loop-Unowned k parent a us [] v un = free_by_parent_loop-end k parent a
  free_by_parent_loop-Unowned k parent a us (b ∷ bs) v un =
      free_by_parent_loop-pass (plus bs (suc k)) parent a us b bs v un.0
      ∙ free_by_parent_loop-Unowned k parent a (us ++ b ∷ []) bs (Valid-shift mm a us b bs v) un.1

  -- With fuel for one more round than there are blocks, `free_by_parent` of an owner of no block
  -- ends and changes nothing.
  pub free_by_parent-Unowned :
      (fuel parent : ℕ) (a : Allocator State) (bs : List Block)
      → Valid mm a bs
      → Unowned (sub32 parent 16) bs
      → length bs < fuel
      → free_by_parent mm fuel parent a ≡ some a
  unfolding free_by_parent
  free_by_parent-Unowned fuel parent a bs v un h =
      let left : ℕ = fuel - length bs - 1 in
      let e : fuel ≡ plus bs (suc left) = omega (arith, plus-length bs (suc left)) in
      rw e (
        ap (λ last. free_by_parent_loop mm (plus bs (suc left)) parent last a) v.last
        ∙ free_by_parent_loop-Unowned left parent a [] bs v un)

  in_limit :
      (a : Allocator State) (us : List Block) (b : Block) (bs : List Block)
      → Valid mm a (us ++ b ∷ bs)
      → ltb a.limit (add32 b.start 0x10) ≡ false
  in_limit a [] b bs v = ltb-false _ _ (omega (arith, v.layout, v.limit_lt))
  in_limit a (u ∷ us) b bs v =
      let l = Layout-split a.limit (u ∷ us) (b ∷ bs) v.layout in
      let low = lowest-IsHeader a.limit u us l.0 (omega (arith, v.limit_lt)) in
      ltb-false _ _ (omega (arith, l.1, low, v.limit_lt))

  free_loop-pass :
      (n fuel memptr : ℕ) (a : Allocator State) (us : List Block) (b : Block) (bs : List Block)
      → Valid mm a (us ++ b ∷ bs)
      → b.start ≢ memptr
      → free_loop mm (suc n) fuel memptr b.start a ≡ free_loop mm n fuel memptr (first_or 0 bs) a
  unfolding free_loop
  free_loop-pass n fuel memptr a us b bs v ne =
      let s = Valid-Seen mm a us b bs v in
      rw (s.not_null, in_limit a us b bs v, ==-false b.start memptr ne, s.prev, free_loop)

  free_loop-walk :
      (k fuel memptr : ℕ) (a : Allocator State) (us ws rest : List Block)
      → Valid mm a (us ++ (ws ++ rest))
      → Avoids memptr ws
      → free_loop mm (plus ws k) fuel memptr (first_or 0 (ws ++ rest)) a
        ≡ free_loop mm k fuel memptr (first_or 0 rest) a
  free_loop-walk k fuel memptr a us [] rest v av = refl
  free_loop-walk k fuel memptr a us (w ∷ ws) rest v av =
      free_loop-pass (plus ws k) fuel memptr a us w (ws ++ rest) v av.0
      ∙ free_loop-walk k fuel memptr a (us ++ w ∷ []) ws rest (Valid-shift mm a us w (ws ++ rest) v)
          av.1

  free_loop-end :
      (n fuel memptr : ℕ) (a : Allocator State)
      → free_loop mm (suc n) fuel memptr 0 a ≡ some (minus 9, a)
  unfolding free_loop
  free_loop-end n fuel memptr a = refl

  free_loop-hit :
      (n fuel : ℕ) (a : Allocator State) (us : List Block) (b : Block) (bs : List Block)
      → Valid mm a (us ++ b ∷ bs)
      → free_by_parent mm fuel (add32 b.start 0x10) a ≡ some a
      → free_loop mm (suc n) fuel b.start b.start a ≡ some (0, remove_block mm b.start a)
  unfolding free_loop
  free_loop-hit n fuel a us b bs v e =
      let s = Valid-Seen mm a us b bs v in
      rw (s.not_null, in_limit a us b bs v, eq_self b.start, e, free_loop)

  -- `free` of a block that is not the lowest and owns no block returns 0 and takes exactly that
  -- block out of a well-formed chain. The fuel of `free_by_parent` is one more than the blocks.
  pub free-leaf :
      (fuel : ℕ) (a : Allocator State) (us : List Block) (b d : Block) (bs : List Block)
      → Valid mm a (us ++ b ∷ d ∷ bs)
      → Unowned b.start (us ++ b ∷ d ∷ bs)
      → length (us ++ b ∷ d ∷ bs) < fuel
      → (free mm fuel (b.start + 16) a ≡ some (0, remove_block mm b.start a))
        × Valid mm (remove_block mm b.start a) (us ++ d ∷ bs)
  unfolding free
  free-leaf fuel a us b d bs v un h =
      let all : List Block = us ++ b ∷ d ∷ bs in
      let l = Layout-split a.limit us (b ∷ d ∷ bs) v.layout in
      let next = next-IsHeader mm a us (b ∷ d ∷ bs) v in
      let target : sub32 (b.start + 16) 0x10 ≡ b.start = omega (arith, l.1, next) in
      let left : ℕ = a.limit / 16 - length us in
      let rounds_eq : rounds a ≡ plus us (suc left) = omega (
        arith,
        plus-length us (suc left),
        length-append us (b ∷ d ∷ bs),
        length-Layout a.limit all v.layout,
      ) in
      let apart =
        Avoids-of_Spares b.start us
          (Spares-upper a.limit us b (d ∷ bs) v.layout (omega (arith, v.limit_lt))) in
      let own : sub32 (add32 b.start 0x10) 16 ≡ b.start = omega (arith, l.1, next) in
      let none_owned = free_by_parent-Unowned fuel (add32 b.start 0x10) a all v (rw own un) h in
      (
        rw (target, rounds_eq)
            (ap (λ last. free_loop mm (plus us (suc left)) fuel b.start last a) v.last
              ∙ free_loop-walk (suc left) fuel b.start a [] us (b ∷ d ∷ bs) v apart
              ∙ free_loop-hit left fuel a us b (d ∷ bs) v none_owned),
        remove_block-Valid a us b d bs v,
      )

  -- A pointer that is the data of no block gives -9, and nothing changes.
  pub free-unknown :
      (fuel memptr : ℕ) (a : Allocator State) (bs : List Block)
      → Valid mm a bs
      → Avoids (sub32 memptr 16) bs
      → free mm fuel memptr a ≡ some (minus 9, a)
  unfolding free
  free-unknown fuel memptr a bs v av =
      let left : ℕ = a.limit / 16 - length bs in
      let target : ℕ = sub32 memptr 16 in
      let rounds_eq : rounds a ≡ plus bs (suc left) =
        omega (arith, plus-length bs (suc left), length-Layout a.limit bs v.layout) in
      rw rounds_eq (
        ap (λ last. free_loop mm (plus bs (suc left)) fuel target last a) v.last
        ∙ ap (λ l. free_loop mm (plus bs (suc left)) fuel target (first_or 0 l) a)
            (sym (append-nil bs))
        ∙ free_loop-walk (suc left) fuel target a [] bs [] (rw (append-nil bs) v) av
        ∙ free_loop-end left fuel target a)
