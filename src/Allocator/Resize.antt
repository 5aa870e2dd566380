-- ===== src/Allocator/Resize.antt =====
-- `resize` of allocator.cc: a block gets a new end, up to the block above it.
use vx68k_v.Base.{
  ℕ, suc, ◌+◌, ◌-◌, ◌/◌, ◌%◌, ◌≤◌, ◌<◌, ◌≡◌, ◌≢◌, refl, sym, ap, some, List, [], ◌∷◌, ◌++◌, ◌∙◌,
  arith, ltb, if◌then◌else◌, ==-false, ltb-false, ltb-true, eq_self, add32, sub32, minus, word_32,
  length, length-append,
}
use mathlib.Core.List.{append-nil}
use vx68k_v.Allocator.Memory.{MemoryMap}
use vx68k_v.Allocator.Chain.{Block, first_or, lowest_or, Layout, Spares-above, Chain, Chain-put}
use vx68k_v.Allocator.Split.{
  first_or-append, lowest_or-append, plus, plus-length, Avoids, Avoids-of_Spares, Spares-upper,
  Layout-split, Layout-join, length-Layout, Chain-split, Chain-join, Valid,
}
use vx68k_v.Allocator.Alloc.{Seen, Valid-Seen, Valid-shift, next-IsHeader}
use vx68k_v.Allocator.{Allocator, rounds, no_room, resize_loop, resize}

abbrev pub ends_at : ℕ → Block → Block
ends_at finish b = record b { finish = finish }

module _ (mm : MemoryMap) where
  open mm use {State, get_32, put_32, get-put_self, get-put_ne}

  -- A new end between the header and the block above leaves a well-formed state.
  put_finish-Valid :
      (a : Allocator State) (us : List Block) (b : Block) (bs : List Block) (finish : ℕ)
      → Valid mm a (us ++ b ∷ bs)
      → b.start + 16 ≤ finish
      → finish ≤ lowest_or a.limit us
      → Valid mm
          (record a { mem = put_32 (add32 b.start 8) finish a.mem })
          (us ++ ends_at finish b ∷ bs)
  put_finish-Valid a us b bs finish v low high = record {
    chain = Chain-join mm _ 0 0 us (ends_at finish b ∷ bs) upper lower;
    layout = Layout-join a.limit us (ends_at finish b ∷ bs) l.0 (l.1.0, l.1.1, low, high, l.1.4);
    last =
        v.last ∙ first_or-append 0 us (b ∷ bs) ∙ sym (first_or-append 0 us (ends_at finish b ∷ bs));
    root =
        v.root
        ∙ lowest_or-append 0 us (b ∷ bs)
        ∙ sym (lowest_or-append 0 us (ends_at finish b ∷ bs));
    limit_lt = v.limit_lt;
    limit_aligned = v.limit_aligned;
  }
    where
      next : (lowest_or a.limit us % 16 ≡ 0) × (lowest_or a.limit us < word_32)
      next = next-IsHeader mm a us (b ∷ bs) v

      l : Layout a.limit us × Layout (lowest_or a.limit us) (b ∷ bs)
      l = Layout-split a.limit us (b ∷ bs) v.layout

      c : Chain mm a.mem 0 us b.start × Chain mm a.mem (lowest_or 0 us) (b ∷ bs) 0
      c = Chain-split mm a.mem 0 0 us (b ∷ bs) v.chain

      m : State
      m = put_32 (add32 b.start 8) finish a.mem

      upper : Chain mm m 0 us b.start
      upper =
          Chain-put mm a.mem 0 b.start us b.start 8 finish c.0
            (Spares-upper a.limit us b bs v.layout (omega (arith, v.limit_lt)))
            (omega (arith, l.1, next)) (omega arith) (omega arith)

      other :
          (j : ℕ)
          → (add32 b.start j % 4 ≡ 0) × (add32 b.start j ≢ add32 b.start 8)
          → get_32 (add32 b.start j) m ≡ get_32 (add32 b.start j) a.mem
      other j e =
          get-put_ne (add32 b.start j) (add32 b.start 8) finish a.mem e.0 (omega (arith, l.1)) e.1

      lower : Chain mm m (lowest_or 0 us) (ends_at finish b ∷ bs) 0
      lower = (
        record {
          prev = other 0 (omega (arith, l.1, next)) ∙ c.1.0.prev;
          parent = other 4 (omega (arith, l.1, next)) ∙ c.1.0.parent;
          end =
              get-put_self (add32 b.start 8) finish a.mem (omega (arith, l.1))
                (omega (arith, next));
          next = other 12 (omega (arith, l.1, next)) ∙ c.1.0.next;
        },
        Chain-put mm a.mem b.start 0 bs b.start 8 finish c.1.1
            (Spares-above b.start bs b.start l.1.4 (omega (arith, l.1, next)) (omega arith))
            (omega (arith, l.1, next)) (omega arith) (omega arith),
      )

  resize_loop-pass :
      (n memptr new_brk next : ℕ) (a : Allocator State) (b : Block) (bs : List Block)
      → Seen mm a next b bs
      → b.start ≢ memptr
      → resize_loop mm (suc n) memptr new_brk next b.start a
        ≡ resize_loop mm n memptr new_brk b.start (first_or 0 bs) a
  unfolding resize_loop
  resize_loop-pass n memptr new_brk next a b bs s ne =
      rw (s.not_null, s.below, ==-false b.start memptr ne, s.prev, resize_loop)

  resize_loop-hit :
      (n new_brk next : ℕ) (a : Allocator State) (b : Block) (bs : List Block)
      → Seen mm a next b bs
      → resize_loop mm (suc n) b.start new_brk next b.start a ≡ (
          if ltb next new_brk
          then some (no_room (sub32 next b.start), a)
          else some (0, record a { mem = put_32 (add32 b.start 8) new_brk a.mem }))
  unfolding resize_loop
  resize_loop-hit n new_brk next a b bs s = rw (s.not_null, s.below, eq_self b.start, resize_loop)

  -- The loop passes the blocks that start elsewhere.
  resize_loop-walk :
      (k memptr new_brk next : ℕ) (a : Allocator State) (us ws rest : List Block)
      → Valid mm a (us ++ (ws ++ rest))
      → lowest_or a.limit us ≡ next
      → Avoids memptr ws
      → resize_loop mm (plus ws k) memptr new_brk next (first_or 0 (ws ++ rest)) a
        ≡ resize_loop mm k memptr new_brk (lowest_or next ws) (first_or 0 rest) a
  resize_loop-walk k memptr new_brk next a us [] rest v e av = refl
  resize_loop-walk k memptr new_brk next a us (w ∷ ws) rest v e av =
      resize_loop-pass (plus ws k) memptr new_brk next a w (ws ++ rest)
        (rw e at (Valid-Seen mm a us w (ws ++ rest) v)) av.0
      ∙ resize_loop-walk k memptr new_brk w.start a (us ++ w ∷ []) ws rest
          (Valid-shift mm a us w (ws ++ rest) v) (lowest_or-append a.limit us (w ∷ [])) av.1

  resize_loop-end :
      (n memptr new_brk next : ℕ) (a : Allocator State)
      → resize_loop mm (suc n) memptr new_brk next 0 a ≡ some (minus 9, a)
  unfolding resize_loop
  resize_loop-end n memptr new_brk next a = refl

  -- What the call of `resize` for a block of the chain comes to, without a wrap of the new end.
  resize-hit :
      (a : Allocator State) (us : List Block) (b : Block) (bs : List Block) (newlen : ℕ)
      → Valid mm a (us ++ b ∷ bs)
      → b.start + 16 + newlen < word_32
      → resize mm (b.start + 16) newlen a ≡ (
          if ltb (lowest_or a.limit us) (b.start + 16 + newlen)
          then some (no_room (sub32 (lowest_or a.limit us) b.start), a)
          else some (0, record a { mem = put_32 (add32 b.start 8) (b.start + 16 + newlen) a.mem }))
  unfolding resize
  resize-hit a us b bs newlen v h =
      let brk : add32 (b.start + 16) newlen ≡ b.start + 16 + newlen = omega arith in
      let target : sub32 (b.start + 16) 0x10 ≡ b.start = omega arith in
      let fuel : rounds a ≡ plus us (suc (a.limit / 16 - length us)) = omega (
        arith,
        plus-length us (suc (a.limit / 16 - length us)),
        length-append us (b ∷ bs),
        length-Layout a.limit (us ++ b ∷ bs) v.layout,
      ) in
      let apart =
        Avoids-of_Spares b.start us
          (Spares-upper a.limit us b bs v.layout (omega (arith, v.limit_lt))) in
      rw (brk, target, fuel)
        (ap
            (λ last.
              resize_loop mm (plus us (suc (a.limit / 16 - length us))) b.start
                (b.start + 16 + newlen) a.limit last a)
            v.last
          ∙ resize_loop-walk (suc (a.limit / 16 - length us)) b.start (b.start + 16 + newlen)
              a.limit a [] us (b ∷ bs) v refl apart
          ∙ resize_loop-hit (a.limit / 16 - length us) (b.start + 16 + newlen)
              (lowest_or a.limit us) a b bs (Valid-Seen mm a us b bs v))

  -- `resize` of a block of a well-formed chain to a length that does not wrap and ends at or below
  -- the block above (or the limit) returns 0. The state stays well-formed with the new end of that
  -- block, every other aligned long word of the memory is as it was, and so are the limit and the
  -- first and last block.
  pub resize-within :
      (a : Allocator State) (us : List Block) (b : Block) (bs : List Block) (newlen : ℕ)
      → Valid mm a (us ++ b ∷ bs)
      → b.start + 16 + newlen < word_32
      → b.start + 16 + newlen ≤ lowest_or a.limit us
      → (a' : Allocator State) × (resize mm (b.start + 16) newlen a ≡ some (0, a'))
        × Valid mm a' (us ++ ends_at (b.start + 16 + newlen) b ∷ bs)
        × ((x : ℕ) → x % 4 ≡ 0 → x ≢ add32 b.start 8 → get_32 x a'.mem ≡ get_32 x a.mem)
        × (a' ≡ record a { mem = a'.mem })
  resize-within a us b bs newlen v h room = (
    record a { mem = put_32 (add32 b.start 8) (b.start + 16 + newlen) a.mem },
    rw (
      resize-hit a us b bs newlen v h,
      ltb-false (lowest_or a.limit us) (b.start + 16 + newlen) room,
    ),
    put_finish-Valid a us b bs (b.start + 16 + newlen) v (omega arith) room,
    λ x w ne.
        get-put_ne x (add32 b.start 8) (b.start + 16 + newlen) a.mem w
          (omega (arith, (Layout-split a.limit us (b ∷ bs) v.layout).1)) ne,
    refl,
  )

  -- Past the block above (or the limit) `resize` changes nothing and reports the bytes up to there.
  pub resize-beyond :
      (a : Allocator State) (us : List Block) (b : Block) (bs : List Block) (newlen : ℕ)
      → Valid mm a (us ++ b ∷ bs)
      → b.start + 16 + newlen < word_32
      → lowest_or a.limit us < b.start + 16 + newlen
      → resize mm (b.start + 16) newlen a ≡ some (no_room (lowest_or a.limit us - b.start), a)
  resize-beyond a us b bs newlen v h past =
      let seen = Valid-Seen mm a us b bs v in
      let next = next-IsHeader mm a us (b ∷ bs) v in
      let l = (Layout-split a.limit us (b ∷ bs) v.layout).1 in
      let e : sub32 (lowest_or a.limit us) b.start ≡ lowest_or a.limit us - b.start =
        omega (arith, next, l) in
      rw (
        resize-hit a us b bs newlen v h,
        ltb-true (lowest_or a.limit us) (b.start + 16 + newlen) past,
        e,
      )

  -- A pointer that is the data of no block gives -9, and nothing changes.
  pub resize-unknown :
      (a : Allocator State) (bs : List Block) (memptr newlen : ℕ)
      → Valid mm a bs
      → Avoids (sub32 memptr 16) bs
      → resize mm memptr newlen a ≡ some (minus 9, a)
  unfolding resize
  resize-unknown a bs memptr newlen v av =
      let target : ℕ = sub32 memptr 16 in
      let brk : ℕ = add32 memptr newlen in
      let left : ℕ = a.limit / 16 - length bs in
      let fuel : rounds a ≡ plus bs (suc left) =
        omega (arith, plus-length bs (suc left), length-Layout a.limit bs v.layout) in
      rw fuel (
        ap (λ last. resize_loop mm (plus bs (suc left)) target brk a.limit last a) v.last
        ∙ ap (λ l. resize_loop mm (plus bs (suc left)) target brk a.limit (first_or 0 l) a)
            (sym (append-nil bs))
        ∙ resize_loop-walk (suc left) target brk a.limit a [] bs [] (rw (append-nil bs) v) refl av
        ∙ resize_loop-end left target brk (lowest_or a.limit bs) a)
