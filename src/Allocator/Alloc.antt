-- ===== src/Allocator/Alloc.antt =====
-- `alloc` of allocator.cc against first fit on the list of blocks, from the last block down.
use mathlib.Core.Option
use mathlib.Core.Path.{subst}
use vx68k_v.Base.{
  ℕ, zero, suc, ◌+◌, ◌-◌, ◌*◌, ◌/◌, ◌%◌, ◌≤◌, ◌<◌, ◌≡◌, refl, sym, inl, inr, true, false, Option,
  none, some, List, [], ◌∷◌, ◌++◌, append_assoc, arith, ◌==◌, ltb, leb, if◌then◌else◌, Bool-cases,
  ==-false, ltb-false, leb-le, add32, sub32, align16, word_32, length,
}
use vx68k_v.Allocator.Memory.{MemoryMap}
use vx68k_v.Allocator.Chain.{Block, first_or, lowest_or, Layout, lowest-IsHeader}
use vx68k_v.Allocator.Split.{lowest_or-append, Layout-split, length-Layout, Chain-split, Valid}
use vx68k_v.Allocator.Insert.{make_block-Valid}
use vx68k_v.Allocator.{Allocator, rounds, no_room, make_block, alloc_loop, alloc}

-- The first multiple of 16 from `x` on.
abbrev pub round16 : ℕ → ℕ
round16 x = (x + 15) / 16 * 16

-- The free bytes between a block and the address `next` of what lies above it.
abbrev pub gap : ℕ → Block → ℕ
gap next b = next - round16 b.finish

abbrev pub placed : ℕ → ℕ → Block → Block
placed len parent b = record {
  start = round16 b.finish;
  parent = parent;
  finish = round16 b.finish + len;
}

-- First fit: the address of the new block and the blocks with it, where `len` counts the header.
unfoldable pub first_fit : (len parent next : ℕ) → List Block → Option (ℕ × List Block)
first_fit len parent next [] = none
first_fit len parent next (b ∷ bs) =
    if leb len (gap next b)
    then some (round16 b.finish, placed len parent b ∷ b ∷ bs)
    else Option.map (λ (c, l). (c, b ∷ l)) (first_fit len parent b.start bs)

-- The largest gap, but at least `least`.
unfoldable pub largest_gap : (least next : ℕ) → List Block → ℕ
largest_gap least next [] = least
largest_gap least next (b ∷ bs) =
    largest_gap (if ltb least (gap next b) then gap next b else least) b.start bs

module _ (mm : MemoryMap) where
  open mm use {State, get_32, put_32}

  -- The address above the next block to look at.
  pub next-IsHeader :
      (a : Allocator State) (us bs : List Block)
      → Valid mm a (us ++ bs)
      → (lowest_or a.limit us % 16 ≡ 0) × (lowest_or a.limit us < word_32)
  next-IsHeader a [] bs v = omega (arith, v.limit_aligned, v.limit_lt)
  next-IsHeader a (u ∷ us) bs v = omega (
    arith,
    lowest-IsHeader a.limit u us (Layout-split a.limit (u ∷ us) bs v.layout).0
        (omega (arith, v.limit_lt)),
    v.limit_lt,
  )

  -- What the code reads at a block, in the terms of the list.
  pub record Seen (a : Allocator State) (next : ℕ) (b : Block) (bs : List Block) : Type 0 where
    pub not_null : (b.start == 0) ≡ false
    pub below : ltb next (add32 b.start 0x10) ≡ false
    pub candidate : align16 (get_32 (add32 b.start 8) a.mem) ≡ round16 b.finish
    pub free_len : sub32 next (round16 b.finish) ≡ gap next b
    pub prev : get_32 (add32 b.start 0) a.mem ≡ first_or 0 bs
    pub fits : round16 b.finish ≤ next

  pub Valid-Seen :
      (a : Allocator State) (us : List Block) (b : Block) (bs : List Block)
      → Valid mm a (us ++ b ∷ bs)
      → Seen a (lowest_or a.limit us) b bs
  Valid-Seen a us b bs v =
      let next = next-IsHeader a us (b ∷ bs) v in
      let l = (Layout-split a.limit us (b ∷ bs) v.layout).1 in
      let c = (Chain-split mm a.mem 0 0 us (b ∷ bs) v.chain).1 in
      record {
        not_null = ==-false b.start 0 (omega (arith, l));
        below = ltb-false _ _ (omega (arith, l, next));
        candidate = rw (c.0.end) (omega (arith, l, next));
        free_len = omega (arith, l, next);
        prev = c.0.prev;
        fits = omega (arith, l, next);
      }

  -- The chain with one block more on the upper side.
  pub Valid-shift :
      (a : Allocator State) (us : List Block) (b : Block) (bs : List Block)
      → Valid mm a (us ++ b ∷ bs)
      → Valid mm a ((us ++ b ∷ []) ++ bs)
  Valid-shift a us b bs v = rw (append_assoc us (b ∷ []) bs) v

  pub alloc_loop-fit :
      (n len parent most next : ℕ) (a : Allocator State) (b : Block) (bs : List Block)
      → Seen a next b bs
      → leb len (gap next b) ≡ true
      → alloc_loop mm (suc n) len parent most next b.start a
        ≡ some (
          add32 (round16 b.finish) 0x10,
          make_block mm (round16 b.finish) len b.start (sub32 parent 0x10) a,
        )
  unfolding alloc_loop
  alloc_loop-fit n len parent most next a b bs s fit =
      rw (s.not_null, s.below, s.candidate, s.free_len, fit, alloc_loop) (rw s.candidate)

  alloc_loop-miss :
      (n len parent most next : ℕ) (a : Allocator State) (b : Block) (bs : List Block)
      → Seen a next b bs
      → leb len (gap next b) ≡ false
      → alloc_loop mm (suc n) len parent most next b.start a
        ≡ alloc_loop mm n len parent
            (if ltb most (gap next b) then gap next b else most)
            b.start
            (first_or 0 bs)
            a
  unfolding alloc_loop
  alloc_loop-miss n len parent most next a b bs s miss =
      rw (s.not_null, s.below, s.candidate, s.free_len, miss, s.prev, alloc_loop)
        (rw (s.candidate, s.free_len))

  alloc_loop-end :
      (n len parent most next : ℕ) (a : Allocator State)
      → alloc_loop mm (suc n) len parent most next 0 a ≡ some (no_room most, a)
  unfolding alloc_loop
  alloc_loop-end n len parent most next a = refl

  -- The outcome of a search among the blocks `bs`, below the blocks `us` that were passed.
  abbrev pub Found :
      List Block
      → Option (ℕ × List Block)
      → ℕ
      → Allocator State
      → Option (ℕ × Allocator State)
      → Type 0
  Found us none most a r = r ≡ some (no_room most, a)
  Found us (some (c, bs)) most a r =
      (a' : Allocator State) × (r ≡ some (add32 c 0x10, a')) × Valid mm a' (us ++ bs)

  Found-shift :
      (us : List Block) (b : Block) (o : Option (ℕ × List Block)) (most : ℕ) (a : Allocator State)
      (r : Option (ℕ × Allocator State))
      → Found (us ++ b ∷ []) o most a r
      → Found us (Option.map (λ (c, l). (c, b ∷ l)) o) most a r
  Found-shift us b none most a r f = f
  Found-shift us b (some (c, l)) most a r (a', e, v) = (a', e, rw (append_assoc us (b ∷ []) l) at v)

  alloc_loop-Found :
      (n len parent most next : ℕ) (a : Allocator State) (us bs : List Block)
      → Valid mm a (us ++ bs)
      → lowest_or a.limit us ≡ next
      → length bs < n
      → 16 ≤ len
      → Found us
          (first_fit len (sub32 parent 0x10) next bs)
          (largest_gap most next bs)
          a
          (alloc_loop mm n len parent most next (first_or 0 bs) a)
  unfolding first_fit largest_gap
  alloc_loop-Found zero len parent most next a us bs v e f h = absurd (omega arith)
  alloc_loop-Found (suc n) len parent most next a us [] v e f h =
      alloc_loop-end n len parent most next a
  alloc_loop-Found (suc n) len parent most next a us (b ∷ bs) v e f h =
      let s : Seen a next b bs = rw e at (Valid-Seen a us b bs v) in
      elim (Bool-cases (leb len (gap next b))) [
        | inl fit ↦
            rw (fit, alloc_loop-fit n len parent most next a b bs s fit)
              (
                _,
                refl,
                make_block-Valid mm a us b bs (round16 b.finish) len (sub32 parent 0x10) v
                    (omega arith) (omega arith) h (omega (arith, leb-le _ _ fit, s.fits))
                    (omega arith),
              )
        | inr miss ↦
            rw (miss, alloc_loop-miss n len parent most next a b bs s miss)
              (Found-shift us b (first_fit len (sub32 parent 0x10) b.start bs) _ a _ (
                alloc_loop-Found n len parent _ b.start a (us ++ b ∷ []) bs
                  (Valid-shift a us b bs v) (lowest_or-append a.limit us (b ∷ [])) (omega arith) h))
      ]

  -- With a well-formed chain and a length that does not wrap with its header, `alloc` ends within
  -- its rounds. It is first fit on the list of blocks, from the last block down: if a gap is large
  -- enough, the result is the address behind the new header, and the state is well-formed with the
  -- new block added; if not, the state is unchanged and the result reports the largest gap.
  pub alloc-first_fit :
      (a : Allocator State) (bs : List Block) (len parent : ℕ)
      → Valid mm a bs
      → len + 16 < word_32
      → Found []
          (first_fit (len + 16) (sub32 parent 0x10) a.limit bs)
          (largest_gap 16 a.limit bs)
          a
          (alloc mm len parent a)
  unfolding alloc
  alloc-first_fit a bs len parent v h =
      let e : add32 len 0x10 ≡ len + 16 = omega arith in
      rw e (
        subst
          (λ last.
            Found [] (first_fit (len + 16) (sub32 parent 0x10) a.limit bs)
              (largest_gap 16 a.limit bs) a
              (alloc_loop mm (rounds a) (len + 16) parent 0x10 a.limit last a))
          (sym v.last)
          (alloc_loop-Found (rounds a) (len + 16) parent 0x10 a.limit a [] bs v refl
            (omega (arith, length-Layout a.limit bs v.layout)) (omega arith)))

-- A gap that `largest_gap` reports is found when a block of that size is asked for.
pub first_fit-largest_gap :
    (least parent next : ℕ) (bs : List Block)
    → least < largest_gap least next bs
    → (c : ℕ) × (l : List Block) × (first_fit (largest_gap least next bs) parent next bs
        ≡ some (c, l))
unfolding first_fit largest_gap
first_fit-largest_gap least parent next [] h = absurd (omega arith)
first_fit-largest_gap least parent next (b ∷ bs) h =
    let most : ℕ = if ltb least (gap next b) then gap next b else least in
    elim (Bool-cases (leb (largest_gap most b.start bs) (gap next b))) [
      | inl fit ↦ (round16 b.finish, placed (largest_gap most b.start bs) parent b ∷ b ∷ bs, rw fit)
      | inr miss ↦
          let below : most < largest_gap most b.start bs = ground arith in
          let (c, l, e) = first_fit-largest_gap most parent b.start bs below in
          (c, b ∷ l, rw (miss, e))
    ]

largest_gap-le :
    (least next bound : ℕ) (bs : List Block)
    → Layout next bs
    → next ≤ bound
    → least ≤ bound
    → largest_gap least next bs ≤ bound
unfolding largest_gap
largest_gap-le least next bound [] l h k = k
largest_gap-le least next bound (b ∷ bs) l h k =
    largest_gap-le (if ltb least (gap next b) then gap next b else least) b.start bound bs l.4
      (omega arith) (ground arith)

-- A size that a failed `alloc` reports can be had: if the largest gap is more than a header, `alloc`
-- of what it holds besides the header succeeds, and leaves a well-formed state.
alloc-largest_gap :
    (mm : MemoryMap) (a : Allocator (MemoryMap.State mm)) (bs : List Block) (parent : ℕ)
    → Valid mm a bs
    → 16 < largest_gap 16 a.limit bs
    → (c : ℕ) × (l : List Block) × (a' : Allocator (MemoryMap.State mm)) × (alloc mm
          (largest_gap 16 a.limit bs - 16)
          parent
          a
        ≡ some (add32 c 0x10, a'))
      × Valid mm a' l
alloc-largest_gap mm a bs parent v h =
    let g : ℕ = largest_gap 16 a.limit bs in
    let small : g ≤ word_32 - 1 =
      largest_gap-le 16 a.limit (word_32 - 1) bs v.layout (omega (arith, v.limit_lt))
        (omega arith) in
    let back : g - 16 + 16 ≡ g = omega arith in
    let (c, l, e) = first_fit-largest_gap 16 (sub32 parent 0x10) a.limit bs h in
    let found = rw (back, e) at (alloc-first_fit mm a bs (g - 16) parent v (omega arith)) in
    (c, l, found.0, found.1, found.2)
