-- ===== src/Allocator/Largest.antt =====
-- `alloc_largest` of allocator.cc, which DOS uses to load a program, against the gaps between the
-- blocks.
use vx68k_v.Base.{
  ℕ, zero, suc, ◌<◌, ◌≡◌, refl, sym, ap, ◌∙◌, ◌⊎◌, inl, inr, true, Option, some, List, [], ◌∷◌,
  ◌++◌, append_assoc, arith, ltb, ltb-lt, if◌then◌else◌, Bool-cases, ==-true, ==-false, add32,
  sub32, length,
}
use vx68k_v.Allocator.Memory.{MemoryMap}
use vx68k_v.Allocator.Chain.{Block, first_or, lowest_or}
use vx68k_v.Allocator.Split.{lowest_or-append, length-Layout, Valid}
use vx68k_v.Allocator.Insert.{make_block-Valid}
use vx68k_v.Allocator.Alloc.{round16, gap, placed, largest_gap, Seen, Valid-Seen, Valid-shift}
use vx68k_v.Allocator.{Allocator, Best, better, rounds, best_loop, use_best, alloc_largest}

abbrev best_of : ℕ → List Block → Block → Best
best_of limit us b = record {
  best_block = b.start;
  best_candidate = round16 b.finish;
  max_free_len = gap (lowest_or limit us) b;
}

-- No gap was more than a header, or the best so far is that above a block of the list.
abbrev Describes : (limit : ℕ) → List Block → Best → Type 0
Describes limit all c =
    (c.max_free_len ≡ 16)
    ⊎ ((us : List Block) × (b : Block) × (ds : List Block) × (all ≡ us ++ b ∷ ds)
        × (c ≡ best_of limit us b)
        × (16 < c.max_free_len))

-- Where `best_loop` begins.
abbrev start : Best
start = record { best_block = 0; best_candidate = 0; max_free_len = 0x10 }

-- The best of the gaps above the blocks, by the list.
unfoldable widest : (next : ℕ) → List Block → Best → Best
widest next [] c = c
widest next (b ∷ bs) c = widest b.start bs (better c b.start (round16 b.finish) (gap next b))

better-Describes :
    (limit : ℕ) (us : List Block) (b : Block) (bs : List Block) (c : Best)
    → Describes limit (us ++ b ∷ bs) c
    → Describes limit
        (us ++ b ∷ bs)
        (better c b.start (round16 b.finish) (gap (lowest_or limit us) b))
better-Describes limit us b bs c d =
    elim (Bool-cases (ltb c.max_free_len (gap (lowest_or limit us) b))) [
      | inl e ↦ rw e (inr (us, b, bs, refl, refl, wide e d))
      | inr e ↦ rw e d
    ]
  where
    wide :
        ltb c.max_free_len (gap (lowest_or limit us) b) ≡ true
        → Describes limit (us ++ b ∷ bs) c
        → 16 < gap (lowest_or limit us) b
    wide e (inl k) = omega (arith, ltb-lt _ _ e, k)
    wide e (inr (_, _, _, _, _, k)) = omega (arith, ltb-lt _ _ e, k)

widest-Describes :
    (limit : ℕ) (us bs : List Block) (c : Best)
    → Describes limit (us ++ bs) c
    → Describes limit (us ++ bs) (widest (lowest_or limit us) bs c)
unfolding widest
widest-Describes limit us [] c d = d
widest-Describes limit us (b ∷ bs) c d =
    let next = better c b.start (round16 b.finish) (gap (lowest_or limit us) b) in
    let shifted : Describes limit ((us ++ b ∷ []) ++ bs) next =
      rw (append_assoc us (b ∷ []) bs) (better-Describes limit us b bs c d) in
    rw (lowest_or-append limit us (b ∷ []), append_assoc us (b ∷ []) bs) at
      (widest-Describes limit (us ++ b ∷ []) bs next shifted)

better-max :
    (c : Best) (block candidate free_len : ℕ)
    → (better c block candidate free_len).max_free_len
      ≡ (if ltb c.max_free_len free_len then free_len else c.max_free_len)
better-max c block candidate free_len = elim (Bool-cases (ltb c.max_free_len free_len)) [
  | inl e ↦ rw e refl
  | inr e ↦ rw e refl
]

widest-largest_gap :
    (next : ℕ) (bs : List Block) (c : Best)
    → (widest next bs c).max_free_len ≡ largest_gap c.max_free_len next bs
unfolding widest largest_gap
widest-largest_gap next [] c = refl
widest-largest_gap next (b ∷ bs) c =
    widest-largest_gap b.start bs _
    ∙ ap (λ k. largest_gap k b.start bs) (better-max c b.start (round16 b.finish) (gap next b))

module _ (mm : MemoryMap) where
  open mm use {State}

  best_loop-step :
      (n next : ℕ) (c : Best) (a : Allocator State) (b : Block) (bs : List Block)
      → Seen mm a next b bs
      → best_loop mm (suc n) c next b.start a.mem
        ≡ best_loop mm n
            (better c b.start (round16 b.finish) (gap next b))
            b.start
            (first_or 0 bs)
            a.mem
  unfolding best_loop
  best_loop-step n next c a b bs s =
      rw (s.not_null, s.below, s.candidate, s.free_len, s.prev, best_loop) refl

  best_loop-widest :
      (n next : ℕ) (c : Best) (a : Allocator State) (us bs : List Block)
      → Valid mm a (us ++ bs)
      → lowest_or a.limit us ≡ next
      → length bs < n
      → best_loop mm n c next (first_or 0 bs) a.mem ≡ some (some (widest next bs c))
  unfolding widest best_loop
  best_loop-widest zero next c a us bs v e f = absurd (omega arith)
  best_loop-widest (suc n) next c a us [] v e f = refl
  best_loop-widest (suc n) next c a us (b ∷ bs) v e f =
      best_loop-step n next c a b bs (rw e at (Valid-Seen mm a us b bs v))
      ∙ best_loop-widest n b.start _ a (us ++ b ∷ []) bs (Valid-shift mm a us b bs v)
          (lowest_or-append a.limit us (b ∷ [])) (omega arith)

  -- What `alloc_largest` returns where the best gap is `c`: the last block of the chain is left
  -- as it is, or the whole gap above one block becomes a new block.
  abbrev pub Takes :
      (parent : ℕ) → List Block → Allocator State → (g : ℕ) → Option (ℕ × Allocator State) → Type 0
  Takes parent all a g r =
      (us : List Block) × (b : Block) × (ds : List Block) × (a' : Allocator State) × (all
        ≡ us ++ b ∷ ds)
      × (gap (lowest_or a.limit us) b ≡ g)
      × (r ≡ some (add32 (round16 b.finish) 0x10, a'))
      × Valid mm a' (us ++ placed g (sub32 parent 0x10) b ∷ b ∷ ds)

  use_best-Takes :
      (parent : ℕ) (a : Allocator State) (us : List Block) (b : Block) (ds : List Block)
      → Valid mm a (us ++ b ∷ ds)
      → 16 < gap (lowest_or a.limit us) b
      → Takes parent
          (us ++ b ∷ ds)
          a
          (gap (lowest_or a.limit us) b)
          (some (use_best mm parent (best_of a.limit us b) a))
  unfolding use_best
  use_best-Takes parent a us b ds v h =
      let s = Valid-Seen mm a us b ds v in
      rw (==-false (gap (lowest_or a.limit us) b) 16 (omega (arith, h))) (
        us,
        b,
        ds,
        _,
        refl,
        refl,
        refl,
        make_block-Valid mm a us b ds (round16 b.finish) (gap (lowest_or a.limit us) b)
            (sub32 parent 0x10) v (omega arith) (omega arith) (omega (arith, h))
            (omega (arith, s.fits)) (omega arith),
      )

  use_best-Describes :
      (parent : ℕ) (a : Allocator State) (bs : List Block) (c : Best)
      → Valid mm a bs
      → Describes a.limit bs c
      → ((c.max_free_len ≡ 16) × (some (use_best mm parent c a) ≡ some (0x82000000, a)))
        ⊎ ((16 < c.max_free_len) × Takes parent bs a c.max_free_len (some (use_best mm parent c a)))
  unfolding use_best
  use_best-Describes parent a bs c v (inl e) = inl (e, rw (==-true c.max_free_len 16 e) refl)
  use_best-Describes parent a bs c v (inr (us, b, ds, all, is, k)) =
      inr (k, rw (all, is) (use_best-Takes parent a us b ds (rw all at v) (rw is at k)))

  alloc_largest-widest :
      (a : Allocator State) (bs : List Block) (parent : ℕ)
      → Valid mm a bs
      → alloc_largest mm parent a ≡ some (use_best mm parent (widest a.limit bs start) a)
  unfolding alloc_largest
  alloc_largest-widest a bs parent v =
      let found : best_loop mm (rounds a) start a.limit a.last_block a.mem
          ≡ some (some (widest a.limit bs start)) =
        rw v.last (
          best_loop-widest (rounds a) a.limit start a [] bs v refl
            (omega (arith, length-Layout a.limit bs v.layout))) in
      rw (found, alloc_largest) refl

  -- With a well-formed chain `alloc_largest` ends within its rounds. If no gap is more than a
  -- header, the result is the error 0x82000000 and the state is unchanged; if one is, the whole of
  -- a gap of the largest size becomes a block, the result is the address behind its header, and
  -- the state is well-formed with that block added.
  pub alloc_largest-whole_gap :
      (a : Allocator State) (bs : List Block) (parent : ℕ)
      → Valid mm a bs
      → ((largest_gap 16 a.limit bs ≡ 16) × (alloc_largest mm parent a ≡ some (0x82000000, a)))
        ⊎ ((16 < largest_gap 16 a.limit bs)
            × Takes parent bs a (largest_gap 16 a.limit bs) (alloc_largest mm parent a))
  alloc_largest-whole_gap a bs parent v =
      rw (alloc_largest-widest a bs parent v, sym (widest-largest_gap a.limit bs start))
        (use_best-Describes parent a bs (widest a.limit bs start) v
          (widest-Describes a.limit [] bs start (inl refl)))
