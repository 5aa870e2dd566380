-- ===== src/Shell/Lifetime.antt =====
-- The constructor and the destructor of `shell` in libvx68kdos/shell.cc, with `malloc` and `mfree` of
-- `dos_exec_context` in libvx68kdos/doscontext.cc.
use mathlib.Core.Option
use vx68k_v.Base.{
  ℕ, ◌+◌, ◌≤◌, ◌<◌, ◌≡◌, refl, ap, inl, inr, false, Option, none, some, List, [], ◌∷◌, ◌++◌, ◌==◌,
  ==-false, if◌then◌else◌, leb, Bool-cases, arith, add32, sub32, word_32, length,
}
use vx68k_v.Allocator.Memory.{MemoryMap}
use vx68k_v.Allocator.Chain.{Block, lowest_or, Spares, Spares-above, Spares-below, Chain-put}
use vx68k_v.Allocator.Split.{Layout-split, Chain-split, Valid}
use vx68k_v.Allocator.Alloc.{round16, gap, placed, first_fit, next-IsHeader, alloc-first_fit}
use vx68k_v.Allocator.Remove.{Unowned, free-leaf}
use vx68k_v.Allocator.{Allocator, free_by_parent, free, alloc}

-- What a context holds of the memory blocks.
pub record Process (S : Type 0) : Type 0 where
  pub heap : Allocator S
  pub current_pdb : ℕ

module _ (mm : MemoryMap) where
  open mm use {State, get_32, put_32}

  -- none where a loop of the allocator does not end; `fuel` is that of `free_by_parent`.
  unfoldable pub mfree : (fuel memptr : ℕ) → Process State → Option (ℕ × Process State)
  mfree fuel memptr p =
      if memptr == 0
      then (elim (free_by_parent mm fuel p.current_pdb p.heap) [
        | none ↦ none
        | some a ↦ some (0, record p { heap = a })
      ])
      else (elim (free mm fuel memptr p.heap) [
        | none ↦ none
        | some (r, a) ↦ some (r, record p { heap = a })
      ])

  -- The constructor: what it stores in `pdb`, and the context.
  unfoldable pub construct : Process State → Option (ℕ × Process State)
  construct p = elim (alloc mm 0x2000 p.current_pdb p.heap) [
    | none ↦ none
    | some (pdb, a) ↦ some (
      pdb,
      record {
        heap = record a { mem = put_32 (add32 (sub32 pdb 0x10) 0x10) 0 a.mem };
        current_pdb = pdb;
      },
    )
  ]

  unfoldable pub destruct : (fuel pdb : ℕ) → Process State → Option (Process State)
  unfolding mfree
  destruct fuel pdb p =
      let parent : ℕ = add32 (get_32 (add32 (sub32 pdb 0x10) 4) p.heap.mem) 0x10 in
      elim (mfree fuel pdb (record p { current_pdb = parent })) [
        | none ↦ none
        | some (r, q) ↦ some q
      ]

  Spares-append : (x : ℕ) (us bs : List Block) → Spares x us → Spares x bs → Spares x (us ++ bs)
  Spares-append x [] bs s t = t
  Spares-append x (u ∷ us) bs s t = (s.0, s.1, Spares-append x us bs s.2 t)

  under : (us : List Block) (x limit : ℕ) → x < lowest_or limit us → x < lowest_or (x + 1) us
  under [] x limit h = omega arith
  under (u ∷ us) x limit h = h

  -- A write behind the header of a block leaves the chain as it was.
  put-Valid :
      (a : Allocator State) (us : List Block) (b : Block) (bs : List Block) (v : ℕ)
      → Valid mm a (us ++ b ∷ bs)
      → b.start + 32 ≤ b.finish
      → Valid mm (record a { mem = put_32 (add32 (b.start + 16) 0) v a.mem }) (us ++ b ∷ bs)
  put-Valid a us b bs v w h =
      let l = Layout-split a.limit us (b ∷ bs) w.layout in
      let next = next-IsHeader mm a us (b ∷ bs) w in
      let upper : Spares (b.start + 16) us =
        Spares-below a.limit us (b.start + 16) l.0 (omega (arith, w.limit_lt))
          (under us (b.start + 16) a.limit (omega (arith, l.1, h))) in
      let lower : Spares (b.start + 16) bs =
        Spares-above b.start bs (b.start + 16) l.1.4 (omega (arith, l.1, next)) (omega arith) in
      record {
        chain =
            Chain-put mm a.mem 0 0 (us ++ b ∷ bs) (b.start + 16) 0 v w.chain
              (Spares-append (b.start + 16) us (b ∷ bs) upper
                (omega arith, (omega (arith, l.1), omega (arith, l.1, next)), lower))
              (omega (arith, l.1), omega (arith, l.1, next, h)) (omega arith) (omega arith);
        layout = w.layout;
        last = w.last;
        root = w.root;
        limit_lt = w.limit_lt;
        limit_aligned = w.limit_aligned;
      }

  -- Where first fit places a block: right above a block of the list.
  abbrev Places : (len parent next c : ℕ) → (bs l : List Block) → Type 0
  Places len parent next c bs l =
      (us : List Block) × (b : Block) × (ds : List Block) × (bs ≡ us ++ b ∷ ds)
      × (l ≡ us ++ placed len parent b ∷ b ∷ ds)
      × (c ≡ round16 b.finish)

  abbrev Shape : (len parent next : ℕ) → List Block → Option (ℕ × List Block) → Type 0
  Shape len parent next bs none = Unit {0}
  Shape len parent next bs (some (c, l)) = Places len parent next c bs l

  Shape-below :
      (len parent next : ℕ) (b : Block) (bs : List Block) (o : Option (ℕ × List Block))
      → Shape len parent b.start bs o
      → Shape len parent next (b ∷ bs) (Option.map (λ (c, l). (c, b ∷ l)) o)
  Shape-below len parent next b bs none s = tt
  Shape-below len parent next b bs (some (c, l)) (us, d, ds, e, f, g) =
      (b ∷ us, d, ds, ap (λ k. b ∷ k) e, ap (λ k. b ∷ k) f, g)

  first_fit-Shape :
      (len parent next : ℕ) (bs : List Block)
      → Shape len parent next bs (first_fit len parent next bs)
  unfolding first_fit
  first_fit-Shape len parent next [] = tt
  first_fit-Shape len parent next (b ∷ bs) = elim (Bool-cases (leb len (gap next b))) [
    | inl fit ↦ rw fit ([], b, bs, refl, refl, refl)
    | inr miss ↦ rw miss (
        Shape-below len parent next b bs (first_fit len parent b.start bs)
          (first_fit-Shape len parent b.start bs))
  ]

  -- `construct` where the heap has room: the state of the heap afterwards.
  construct-first_fit :
      (p : Process State) (bs l : List Block) (c : ℕ)
      → Valid mm p.heap bs
      → first_fit 0x2010 (sub32 p.current_pdb 0x10) p.heap.limit bs ≡ some (c, l)
      → Places 0x2010 (sub32 p.current_pdb 0x10) p.heap.limit c bs l
      → (q : Process State) × (construct p ≡ some (add32 c 0x10, q))
        × (q.current_pdb ≡ add32 c 0x10)
        × Valid mm q.heap l
  unfolding construct
  construct-first_fit p bs l c v e (us, b, ds, e1, e2, e3) =
      let found = rw e at (alloc-first_fit mm p.heap bs 0x2000 p.current_pdb v (omega arith)) in
      let new : Block = placed 0x2010 (sub32 p.current_pdb 0x10) b in
      let w : Valid mm found.0 (us ++ new ∷ b ∷ ds) = rw e2 at found.2 in
      let parts = Layout-split found.0.limit us (new ∷ b ∷ ds) w.layout in
      let next = next-IsHeader mm found.0 us (new ∷ b ∷ ds) w in
      let address : add32 (sub32 (add32 c 0x10) 0x10) 0x10 ≡ add32 (new.start + 16) 0 =
        omega (arith, parts.1, next, e3) in
      rw (found.1, address, construct)
        (_, refl, refl, rw e2 (put-Valid found.0 us new (b ∷ ds) 0 w (omega arith)))

  destruct-leaf :
      (fuel pdb : ℕ) (r : Process State) (us : List Block) (new b : Block) (ds : List Block)
      → Valid mm r.heap (us ++ new ∷ b ∷ ds)
      → Unowned mm new.start (us ++ new ∷ b ∷ ds)
      → new.parent ≡ sub32 pdb 0x10
      → pdb < word_32
      → length (us ++ new ∷ b ∷ ds) < fuel
      → (t : Process State) × (destruct fuel (add32 new.start 0x10) r ≡ some t)
        × (t.current_pdb ≡ pdb)
        × Valid mm t.heap (us ++ b ∷ ds)
  unfolding destruct mfree
  destruct-leaf fuel pdb r us new b ds w un own small enough =
      let parts = Layout-split r.heap.limit us (new ∷ b ∷ ds) w.layout in
      let next = next-IsHeader mm r.heap us (new ∷ b ∷ ds) w in
      let chain = (Chain-split mm r.heap.mem 0 0 us (new ∷ b ∷ ds) w.chain).1 in
      let at : add32 new.start 0x10 ≡ new.start + 16 = omega (arith, parts.1, next) in
      let base : sub32 (add32 new.start 0x10) 0x10 ≡ new.start = omega (arith, parts.1, next) in
      let some_data : (new.start + 16 == 0) ≡ false = ==-false _ _ (omega arith) in
      let back : add32 (sub32 pdb 0x10) 0x10 ≡ pdb = omega (arith, small) in
      let freed = free-leaf mm fuel r.heap us new b ds w un enough in
      rw (at, some_data, freed.0, destruct, mfree)
        (_, refl, rw (base, chain.0.parent, own, back) refl, freed.1)

  -- With a well-formed heap in which first fit finds room for the 0x2010 bytes of the shell, and no
  -- block that names the new one as its parent: the constructor makes the block and becomes the
  -- current process; and from every later state of the heap with the same blocks, whatever the
  -- programs have stored in the memory and whichever process is current, the destructor takes exactly
  -- that block out again and makes the process of before the current one. The fuel of
  -- `free_by_parent` is one more than the blocks.
  pub destruct-construct :
      (p : Process State) (bs l : List Block) (c fuel : ℕ)
      → Valid mm p.heap bs
      → first_fit 0x2010 (sub32 p.current_pdb 0x10) p.heap.limit bs ≡ some (c, l)
      → Unowned mm c l
      → p.current_pdb < word_32
      → length l < fuel
      → (q : Process State) × (construct p ≡ some (add32 c 0x10, q))
        × (q.current_pdb ≡ add32 c 0x10)
        × Valid mm q.heap l
        × ((r : Process State)
            → Valid mm r.heap l
            → (t : Process State) × (destruct fuel (add32 c 0x10) r ≡ some t)
              × (t.current_pdb ≡ p.current_pdb)
              × Valid mm t.heap bs)
  destruct-construct p bs l c fuel v e un small enough =
      let parent : ℕ = sub32 p.current_pdb 0x10 in
      let places : Places 0x2010 parent p.heap.limit c bs l =
        rw e at (first_fit-Shape 0x2010 parent p.heap.limit bs) in
      let (us, b, ds, e1, e2, e3) = places in
      let (q, made, current, w) = construct-first_fit p bs l c v e places in
      (
        q,
        made,
        current,
        w,
        λ r wr.
            rw (e3, e1)
              (destruct-leaf fuel p.current_pdb r us (placed 0x2010 parent b) b ds (rw e2 at wr)
                (rw (e2, e3) at un) refl small (rw e2 at enough)),
      )
