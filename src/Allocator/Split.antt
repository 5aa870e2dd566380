-- ===== src/Allocator/Split.antt =====
-- Chains cut in two and joined, and the well-formed states of allocator.cc.
use vx68k_v.Base.{
  ℕ, suc, ◌+◌, ◌*◌, ◌%◌, ◌≤◌, ◌<◌, ◌≡◌, ◌≢◌, refl, List, [], ◌∷◌, ◌++◌, arith, word_32, length,
}
use vx68k_v.Allocator.Memory.{MemoryMap}
use vx68k_v.Allocator.Chain.{Block, first_or, lowest_or, Layout, Spares, Spares-below, Chain}
use vx68k_v.Allocator.{Allocator}

pub first_or-append :
    (other : ℕ) (us bs : List Block) → first_or other (us ++ bs) ≡ first_or (first_or other bs) us
first_or-append other [] bs = refl
first_or-append other (u ∷ us) bs = refl

pub lowest_or-append :
    (other : ℕ) (us bs : List Block)
    → lowest_or other (us ++ bs) ≡ lowest_or (lowest_or other us) bs
lowest_or-append other [] bs = refl
lowest_or-append other (u ∷ us) bs = lowest_or-append u.start us bs

pub Layout-split :
    (top : ℕ) (us bs : List Block)
    → Layout top (us ++ bs)
    → Layout top us × Layout (lowest_or top us) bs
Layout-split top [] bs l = (tt, l)
Layout-split top (u ∷ us) bs l =
    let rest = Layout-split u.start us bs l.4 in ((l.0, l.1, l.2, l.3, rest.0), rest.1)

pub Layout-join :
    (top : ℕ) (us bs : List Block)
    → Layout top us
    → Layout (lowest_or top us) bs
    → Layout top (us ++ bs)
Layout-join top [] bs l r = r
Layout-join top (u ∷ us) bs l r = (l.0, l.1, l.2, l.3, Layout-join u.start us bs l.4 r)

-- There is room for at most one header in every 16 bytes.
pub length-Layout : (top : ℕ) (bs : List Block) → Layout top bs → length bs * 16 ≤ top
length-Layout top [] l = omega arith
length-Layout top (b ∷ bs) l = omega (arith, length-Layout b.start bs l.4)

-- `k` rounds after one for each block.
abbrev pub plus : List Block → ℕ → ℕ
plus [] k = k
plus (b ∷ bs) k = suc (plus bs k)

pub plus-length : (bs : List Block) (k : ℕ) → plus bs k ≡ length bs + k
plus-length [] k = omega arith
plus-length (b ∷ bs) k = omega (arith, plus-length bs k)

-- No block starts at `x`.
abbrev pub Avoids : ℕ → List Block → Type 0
Avoids x [] = Unit {0}
Avoids x (b ∷ bs) = (b.start ≢ x) × Avoids x bs

pub Avoids-of_Spares : (x : ℕ) (bs : List Block) → Spares x bs → Avoids x bs
Avoids-of_Spares x [] sp = tt
Avoids-of_Spares x (b ∷ bs) sp = (sp.0, Avoids-of_Spares x bs sp.2)

-- The headers above a block stand elsewhere.
pub Spares-upper :
    (top : ℕ) (us : List Block) (b : Block) (bs : List Block)
    → Layout top (us ++ b ∷ bs)
    → top ≤ word_32
    → Spares b.start us
Spares-upper top [] b bs l tw = tt
Spares-upper top (u ∷ us) b bs l tw =
    let parts = Layout-split top (u ∷ us) (b ∷ bs) l in
    Spares-below top (u ∷ us) b.start parts.0 tw (omega (arith, parts.1))

module _ (mm : MemoryMap) where
  open mm use {State}

  pub Chain-split :
      (m : State) (up down : ℕ) (us bs : List Block)
      → Chain mm m up (us ++ bs) down
      → Chain mm m up us (first_or down bs) × Chain mm m (lowest_or up us) bs down
  Chain-split m up down [] bs c = (tt, c)
  Chain-split m up down (u ∷ us) bs c =
      let rest = Chain-split m u.start down us bs c.1 in
      ((rw (first_or-append down us bs) at (c.0), rest.0), rest.1)

  pub Chain-join :
      (m : State) (up down : ℕ) (us bs : List Block)
      → Chain mm m up us (first_or down bs)
      → Chain mm m (lowest_or up us) bs down
      → Chain mm m up (us ++ bs) down
  Chain-join m up down [] bs c d = d
  Chain-join m up down (u ∷ us) bs c d =
      (rw (first_or-append down us bs) (c.0), Chain-join m u.start down us bs c.1 d)

  -- The state holds the blocks `bs`, the last block first and the root block at the end.
  pub record Valid (a : Allocator State) (bs : List Block) : Type 0 where
    pub chain : Chain mm a.mem 0 bs 0
    pub layout : Layout a.limit bs
    pub last : a.last_block ≡ first_or 0 bs
    pub root : a.root_block ≡ lowest_or 0 bs
    pub limit_lt : a.limit < word_32
    pub limit_aligned : a.limit % 16 ≡ 0
