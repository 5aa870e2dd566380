-- ===== src/Allocator/Chain.antt =====
-- The blocks of allocator.cc as a list, the last block first, and the words that hold it: a doubly
-- linked chain of headers. Reading the chain, and changes that spare it.
use vx68k_v.Base.{ℕ, ◌+◌, ◌%◌, ◌≤◌, ◌<◌, ◌≡◌, ◌≢◌, List, [], ◌∷◌, arith, add32, word_32}
use vx68k_v.Allocator.Memory.{MemoryMap}

-- `finish` is the address behind the last byte of the block, the header of 16 bytes included.
pub record Block : Type 0 where
  pub start : ℕ
  pub parent : ℕ
  pub finish : ℕ

-- The address of the first block, or `other` where there is none.
abbrev pub first_or : ℕ → List Block → ℕ
first_or other [] = other
first_or other (b ∷ bs) = b.start

-- The address of the lowest block.
abbrev pub lowest_or : ℕ → List Block → ℕ
lowest_or other [] = other
lowest_or other (b ∷ bs) = lowest_or b.start bs

-- Blocks that lie one below the other under `top`, each with room for its header.
abbrev pub Layout : ℕ → List Block → Type 0
Layout top [] = Unit {0}
Layout top (b ∷ bs) =
    (0 < b.start)
    × (b.start % 16 ≡ 0)
    × (b.start + 16 ≤ b.finish)
    × (b.finish ≤ top)
    × Layout b.start bs

-- An address at which a header can stand.
abbrev pub IsHeader : ℕ → Type 0
IsHeader x = (x % 16 ≡ 0) × (x + 16 ≤ word_32)

-- The headers of the blocks stand elsewhere than at `x`.
abbrev pub Spares : ℕ → List Block → Type 0
Spares x [] = Unit {0}
Spares x (b ∷ bs) = (b.start ≢ x) × IsHeader b.start × Spares x bs

pub Spares-above :
    (top : ℕ) (bs : List Block) (x : ℕ) → Layout top bs → top ≤ word_32 → top ≤ x → Spares x bs
Spares-above top [] x l tw tx = tt
Spares-above top (b ∷ bs) x l tw tx = (
  omega arith,
  (omega arith, omega arith),
  Spares-above b.start bs x l.4 (omega arith) (omega arith),
)

-- The lowest block under `top` is a header below it.
pub lowest-IsHeader :
    (top : ℕ) (b : Block) (bs : List Block)
    → Layout top (b ∷ bs)
    → top ≤ word_32
    → IsHeader (lowest_or b.start bs)
      × (0 < lowest_or b.start bs)
      × (lowest_or b.start bs + 16 ≤ top)
lowest-IsHeader top b [] l tw = omega arith
lowest-IsHeader top b (d ∷ bs) l tw = omega (arith, lowest-IsHeader b.start d bs l.4 (omega arith))

pub Spares-below :
    (top : ℕ) (bs : List Block) (x : ℕ)
    → Layout top bs
    → top ≤ word_32
    → x < lowest_or (x + 1) bs
    → Spares x bs
Spares-below top [] x l tw tx = tt
Spares-below top (b ∷ []) x l tw tx = (omega arith, (omega arith, omega arith), tt)
Spares-below top (b ∷ d ∷ bs) x l tw tx =
    let low = lowest-IsHeader b.start d bs l.4 (omega arith) in
    (omega arith, (omega arith, omega arith), Spares-below b.start (d ∷ bs) x l.4 (omega arith) tx)

module _ (mm : MemoryMap) where
  open mm use {State, get_32, put_32, get-put_self, get-put_ne}

  pub record Header (m : State) (b : Block) (up down : ℕ) : Type 0 where
    pub prev : get_32 (add32 b.start 0) m ≡ down
    pub parent : get_32 (add32 b.start 4) m ≡ b.parent
    pub end : get_32 (add32 b.start 8) m ≡ b.finish
    pub next : get_32 (add32 b.start 12) m ≡ up

  -- The headers of the blocks, from the block below `up` to the one above `down`.
  abbrev pub Chain : State → ℕ → List Block → ℕ → Type 0
  Chain m up [] down = Unit {0}
  Chain m up (b ∷ bs) down = Header m b up (first_or down bs) × Chain m b.start bs down

  -- A write into the header at another address.
  pub Header-put :
      {m : State} {b : Block} {up down : ℕ} (x k v : ℕ)
      → Header m b up down
      → IsHeader b.start
      → IsHeader x
      → k < 16
      → k % 4 ≡ 0
      → b.start ≢ x
      → Header (put_32 (add32 x k) v m) b up down
  Header-put {m} {b} x k v h bh xh kl ka ne = record {
    prev = rw (other 0 (omega arith) (omega arith)) h.prev;
    parent = rw (other 4 (omega arith) (omega arith)) h.parent;
    end = rw (other 8 (omega arith) (omega arith)) h.end;
    next = rw (other 12 (omega arith) (omega arith)) h.next;
  }
    where
      other :
          (j : ℕ)
          → j < 16
          → j % 4 ≡ 0
          → get_32 (add32 b.start j) (put_32 (add32 x k) v m) ≡ get_32 (add32 b.start j) m
      other j jl ja =
          get-put_ne (add32 b.start j) (add32 x k) v m (omega arith) (omega arith) (omega arith)

  pub Chain-put :
      (m : State) (up down : ℕ) (bs : List Block) (x k v : ℕ)
      → Chain m up bs down
      → Spares x bs
      → IsHeader x
      → k < 16
      → k % 4 ≡ 0
      → Chain (put_32 (add32 x k) v m) up bs down
  Chain-put m up down [] x k v c sp xh kl ka = tt
  Chain-put m up down (b ∷ bs) x k v c sp xh kl ka =
      (Header-put x k v c.0 sp.1 xh kl ka sp.0, Chain-put m b.start down bs x k v c.1 sp.2 xh kl ka)

  -- A new link to the block above.
  pub Chain-link_up :
      (m : State) (up down : ℕ) (b : Block) (bs : List Block) (top v : ℕ)
      → Chain m up (b ∷ bs) down
      → Layout top (b ∷ bs)
      → top ≤ word_32
      → v < word_32
      → Chain (put_32 (add32 b.start 12) v m) v (b ∷ bs) down
  Chain-link_up m up down b bs top v (h, c) l tw vw = (
    record {
      prev = rw (other 0 (omega arith)) h.prev;
      parent = rw (other 4 (omega arith)) h.parent;
      end = rw (other 8 (omega arith)) h.end;
      next = get-put_self (add32 b.start 12) v m (omega arith) vw;
    },
    Chain-put m b.start down bs b.start 12 v c
        (Spares-above b.start bs b.start l.4 (omega arith) (omega arith)) (omega arith)
        (omega arith) (omega arith),
  )
    where
      other :
          (j : ℕ)
          → (add32 b.start j % 4 ≡ 0) × (add32 b.start j ≢ add32 b.start 12)
          → get_32 (add32 b.start j) (put_32 (add32 b.start 12) v m) ≡ get_32 (add32 b.start j) m
      other j e = get-put_ne (add32 b.start j) (add32 b.start 12) v m e.0 (omega arith) e.1

  -- A new link from the lowest block to the block below.
  pub Chain-link_down :
      (m : State) (up down : ℕ) (b : Block) (bs : List Block) (top v : ℕ)
      → Chain m up (b ∷ bs) down
      → Layout top (b ∷ bs)
      → top ≤ word_32
      → v < word_32
      → Chain (put_32 (add32 (lowest_or b.start bs) 0) v m) up (b ∷ bs) v
  Chain-link_down m up down b [] top v (h, c) l tw vw = (
    record {
      prev = get-put_self (add32 b.start 0) v m (omega arith) vw;
      parent = rw (other 4 (omega arith)) h.parent;
      end = rw (other 8 (omega arith)) h.end;
      next = rw (other 12 (omega arith)) h.next;
    },
    tt,
  )
    where
      other :
          (j : ℕ)
          → (add32 b.start j % 4 ≡ 0) × (add32 b.start j ≢ add32 b.start 0)
          → get_32 (add32 b.start j) (put_32 (add32 b.start 0) v m) ≡ get_32 (add32 b.start j) m
      other j e = get-put_ne (add32 b.start j) (add32 b.start 0) v m e.0 (omega arith) e.1
  Chain-link_down m up down b (d ∷ bs) top v (h, c) l tw vw =
      let low = lowest-IsHeader b.start d bs l.4 (omega arith) in
      (
        Header-put (lowest_or d.start bs) 0 v h (omega arith) low.0 (omega arith) (omega arith)
            (omega arith),
        Chain-link_down m b.start down d bs b.start v c l.4 (omega arith) vw,
      )
