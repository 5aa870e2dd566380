-- ===== src/Allocator/Examples.antt =====
-- The theorems on allocator.cc at the DOS heap of a small machine, over the memory of long words.
use vx68k_v.Base.{ℕ, ◌%◌, ◌/◌, ◌≢◌, List, ◌<◌, ◌⊎◌, ◌≡◌, refl, some, [], ◌∷◌, arith}
use vx68k_v.Allocator.Memory.{word_memory}
use vx68k_v.Allocator.Chain.{Block}
use vx68k_v.Allocator.Split.{Valid}
use vx68k_v.Allocator.Insert.{make_block-Valid}
use vx68k_v.Allocator.Init.{init-Valid}
use vx68k_v.Allocator.Alloc.{first_fit, largest_gap, Found, alloc-first_fit}
use vx68k_v.Allocator.Resize.{ends_at, resize-within}
use vx68k_v.Allocator.Remove.{free-leaf}
use vx68k_v.Allocator.Largest.{Takes, alloc_largest-whole_gap}
use vx68k_v.Shell.Lifetime.{Process, construct, destruct, destruct-construct}
use vx68k_v.Allocator.{
  Allocator, remove_block, make_block, free, resize, alloc, alloc_largest, init,
}

abbrev heap : Allocator (ℕ → ℕ)
heap = init word_memory 0x8000 0x20000 (λ _. 0)

abbrev root : Block
root = record { start = 0x8000; parent = 0; finish = 0x8010 }

heap-Valid : Valid word_memory heap (root ∷ [])
heap-Valid =
    init-Valid word_memory 0x8000 0x20000 (λ _. 0) (omega arith) (omega arith) (omega arith)

abbrev two : Allocator (ℕ → ℕ)
two = make_block word_memory 0x8010 0x110 0x8000 0x8000 heap

abbrev first : Block
first = record { start = 0x8010; parent = 0x8000; finish = 0x8120 }

limit_heap : heap.limit ≡ 0x20000
unfolding init
limit_heap = refl

limit_two : two.limit ≡ 0x20000
unfolding make_block init
limit_two = refl

two-Valid : Valid word_memory two (first ∷ root ∷ [])
two-Valid =
    make_block-Valid word_memory heap [] root [] 0x8010 0x110 0x8000 heap-Valid (omega arith)
      (omega arith) (omega arith) (omega (arith, limit_heap)) (omega arith)

alloc-first_fit_example :
    Found word_memory []
      (first_fit 0x110 0x8000 heap.limit (root ∷ []))
      (largest_gap 16 heap.limit (root ∷ []))
      heap
      (alloc word_memory 0x100 0x8010 heap)
alloc-first_fit_example =
    alloc-first_fit word_memory heap (root ∷ []) 0x100 0x8010 heap-Valid (omega arith)

resize-within_example :
    (a' : Allocator (ℕ → ℕ)) × (resize word_memory 0x8020 0x400 two ≡ some (0, a'))
    × Valid word_memory a' (ends_at 0x8420 first ∷ root ∷ [])
    × ((x : ℕ) → x % 4 ≡ 0 → x ≢ 0x8018 → a'.mem (x / 4) ≡ two.mem (x / 4))
    × (a' ≡ record two { mem = a'.mem })
resize-within_example =
    resize-within word_memory two [] first (root ∷ []) 0x400 two-Valid (omega arith)
      (omega (arith, limit_two))

free-leaf_example :
    (free word_memory 3 0x8020 two ≡ some (0, remove_block word_memory 0x8010 two))
    × Valid word_memory (remove_block word_memory 0x8010 two) (root ∷ [])
free-leaf_example =
    free-leaf word_memory 3 two [] first root [] two-Valid (omega arith) (omega arith)

-- The whole memory above the root block goes to a program.
alloc_largest-whole_gap_example :
    ((largest_gap 16 heap.limit (root ∷ []) ≡ 16)
      × (alloc_largest word_memory 0x8010 heap ≡ some (0x82000000, heap)))
    ⊎ ((16 < largest_gap 16 heap.limit (root ∷ []))
        × Takes word_memory 0x8010
            (root ∷ [])
            heap
            (largest_gap 16 heap.limit (root ∷ []))
            (alloc_largest word_memory 0x8010 heap))
alloc_largest-whole_gap_example =
    alloc_largest-whole_gap word_memory heap (root ∷ []) 0x8010 heap-Valid

-- A shell in the fresh heap.
abbrev process : Process (ℕ → ℕ)
process = record { heap = heap; current_pdb = 0x8010 }

abbrev with_shell : List Block
with_shell = record { start = 0x8010; parent = 0x8000; finish = 0xa020 } ∷ root ∷ []

destruct-construct_example :
    (q : Process (ℕ → ℕ)) × (construct word_memory process ≡ some (0x8020, q))
    × (q.current_pdb ≡ 0x8020)
    × Valid word_memory q.heap with_shell
    × ((r : Process (ℕ → ℕ))
        → Valid word_memory r.heap with_shell
        → (t : Process (ℕ → ℕ)) × (destruct word_memory 3 0x8020 r ≡ some t)
          × (t.current_pdb ≡ 0x8010)
          × Valid word_memory t.heap (root ∷ []))
unfolding first_fit init
destruct-construct_example =
    destruct-construct word_memory process (root ∷ []) with_shell 0x8010 3 heap-Valid refl
      (omega arith, (omega arith, tt)) (omega arith) (omega arith)

-- An allocation that runs: the data of the second block starts behind its header.
alloc_runs : (a : Allocator (ℕ → ℕ)) × (alloc word_memory 0x20 0x8010 two ≡ some (0x8130, a))
unfolding alloc make_block init
alloc_runs = (_, refl)
