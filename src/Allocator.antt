-- ===== src/Allocator.antt =====
-- libvx68kdos/allocator.cc: `memory_allocator`, the memory blocks of the DOS. The headers of the
-- blocks are words of the emulated memory, which `MemoryMap` (Allocator/Memory.antt) stands for.
-- A while loop runs on fuel, `none` is a loop that did not end; `rounds` is the fuel it is given.
-- A result is its 32-bit pattern, `minus 7` for -7.
pub mod Memory
pub mod Chain
pub mod Split
pub mod Insert
pub mod Alloc
pub mod Largest
pub mod Init
pub mod Resize
pub mod Remove
pub mod Overflow
mod Examples
use vx68k_v.Base.{
  ℕ, zero, suc, ◌+◌, ◌-◌, ◌*◌, ◌/◌, ◌≡◌, Bool, true, false, Option, none, some, ◌==◌, ltb, leb,
  if◌then◌else◌, add32, sub32, minus, align16,
}
use Memory.{MemoryMap}

-- The fields of the class; `mem` is the memory behind `_as`.
pub record Allocator (State : Type 0) : Type 0 where
  pub mem : State
  pub limit : ℕ
  pub root_block : ℕ
  pub last_block : ℕ

-- Every block starts at a multiple of 16 below the limit, so a chain has fewer blocks than this.
abbrev pub rounds : {State : Type 0} → Allocator State → ℕ
rounds a = a.limit / 16 + 1

-- The result where no gap is large enough.
abbrev pub no_room : ℕ → ℕ
no_room max_len = if max_len == 0x10 then 0x82000000 else add32 0x81000000 (sub32 max_len 0x10)

-- The best gap so far.
pub record Best : Type 0 where
  pub best_block : ℕ
  pub best_candidate : ℕ
  pub max_free_len : ℕ

abbrev pub better : Best → (block candidate free_len : ℕ) → Best
better b block candidate free_len =
    if ltb b.max_free_len free_len
    then record { best_block = block; best_candidate = candidate; max_free_len = free_len }
    else b

module _ (mm : MemoryMap) where
  open mm use {State, get_32, put_32}

  abbrev pub field : ℕ → ℕ → State → ℕ
  field block k m = get_32 (add32 block k) m

  pub remove_block : ℕ → Allocator State → Allocator State
  remove_block block a =
      let prev = field block 0 a.mem in
      let next = field block 12 a.mem in
      let m = put_32 (add32 prev 12) next a.mem in
      if next == 0
      then record a { mem = m; last_block = prev }
      else record a { mem = put_32 (add32 next 0) prev m }

  pub make_block : (block len prev parent : ℕ) → Allocator State → Allocator State
  make_block block len prev parent a =
      let next = field prev 12 a.mem in
      let m1 = put_32 (add32 block 0) prev a.mem in
      let m2 = put_32 (add32 block 4) parent m1 in
      let m3 = put_32 (add32 block 8) (add32 block len) m2 in
      let m4 = put_32 (add32 block 12) next m3 in
      let m5 = put_32 (add32 prev 12) block m4 in
      if next == 0
      then record a { mem = m5; last_block = block }
      else record a { mem = put_32 (add32 next 0) block m5 }

  -- The loop of `free_by_parent`, the recursive call included.
  pub free_by_parent_loop : ℕ → (parent block : ℕ) → Allocator State → Option (Allocator State)
  free_by_parent_loop zero parent block a = none
  free_by_parent_loop (suc fuel) parent block a = elim (block == 0) [
    | true ↦ some a
    | false ↦ elim (field block 4 a.mem == sub32 parent 0x10) [
      | true ↦ elim (free_by_parent_loop fuel (add32 block 0x10) a.last_block a) [
        | none ↦ none
        | some b ↦
            free_by_parent_loop fuel parent (field block 0 (remove_block block b).mem)
              (remove_block block b)
      ]
      | false ↦ free_by_parent_loop fuel parent (field block 0 a.mem) a
    ]
  ]

  pub free_by_parent : ℕ → ℕ → Allocator State → Option (Allocator State)
  free_by_parent fuel parent a = free_by_parent_loop fuel parent a.last_block a

  -- `fuel` is that of `free_by_parent`.
  pub free_loop : ℕ → (fuel memptr block : ℕ) → Allocator State → Option (ℕ × Allocator State)
  free_loop zero fuel memptr block a = none
  free_loop (suc n) fuel memptr block a = elim (block == 0) [
    | true ↦ some (minus 9, a)
    | false ↦ elim (ltb a.limit (add32 block 0x10)) [
      | true ↦ some (minus 7, a)
      | false ↦ elim (block == memptr) [
        | true ↦ elim (free_by_parent fuel (add32 block 0x10) a) [
          | none ↦ none
          | some b ↦ some (0, remove_block block b)
        ]
        | false ↦ free_loop n fuel memptr (field block 0 a.mem) a
      ]
    ]
  ]

  pub free : ℕ → ℕ → Allocator State → Option (ℕ × Allocator State)
  unfolding free_loop
  free fuel memptr a = free_loop (rounds a) fuel (sub32 memptr 0x10) a.last_block a

  pub resize_loop :
      ℕ → (memptr new_brk next block : ℕ) → Allocator State → Option (ℕ × Allocator State)
  resize_loop zero memptr new_brk next block a = none
  resize_loop (suc n) memptr new_brk next block a = elim (block == 0) [
    | true ↦ some (minus 9, a)
    | false ↦ elim (ltb next (add32 block 0x10)) [
      | true ↦ some (minus 7, a)
      | false ↦ elim (block == memptr) [
        | true ↦
            if ltb next new_brk
            then some (no_room (sub32 next block), a)
            else some (0, record a { mem = put_32 (add32 block 8) new_brk a.mem })
        | false ↦ resize_loop n memptr new_brk block (field block 0 a.mem) a
      ]
    ]
  ]

  pub resize : ℕ → ℕ → Allocator State → Option (ℕ × Allocator State)
  unfolding resize_loop
  resize memptr newlen a =
      resize_loop (rounds a) (sub32 memptr 0x10) (add32 memptr newlen) a.limit a.last_block a

  -- The first free address above a block, and the free bytes from there to the next block.
  abbrev pub candidate_of : ℕ → State → ℕ
  candidate_of block m = align16 (field block 8 m)

  pub alloc_loop :
      ℕ → (len parent max_free_len next block : ℕ) → Allocator State → Option (ℕ × Allocator State)
  alloc_loop zero len parent max_free_len next block a = none
  alloc_loop (suc n) len parent max_free_len next block a = elim (block == 0) [
    | true ↦ some (no_room max_free_len, a)
    | false ↦ elim (ltb next (add32 block 0x10)) [
      | true ↦ some (minus 7, a)
      | false ↦
          let candidate = candidate_of block a.mem in
          let free_len = sub32 next candidate in
          elim (leb len free_len) [
            | true ↦
                some (add32 candidate 0x10, make_block candidate len block (sub32 parent 0x10) a)
            | false ↦
                alloc_loop n len parent
                  (if ltb max_free_len free_len then free_len else max_free_len) block
                  (field block 0 a.mem) a
          ]
    ]
  ]

  pub alloc : ℕ → ℕ → Allocator State → Option (ℕ × Allocator State)
  unfolding alloc_loop
  alloc len parent a = alloc_loop (rounds a) (add32 len 0x10) parent 0x10 a.limit a.last_block a

  -- `none` inside is the early return of -7.
  pub best_loop : ℕ → Best → (next block : ℕ) → State → Option (Option Best)
  best_loop zero b next block m = none
  best_loop (suc n) b next block m = elim (block == 0) [
    | true ↦ some (some b)
    | false ↦ elim (ltb next (add32 block 0x10)) [
      | true ↦ some none
      | false ↦
          best_loop n (better b block (candidate_of block m) (sub32 next (candidate_of block m)))
            block (field block 0 m) m
    ]
  ]

  pub use_best : ℕ → Best → Allocator State → ℕ × Allocator State
  use_best parent b a = if b.max_free_len == 0x10 then (0x82000000, a) else (
    add32 b.best_candidate 0x10,
    make_block b.best_candidate b.max_free_len b.best_block (sub32 parent 0x10) a,
  )

  pub alloc_largest : ℕ → Allocator State → Option (ℕ × Allocator State)
  unfolding best_loop use_best
  alloc_largest parent a =
      let start : Best = record { best_block = 0; best_candidate = 0; max_free_len = 0x10 } in
      elim (best_loop (rounds a) start a.limit a.last_block a.mem) [
        | none ↦ none
        | some none ↦ some (minus 7, a)
        | some (some b) ↦ some (use_best parent b a)
      ]

  -- The constructor.
  pub init : (address lim : ℕ) → State → Allocator State
  init address lim m =
      let root = align16 address in
      let m1 = put_32 (add32 root 0) 0 m in
      let m2 = put_32 (add32 root 4) 0 m1 in
      let m3 = put_32 (add32 root 8) (add32 root 0x10) m2 in
      let m4 = put_32 (add32 root 12) 0 m3 in
      record { mem = m4; limit = lim / 16 * 16; root_block = root; last_block = root }
