-- ===== src/Iocs.antt =====
-- libvx68k/systemrom.cc: the vectors that `system_rom::initialize` sets, the table of the IOCS
-- calls, and the instruction handlers `iocs_trap` and `x68k_iocs`.
pub mod Vectors
pub mod Frame
pub mod Calls
pub mod Table
mod Examples
use vx68k_v.Base.{
  ℕ, zero, suc, ◌+◌, ◌-◌, ◌*◌, ◌/◌, ◌%◌, ◌≤◌, ◌<◌, ◌≡◌, ◌⊎◌, Bool, true, false, Option, none, some,
  ◌>>=◌, ◌==◌, leb, ltb, ◌&&◌, if◌then◌else◌, add32, sub32, word_32,
}
use vx68k_v.Dos.Machine.{Regs}

-- `n` bytes at `a` and `m` bytes at `b` do not meet.
abbrev pub Apart : (a n b m : ℕ) → Type 0
Apart a n b m = (a + n ≤ b) ⊎ (b + m ≤ a)

-- The memory map as supervisor data, with words and long words: a value is read back as written,
-- and a write leaves what does not meet it as it was. This is the main memory: the vectors and the
-- stack are taken to lie in it, neither in the ROM nor past the 24 bits of an address.
pub record TrapMemory : Type 1 where
  pub State : Type 0
  pub get_16 : ℕ → State → ℕ
  pub put_16 : ℕ → ℕ → State → State
  pub get_32 : ℕ → State → ℕ
  pub put_32 : ℕ → ℕ → State → State
  pub get_16-put_16 : (a v : ℕ) (s : State) → v < 65536 → get_16 a (put_16 a v s) ≡ v
  pub get_32-put_32 : (a v : ℕ) (s : State) → v < word_32 → get_32 a (put_32 a v s) ≡ v
  pub get_16-put_32-Apart :
      (a b v : ℕ) (s : State) → Apart a 2 b 4 → get_16 a (put_32 b v s) ≡ get_16 a s
  pub get_32-put_16-Apart :
      (a b v : ℕ) (s : State) → Apart a 4 b 2 → get_32 a (put_16 b v s) ≡ get_32 a s
  pub get_32-put_32-Apart :
      (a b v : ℕ) (s : State) → Apart a 4 b 4 → get_32 a (put_32 b v s) ≡ get_32 a s

-- The state register, and the change to the supervisor state, of libvm68k's `context`.
pub record StateRegister : Type 0 where
  pub sr : Regs → ℕ
  pub set_supervisor_state : Bool → Regs → Regs

-- `system_rom::get_16`: the instruction of `x68k_iocs` at the entries of the calls, and RTE.
abbrev pub rom_get_16 : ℕ → ℕ
rom_get_16 address = if leb 0xfe0400 address && ltb address 0xfe0800 then 0xf84f else 0x4e73

module _ (mm : TrapMemory) where
  open mm use {State, get_16, put_16, get_32, put_32}

  -- The loops of `initialize`: `n` long words from `i` on.
  abbrev pub vectors : (n i f : ℕ) → State → State
  vectors zero i f s = s
  vectors (suc n) i f s = vectors n (i + 4) (f + 4) (put_32 i f s)

  abbrev pub clear : (n i : ℕ) → State → State
  clear zero i s = s
  clear (suc n) i s = clear n (i + 4) (put_32 i 0 s)

  unfoldable pub initialize : State → State
  initialize s = clear 0x200 0x800 (vectors 0x200 0 0xfe0000 s)

  pub record Processor : Type 0 where
    pub regs : Regs
    pub mem : State

  -- A handler of the table. none is an exception.
  abbrev pub Handler : Type 0
  Handler = Processor → Option Processor

  -- `set_iocs_call`; none is the exception `range_error`.
  unfoldable pub set_iocs_call : (funcno : ℕ) → Handler → (ℕ → Handler) → Option (ℕ → Handler)
  set_iocs_call funcno f calls =
      if leb 0x100 funcno then none else some (λ n. if n == funcno then f else calls n)

  unfoldable pub call_iocs : (ℕ → Handler) → (funcno : ℕ) → Handler
  call_iocs calls funcno p = calls (funcno % 0x100) p

  module _ (cpu : StateRegister) (calls : ℕ → Handler) where
    -- The frame of an installed handler for the trap.
    abbrev pub push_trap : (addr : ℕ) → Processor → Processor
    push_trap addr p =
        let up : Regs = cpu.set_supervisor_state true p.regs in
        let sp : ℕ = sub32 up.a7 6 in
        record {
          regs = record up { a7 = sp; pc = addr };
          mem = put_16 sp (cpu.sr p.regs) (put_32 (add32 sp 2) (add32 p.regs.pc 2) p.mem);
        }

    -- The frame of an installed handler for a call, which returns to 0xfe0000.
    abbrev pub push_call : (handler : ℕ) → Processor → Processor
    push_call handler p =
        let up : Regs = cpu.set_supervisor_state true p.regs in
        let sp : ℕ = sub32 up.a7 10 in
        record {
          regs = record up { a7 = sp; pc = handler };
          mem =
              put_32 sp 0xfe0000 (
                put_16 (add32 sp 4) (cpu.sr p.regs)
                  (put_32 (add32 sp 6) (add32 p.regs.pc 2) p.mem));
        }

    unfoldable pub iocs_trap : Handler
    unfolding call_iocs
    iocs_trap p =
        let vecaddr : ℕ = (15 + 32) * 4 in
        let addr : ℕ = get_32 vecaddr p.mem in
        let callno : ℕ = p.regs.d0 % 256 in
        let call_address : ℕ = (callno + 0x100) * 4 in
        let call_handler : ℕ = get_32 call_address p.mem in
        if addr == vecaddr + 0xfe0000
        then (if call_handler == call_address + 0xfe0000
            then (call_iocs calls callno p >>= λ q.
                some (record q { regs = record q.regs { pc = add32 q.regs.pc 2 } }))
            else some (push_call call_handler p))
        else some (push_trap addr p)

    -- The call whose entry in the ROM %pc is at, and a return.
    unfoldable pub x68k_iocs : Handler
    unfolding call_iocs
    x68k_iocs p = call_iocs calls (sub32 p.regs.pc 0xfe0400 / 4) p >>= λ q.
        some (record q {
          regs = record q.regs { pc = get_32 q.regs.a7 q.mem; a7 = add32 q.regs.a7 4 };
        })
