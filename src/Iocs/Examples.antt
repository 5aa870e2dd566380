-- ===== src/Iocs/Examples.antt =====
-- The theorems on the IOCS trap of systemrom.cc in a memory of bytes.
use vx68k_v.Base.{
  ◌≢◌, ℕ, ◌+◌, ◌*◌, ◌/◌, ◌%◌, ◌<◌, ◌≡◌, refl, false, some, ◌>>=◌, ◌==◌, arith, if◌then◌else◌,
  word_32, inl, inr, add32, none, ◌≤◌, ◌⊎◌,
}
use vx68k_v.Dos.Machine.{Regs}
use vx68k_v.Iocs.{
  Apart, TrapMemory, StateRegister, Processor, Handler, call_iocs, initialize, iocs_trap, x68k_iocs,
}
use vx68k_v.Iocs.Frame.{ComesBack, iocs_trap-ComesBack}
use vx68k_v.Iocs.Vectors.{iocs_trap-x68k_iocs}
use vx68k_v.Iocs.Table.{Call, Table, install_iocs_calls}
use vx68k_v.Iocs.Table.Numbers.{number, install_iocs_calls-number}
use vx68k_v.Machine.Faults.{Handles, catch_illegal_instruction, catch_illegal_instruction-Handles}

abbrev get_16 : ℕ → (ℕ → ℕ) → ℕ
get_16 a s = s a * 256 + s (a + 1)

abbrev put_16 : ℕ → ℕ → (ℕ → ℕ) → ℕ → ℕ
put_16 a v s i = if i == a then v / 256 else if i == a + 1 then v % 256 else s i

abbrev get_32 : ℕ → (ℕ → ℕ) → ℕ
get_32 a s = s a * 16777216 + s (a + 1) * 65536 + s (a + 2) * 256 + s (a + 3)

abbrev put_32 : ℕ → ℕ → (ℕ → ℕ) → ℕ → ℕ
put_32 a v s i =
    if i == a
    then v / 16777216
    else if i == a + 1
    then v / 65536 % 256
    else if i == a + 2
    then v / 256 % 256
    else if i == a + 3
    then v % 256
    else s i

get_16-put_16 : (a v : ℕ) (s : ℕ → ℕ) → v < 65536 → get_16 a (put_16 a v s) ≡ v
get_16-put_16 a v s h = ground arith

get_32-put_32 : (a v : ℕ) (s : ℕ → ℕ) → v < word_32 → get_32 a (put_32 a v s) ≡ v
get_32-put_32 a v s h = ground arith

get_16-put_32-Apart : (a b v : ℕ) (s : ℕ → ℕ) → Apart a 2 b 4 → get_16 a (put_32 b v s) ≡ get_16 a s
get_16-put_32-Apart a b v s (inl h) = ground arith
get_16-put_32-Apart a b v s (inr h) = ground arith

get_32-put_16-Apart : (a b v : ℕ) (s : ℕ → ℕ) → Apart a 4 b 2 → get_32 a (put_16 b v s) ≡ get_32 a s
get_32-put_16-Apart a b v s (inl h) = ground arith
get_32-put_16-Apart a b v s (inr h) = ground arith

get_32-put_32-Apart : (a b v : ℕ) (s : ℕ → ℕ) → Apart a 4 b 4 → get_32 a (put_32 b v s) ≡ get_32 a s
get_32-put_32-Apart a b v s (inl h) = ground arith
get_32-put_32-Apart a b v s (inr h) = ground arith

abbrev byte_memory : TrapMemory
byte_memory = record {
  State = ℕ → ℕ;
  get_16 = get_16;
  put_16 = put_16;
  get_32 = get_32;
  put_32 = put_32;
  get_16-put_16 = get_16-put_16;
  get_32-put_32 = get_32-put_32;
  get_16-put_32-Apart = get_16-put_32-Apart;
  get_32-put_16-Apart = get_32-put_16-Apart;
  get_32-put_32-Apart = get_32-put_32-Apart;
}

abbrev state_register : StateRegister
state_register = record {
  sr = λ r. if r.supervisor then 0x2000 else 0;
  set_supervisor_state = λ s r. record r { a7 = r.usp; usp = r.a7; supervisor = s };
}

abbrev at_trap : Regs
at_trap = record { d0 = 0x20; a7 = 0x9000; usp = 0x8000; pc = 0x7000; supervisor = false }

abbrev handlers : ℕ → Handler byte_memory
handlers n p = some (record p { regs = record p.regs { d0 = n } })

-- A handler at 0x1234 is installed for each call, and none for the trap.
abbrev installed : Processor byte_memory
installed = record {
  regs = at_trap;
  mem = put_32 0xbc 0xfe00bc (λ a. if a % 4 == 2 then 0x12 else if a % 4 == 3 then 0x34 else 0);
}

iocs_trap-ComesBack_example :
    (q : Processor byte_memory) × (iocs_trap byte_memory state_register handlers installed ≡ some q)
    × (q.regs.pc ≡ 0x1234)
    × ComesBack byte_memory state_register installed q
iocs_trap-ComesBack_example =
    iocs_trap-ComesBack byte_memory state_register handlers installed (omega arith) (omega arith)
      (omega arith) refl (omega arith)

abbrev booted : ℕ → ℕ
booted = initialize byte_memory (λ a. 0)

abbrev trapping : Processor byte_memory
trapping = record { regs = at_trap; mem = booted }

abbrev jumping : Processor byte_memory
jumping = record { regs = record at_trap { pc = get_32 ((0x20 + 0x100) * 4) booted }; mem = booted }

iocs_trap-x68k_iocs_example :
    (iocs_trap byte_memory state_register handlers trapping ≡ (
      handlers 0x20 trapping >>= λ q.
      some (record q { regs = record q.regs { pc = add32 q.regs.pc 2 } })))
    × (x68k_iocs byte_memory state_register handlers jumping ≡ (
        handlers 0x20 jumping >>= λ q. some (record q {
          regs = record q.regs { pc = get_32 q.regs.a7 q.mem; a7 = add32 q.regs.a7 4 };
        })))
iocs_trap-x68k_iocs_example =
    iocs_trap-x68k_iocs byte_memory state_register handlers 0x20 trapping jumping (λ a. 0) refl refl
      refl

-- TRAP #15 at 0x7000.
abbrev at_trap_15 : Processor byte_memory
at_trap_15 = record { regs = at_trap; mem = put_16 0x7000 0x4e4f booted }

catch_illegal_instruction-Handles_example :
    ((0xf000 ≤ get_16 0x7000 at_trap_15.mem)
      × Handles byte_memory state_register 11 0x7000 at_trap_15
          (catch_illegal_instruction byte_memory state_register 0x7000 at_trap_15))
    ⊎ ((n : ℕ) × (n < 16)
        × (get_16 0x7000 at_trap_15.mem ≡ 0x4e40 + n)
        × Handles byte_memory state_register
            (32 + n)
            0x7002
            at_trap_15
            (catch_illegal_instruction byte_memory state_register 0x7000 at_trap_15))
    ⊎ ((get_16 0x7000 at_trap_15.mem < 0x4e40
          ⊎ ((0x4e50 ≤ get_16 0x7000 at_trap_15.mem) × (get_16 0x7000 at_trap_15.mem < 0xf000)))
        × (catch_illegal_instruction byte_memory state_register 0x7000 at_trap_15 ≡ none))
catch_illegal_instruction-Handles_example =
    catch_illegal_instruction-Handles byte_memory state_register 0x7000 at_trap_15
      (record { above = omega arith; below = omega arith; word = omega arith }) (omega arith)
      (omega arith)

-- Every handler leaves the number of its call in %d0.
abbrev numbered : Call → Handler byte_memory
numbered c p = some (record p { regs = record p.regs { d0 = number c } })

install_iocs_calls-number_example :
    (t : Table byte_memory numbered) × (install_iocs_calls byte_memory numbered ≡ some t)
    × ((n : ℕ) (p : Processor byte_memory)
        → ((c : Call) × (number c ≡ n % 0x100) × (call_iocs byte_memory t n p ≡ numbered c p))
          ⊎ (((c : Call) → number c ≢ n % 0x100) × (call_iocs byte_memory t n p ≡ none)))
install_iocs_calls-number_example = install_iocs_calls-number byte_memory numbered
