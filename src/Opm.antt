-- ===== src/Opm.antt =====
-- libvx68k/opmmem.cc: `opm_memory`, the registers of the sound chip, its two timers and their
-- interrupts.
mod Examples
pub mod Registers
pub mod Timers
use vx68k_v.Base.{
  ℕ, ◌+◌, ◌-◌, ◌*◌, ◌/◌, ◌%◌, ◌^◌, Bool, true, false, Option, none, some, ◌==◌, ◌&&◌, ◌||◌, leb,
  if◌then◌else◌, bits, word_32, add32, sub32,
}
use vx68k_v.Base.Bus.{FunctionCode, Result, ok, bus_error, reading, writing, is_super_data}
use vx68k_v.Crtc.{Interrupt, interrupt}

-- The registers are a function of their number, from 0 to 255.
pub record Opm : Type 0 where
  pub status : ℕ
  pub regs : ℕ → ℕ
  pub interrupt_enabled : Bool
  pub reg_index : ℕ
  pub last_check_time : ℕ
  pub timer_a_interval : ℕ
  pub timer_b_interval : ℕ
  pub timer_a_start_time : ℕ
  pub timer_b_start_time : ℕ

-- `x |= 1 << k` and `x &= ~(1 << k)`.
abbrev pub set_bit : (k x : ℕ) → ℕ
set_bit k x = if bits x k 1 == 0 then x + 2 ^ k else x

abbrev pub clear_bit : (k x : ℕ) → ℕ
clear_bit k x = if bits x k 1 == 0 then x else x - 2 ^ k

-- The constructor, which leaves the times as they are.
unfoldable pub init : (last a b a_start b_start : ℕ) → Opm
init last a b a_start b_start = record {
  status = 0;
  regs = λ i. 0;
  interrupt_enabled = false;
  reg_index = 0;
  last_check_time = last;
  timer_a_interval = a;
  timer_b_interval = b;
  timer_a_start_time = a_start;
  timer_b_start_time = b_start;
}

unfoldable pub reset : ℕ → Opm → Opm
reset t s = record s { last_check_time = t }

-- The two timers, at the control register `tcr`.
unfoldable pub check_timer_a : (t tcr : ℕ) → Opm → Opm
check_timer_a t tcr s =
    if (bits tcr 0 1 == 1) && leb s.timer_a_interval (sub32 t s.timer_a_start_time)
    then record s {
      status = set_bit 1 s.status;
      timer_a_start_time = add32 s.timer_a_start_time s.timer_a_interval;
    }
    else s

unfoldable pub check_timer_b : (t tcr : ℕ) → Opm → Opm
check_timer_b t tcr s =
    if (bits tcr 1 1 == 1) && leb s.timer_b_interval (sub32 t s.timer_b_start_time)
    then record s {
      status = set_bit 0 s.status;
      timer_a_start_time = add32 s.timer_a_start_time s.timer_b_interval;
    }
    else s

-- `~old_status` of an unsigned int.
abbrev pub complement : ℕ → ℕ
complement x = word_32 - 1 - x

unfoldable pub check_timeouts : ℕ → Opm → Opm × Option Interrupt
unfolding check_timer_a check_timer_b
check_timeouts t s =
    let old_status : ℕ = s.status in
    let tcr : ℕ = s.regs 0x14 in
    let u = check_timer_b t tcr (check_timer_a t tcr (record s { last_check_time = t })) in
    let set_status : ℕ = sub32 u.status (complement old_status) in
    (
      u,
      if u.interrupt_enabled
          then if ((bits tcr 2 1 == 1) && (bits set_status 1 1 == 1))
              || ((bits tcr 3 1 == 1) && (bits set_status 0 1 == 1))
            then some (interrupt 6 0x43)
            else none
          else none,
    )

-- The `switch` of `set_reg`, after the register is stored.
unfoldable pub set_timers : (regno value : ℕ) → Opm → Opm
set_timers regno value s =
    let k : ℕ = s.regs 0x10 * 4 + s.regs 0x11 % 4 in
    let after_a : ℕ = if bits value 4 1 == 1 then clear_bit 1 s.status else s.status in
    if (regno == 0x10) || (regno == 0x11)
    then record s {
      timer_a_interval = sub32 0x400 k * 64 % word_32 / 4000;
      timer_a_start_time = s.last_check_time;
    }
    else if regno == 0x12
    then record s {
      timer_b_interval = sub32 0x100 (s.regs 0x12) * 1024 % word_32 / 4000;
      timer_b_start_time = s.last_check_time;
    }
    else if regno == 0x14
    then record s { status = if bits value 5 1 == 1 then clear_bit 0 after_a else after_a }
    else s

unfoldable pub set_reg : (regno value : ℕ) → Opm → Opm
unfolding set_timers
set_reg regno value s =
    let r : ℕ = regno % 256 in
    let v : ℕ = value % 256 in
    set_timers r v (record s { regs = λ i. if i == r then v else s.regs i })

unfoldable pub set_interrupt_enabled : Bool → Opm → Opm
set_interrupt_enabled value s = record s { interrupt_enabled = value }

unfoldable pub get_8 : ℕ → FunctionCode → Opm → Result ℕ
get_8 address fc s =
    let a : ℕ = address % word_32 in
    if (a % 0x2000 == 1) || (a % 0x2000 == 3) then ok s.status else bus_error a reading fc

-- `address | 1`.
abbrev pub odd_address : ℕ → ℕ
odd_address a = a / 2 * 2 + 1

unfoldable pub get_16 : ℕ → FunctionCode → Opm → Result ℕ
unfolding get_8
get_16 address fc s = get_8 (odd_address address) fc s

unfoldable pub put_8 : (address value : ℕ) → FunctionCode → Opm → Result Opm
unfolding set_reg
put_8 address value fc s =
    let a : ℕ = address % word_32 in
    let v : ℕ = value % 256 in
    if is_super_data fc
    then if a % 0x2000 == 1
      then ok (record s { reg_index = v })
      else if a % 0x2000 == 3
      then ok (set_reg s.reg_index v s)
      else bus_error (a % 0x2000) writing fc
    else bus_error a writing fc

unfoldable pub put_16 : (address value : ℕ) → FunctionCode → Opm → Result Opm
unfolding put_8
put_16 address value fc s = put_8 (odd_address (address % word_32)) (value % 65536) fc s

-- `iocs_opmintst` of systemrom.cc: what it leaves in %d0, and the long word that it puts in the
-- vector table.
unfoldable pub iocs_opmintst : ℕ → Opm → ℕ × Opm × Option (ℕ × ℕ)
unfolding set_interrupt_enabled
iocs_opmintst address s =
    if address == 0
    then (0, set_interrupt_enabled false s, none)
    else if s.interrupt_enabled
    then (1, s, none)
    else (0, set_interrupt_enabled true s, some (0x43 * 4, address))

-- `iocs_opmset` of systemrom.cc, for the values of `byte_size::get`.
unfoldable pub iocs_opmset : (regno value : ℕ) → Opm → Opm
unfolding set_reg
iocs_opmset regno value s = set_reg regno value s
