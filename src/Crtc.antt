-- ===== src/Crtc.antt =====
-- libvx68k/crtcmem.cc: `crtc_memory`, the register that the device answers and the counter that
-- divides the vertical display period into VDISP interrupts.
mod Examples
pub mod Vdisp
use vx68k_v.Base.{
  ℕ, ◌+◌, ◌-◌, ◌*◌, ◌/◌, ◌%◌, ◌^◌, Bool, true, false, Option, none, some, ◌==◌, leb, not,
  if◌then◌else◌, word_32, add32, sub32,
}

pub record Crtc : Type 0 where
  pub vdisp_interval : ℕ
  pub vdisp_start_time : ℕ
  pub vdisp_counter_data : ℕ
  pub vdisp_counter_value : ℕ

-- A call of `context::interrupt`: the level and the vector.
pub data Interrupt : Type 0 where
  interrupt : (level vector : ℕ) → Interrupt

-- The constructor, which leaves the start time and the counter as they are.
unfoldable pub init : (start_time counter_value : ℕ) → Crtc
init start_time counter_value = record {
  vdisp_interval = 1000 / 55;
  vdisp_start_time = start_time;
  vdisp_counter_data = 0;
  vdisp_counter_value = counter_value;
}

unfoldable pub reset : ℕ → Crtc → Crtc
reset t s = record s { vdisp_start_time = t }

abbrev pub vdisp_interrupt_enabled : Crtc → Bool
vdisp_interrupt_enabled s = not (s.vdisp_counter_data == 0)

unfoldable pub check_timeouts : ℕ → Crtc → Crtc × Option Interrupt
check_timeouts t s =
    let start : ℕ = add32 s.vdisp_start_time s.vdisp_interval in
    let value : ℕ = sub32 s.vdisp_counter_value 1 in
    if leb s.vdisp_interval (sub32 t s.vdisp_start_time)
    then if vdisp_interrupt_enabled s
      then if value == 0
        then (
          record s { vdisp_start_time = start; vdisp_counter_value = s.vdisp_counter_data },
          some (interrupt 6 0x4d),
        )
        else (record s { vdisp_start_time = start; vdisp_counter_value = value }, none)
      else (record s { vdisp_start_time = start }, none)
    else (s, none)

unfoldable pub set_vdisp_counter_data : ℕ → Crtc → Crtc
set_vdisp_counter_data value s =
    if not (value == 0)
    then record s { vdisp_counter_data = value; vdisp_counter_value = value }
    else record s { vdisp_counter_data = value }

unfoldable pub get_16 : ℕ → ℕ
get_16 address = if address % 0x2000 == 0x28 then 0x417 else 0

unfoldable pub get_8 : ℕ → ℕ
unfolding get_16
get_8 address =
    let w : ℕ = get_16 (address / 2 * 2) in
    if not (address % 2 == 0) then w / 256 % 256 else w % 256

-- `iocs_vdispst` of systemrom.cc, for the value `count` of `byte_size::get(c.regs.d[1])`: what it
-- leaves in %d0, and the long word that it puts in the vector table.
unfoldable pub iocs_vdispst : (address count : ℕ) → Crtc → ℕ × Crtc × Option (ℕ × ℕ)
unfolding set_vdisp_counter_data
iocs_vdispst address count s =
    let n : ℕ = if count == 0 then 0x100 else count in
    if address == 0
    then (0, set_vdisp_counter_data 0 s, none)
    else if vdisp_interrupt_enabled s
    then (1, s, none)
    else (0, set_vdisp_counter_data n s, some (0x4d * 4, address))
