-- ===== src/Opm/Registers.antt =====
-- The register file of opmmem.cc.
use vx68k_v.Base.{
  ℕ, ◌+◌, ◌-◌, ◌*◌, ◌/◌, ◌%◌, ◌≤◌, ◌<◌, ◌≡◌, ◌≢◌, ◌⊎◌, ◌∙◌, refl, arith, ◌==◌, ==-false, eq_self,
  if◌then◌else◌, bits, word_32,
}
use vx68k_v.Base.Bus.{super_data, Result, ok, ◌>>=◌}
use vx68k_v.Opm.{Opm, set_timers, set_reg, put_8}

abbrev pub Returns : (Opm → Type 0) → Result Opm → Type 0
Returns P r = (u : Opm) × (r ≡ ok u) × P u

-- The registers of `set_timers` stay.
set_timers-regs : (regno value i : ℕ) (s : Opm) → (set_timers regno value s).regs i ≡ s.regs i
unfolding set_timers
set_timers-regs regno value i s = ground arith

set_reg-regs :
    (regno value i : ℕ) (s : Opm)
    → (set_reg regno value s).regs i ≡ (if i == regno % 256 then value % 256 else s.regs i)
unfolding set_reg
set_reg-regs regno value i s =
    set_timers-regs (regno % 256) (value % 256) i
      (record s { regs = λ j. if j == regno % 256 then value % 256 else s.regs j })

-- A supervisor write of `r` to the address port and of `v` to the data port sets register `r` to
-- `v`, each modulo 256, and leaves every other register.
pub put_8-put_8 :
    (address₁ address₂ r v : ℕ) (s : Opm)
    → address₁ % 0x2000 ≡ 1
    → address₂ % 0x2000 ≡ 3
    → Returns
        (λ u. (u.regs (r % 256) ≡ v % 256) × ((i : ℕ) → i ≢ r % 256 → u.regs i ≡ s.regs i))
        (put_8 address₁ r super_data s >>= put_8 address₂ v super_data)
unfolding put_8
put_8-put_8 address₁ address₂ r v s h₁ h₂ =
    let index : address₁ % word_32 % 0x2000 ≡ 1 = omega (arith, h₁) in
    let port : address₂ % word_32 % 0x2000 ≡ 3 = omega (arith, h₂) in
    let same : r % 256 % 256 ≡ r % 256 = omega arith in
    let u : Opm = set_reg (r % 256) (v % 256) (record s { reg_index = r % 256 }) in
    rw (index, port)
      (
        u,
        refl,
        (
          set_reg-regs (r % 256) (v % 256) (r % 256) (record s { reg_index = r % 256 })
              ∙ rw (same, eq_self (r % 256)) (omega arith),
          λ i ne.
              set_reg-regs (r % 256) (v % 256) i (record s { reg_index = r % 256 })
              ∙ rw (same, ==-false i (r % 256) ne) refl,
        ),
      )

-- The registers hold bytes.
abbrev pub Bytes : Opm → Type 0
Bytes s = (i : ℕ) → s.regs i < 256

-- A write to a register of timer A sets its interval in milliseconds to
-- (1024 - k) * 64 / 4000, at most 16, for the 10-bit value k of the two registers, and starts the
-- timer at the last check.
pub set_reg-timer_a :
    (regno value : ℕ) (s : Opm)
    → Bytes s
    → (regno % 256 ≡ 0x10) ⊎ (regno % 256 ≡ 0x11)
    → let u = set_reg regno value s in
      let k : ℕ = u.regs 0x10 * 4 + u.regs 0x11 % 4 in
      (u.timer_a_interval ≡ (1024 - k) * 64 / 4000)
      × (k < 1024)
      × (u.timer_a_interval ≤ 16)
      × (u.timer_a_start_time ≡ s.last_check_time)
      × (u.timer_b_interval ≡ s.timer_b_interval)
      × (u.status ≡ s.status)
unfolding set_reg set_timers
set_reg-timer_a regno value s b h = ground (arith, b 0x10, b 0x11)

-- A write to the register of timer B sets its interval in milliseconds to
-- (256 - k) * 1024 / 4000, at most 65, for the value k, and starts the timer at the last check.
pub set_reg-timer_b :
    (regno value : ℕ) (s : Opm)
    → regno % 256 ≡ 0x12
    → let u = set_reg regno value s in
      let k : ℕ = value % 256 in
      (u.timer_b_interval ≡ (256 - k) * 1024 / 4000)
      × (u.timer_b_interval ≤ 65)
      × (u.timer_b_start_time ≡ s.last_check_time)
      × (u.timer_a_interval ≡ s.timer_a_interval)
      × (u.status ≡ s.status)
unfolding set_reg set_timers
set_reg-timer_b regno value s h = ground arith

-- From a status of two bits, bits 4 and 5 of the control register clear the overflow flags of timers A and B, bits 1 and 0 of
-- the status, which keep their values otherwise.
pub set_reg-status :
    (regno value : ℕ) (s : Opm)
    → regno % 256 ≡ 0x14
    → s.status < 4
    → let u = set_reg regno value s in
      (bits u.status 1 1 ≡ (if bits value 4 1 == 1 then 0 else bits s.status 1 1))
      × (bits u.status 0 1 ≡ (if bits value 5 1 == 1 then 0 else bits s.status 0 1))
      × (u.status < 4)
unfolding set_reg set_timers
set_reg-status regno value s h small = ground arith
