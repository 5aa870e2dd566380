-- ===== src/Opm/Timers.antt =====
-- The timers of opmmem.cc and their interrupts.
use vx68k_v.Base.{
  ℕ, ◌≤◌, ◌<◌, ◌≡◌, ◌∙◌, refl, Bool, true, false, some, ◌&&◌, add32, arith, ◌==◌, leb,
  if◌then◌else◌, bits, word_32, sub32,
}
use vx68k_v.Crtc.{interrupt}
use vx68k_v.Opm.{Opm, check_timer_a, check_timer_b, check_timeouts}

-- A timer that is enabled by its bit of the control register and whose interval has passed.
abbrev pub timer_due : (enabled interval t start : ℕ) → Bool
timer_due enabled interval t start = (enabled == 1) && leb interval (sub32 t start)

abbrev pub due_a : ℕ → Opm → Bool
due_a t s = timer_due (bits (s.regs 0x14) 0 1) s.timer_a_interval t s.timer_a_start_time

abbrev pub due_b : ℕ → Opm → Bool
due_b t s = timer_due (bits (s.regs 0x14) 1 1) s.timer_b_interval t s.timer_b_start_time

check_timer_a-flags :
    (t tcr : ℕ) (s : Opm)
    → s.status < 4
    → let u = check_timer_a t tcr s in
      (bits u.status 1 1 ≡ (
        if timer_due (bits tcr 0 1) s.timer_a_interval t s.timer_a_start_time
        then 1
        else bits s.status 1 1))
      × (bits u.status 0 1 ≡ bits s.status 0 1)
      × (u.status < 4)
unfolding check_timer_a
check_timer_a-flags t tcr s h = ground arith

check_timer_b-flags :
    (t tcr : ℕ) (s : Opm)
    → s.status < 4
    → let u = check_timer_b t tcr s in
      (bits u.status 0 1 ≡ (
        if timer_due (bits tcr 1 1) s.timer_b_interval t s.timer_b_start_time
        then 1
        else bits s.status 0 1))
      × (bits u.status 1 1 ≡ bits s.status 1 1)
      × (u.status < 4)
unfolding check_timer_b
check_timer_b-flags t tcr s h = ground arith

-- Neither timer changes the time of the check, and that of timer A leaves those of timer B.
check_timer_a-times :
    (t tcr : ℕ) (s : Opm)
    → let u = check_timer_a t tcr s in
      (u.timer_b_interval ≡ s.timer_b_interval)
      × (u.timer_b_start_time ≡ s.timer_b_start_time)
      × (u.last_check_time ≡ s.last_check_time)
unfolding check_timer_a
check_timer_a-times t tcr s = ground arith

check_timer_b-last :
    (t tcr : ℕ) (s : Opm) → (check_timer_b t tcr s).last_check_time ≡ s.last_check_time
unfolding check_timer_b
check_timer_b-last t tcr s = ground arith

-- From a status of two bits a check sets the overflow flag of each timer that is due, and clears none.
pub check_timeouts-status :
    (t : ℕ) (s : Opm)
    → s.status < 4
    → let u = (check_timeouts t s).0 in
      (bits u.status 1 1 ≡ (if due_a t s then 1 else bits s.status 1 1))
      × (bits u.status 0 1 ≡ (if due_b t s then 1 else bits s.status 0 1))
      × (u.status < 4)
      × (u.last_check_time ≡ t)
unfolding check_timeouts
check_timeouts-status t s h =
    let tcr : ℕ = s.regs 0x14 in
    let v : Opm = record s { last_check_time = t } in
    let (a₁, a₀, small) = check_timer_a-flags t tcr v h in
    let (b₀, b₁, small') = check_timer_b-flags t tcr (check_timer_a t tcr v) small in
    let (interval, start, last) = check_timer_a-times t tcr v in
    (
      b₁ ∙ a₁,
      b₀ ∙ rw (interval, start, a₀) refl,
      small',
      check_timer_b-last t tcr (check_timer_a t tcr v) ∙ last,
    )

-- A check that finds timer B due and timer A not due advances the start of timer A, by the interval of timer B, and
-- leaves the start of timer B: the timer stays due at every later check within the 32-bit range.
check_timeouts-timer_b :
    (t later : ℕ) (s : Opm)
    → due_a t s ≡ false
    → due_b t s ≡ true
    → s.timer_b_start_time ≤ t
    → t ≤ later
    → later < word_32
    → let u = (check_timeouts t s).0 in
      (u.timer_a_start_time ≡ add32 s.timer_a_start_time s.timer_b_interval)
      × (u.timer_b_start_time ≡ s.timer_b_start_time)
      × (due_b later u ≡ true)
unfolding check_timeouts check_timer_a check_timer_b
check_timeouts-timer_b t later s na b h₀ h₁ h₂ = rw (na, b) (refl, refl, ground (arith, b))

-- With interrupts and the interrupt of timer B enabled and a status of two bits, a check at which no timer is due raises the
-- interrupt: the flags that were set are computed as status - ~old_status, which is odd when
-- nothing changes.
pub check_timeouts-spurious :
    (t : ℕ) (s : Opm)
    → s.status < 4
    → s.interrupt_enabled ≡ true
    → bits (s.regs 0x14) 3 1 ≡ 1
    → due_a t s ≡ false
    → due_b t s ≡ false
    → (check_timeouts t s).1 ≡ some (interrupt 6 0x43)
unfolding check_timeouts check_timer_a check_timer_b
check_timeouts-spurious t s small e h na nb = ground arith
