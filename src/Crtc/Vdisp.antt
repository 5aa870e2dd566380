-- ===== src/Crtc/Vdisp.antt =====
-- The VDISP interrupts of crtcmem.cc over sequences of calls of `check_timeouts`.
use vx68k_v.Base.{
  ℕ, ◌+◌, ◌-◌, ◌*◌, ◌≤◌, ◌<◌, ◌≡◌, ◌≢◌, ◌∙◌, refl, sym, ap, inl, inr, Bool, false, List, [], ◌∷◌,
  Option, none, some, arith, ◌==◌, ==-false, leb, Bool-cases, if◌then◌else◌, word_32, add32, sub32,
}
use vx68k_v.Crtc.{Crtc, Interrupt, check_timeouts, set_vdisp_counter_data, iocs_vdispst}

-- The counter of a device with interrupts enabled counts down from its reload value.
pub record Counting (s : Crtc) : Type 0 where
  pub reload : (1 ≤ s.vdisp_counter_data) × (s.vdisp_counter_data < word_32)
  pub value : (1 ≤ s.vdisp_counter_value) × (s.vdisp_counter_value ≤ s.vdisp_counter_data)
  pub interval : (1 ≤ s.vdisp_interval) × (s.vdisp_interval < word_32)
  pub start : s.vdisp_start_time < word_32

-- A period has passed at time `t`.
abbrev pub is_due : ℕ → Crtc → Bool
is_due t s = leb s.vdisp_interval (sub32 t s.vdisp_start_time)

abbrev pub raised : Option Interrupt → ℕ
raised none = 0
raised (some i) = 1

-- The device after checks at the times `ts`, the periods that passed, and the interrupts raised.
abbrev pub checks : (ts : List ℕ) → Crtc → Crtc × ℕ × ℕ
checks [] s = (s, 0, 0)
checks (t ∷ ts) s =
    let (u, i) = check_timeouts t s in
    let (v, periods, interrupts) = checks ts u in
    (v, (if is_due t s then 1 else 0) + periods, raised i + interrupts)

-- Setting a reload value other than 0 starts the counter at it.
set_vdisp_counter_data-Counting :
    (value : ℕ) (s : Crtc)
    → 1 ≤ value
    → value < word_32
    → (1 ≤ s.vdisp_interval) × (s.vdisp_interval < word_32)
    → s.vdisp_start_time < word_32
    → Counting (set_vdisp_counter_data value s)
unfolding set_vdisp_counter_data
set_vdisp_counter_data-Counting value s low high i t =
    rw (==-false value 0 (omega arith))
      (record { reload = (low, high); value = (low, omega arith); interval = i; start = t })

set_vdisp_counter_data-fields :
    (n : ℕ) (s : Crtc)
    → 1 ≤ n
    → let u = set_vdisp_counter_data n s in (u.vdisp_counter_data ≡ n) × (u.vdisp_counter_value ≡ n)
unfolding set_vdisp_counter_data
set_vdisp_counter_data-fields n s h = rw (==-false n 0 (omega arith)) (refl, refl)

-- One check keeps the counter within its bounds, and counts one period against one reload.
check_timeouts-step :
    (t : ℕ) (s : Crtc)
    → Counting s
    → let (u, i) = check_timeouts t s in
      Counting u
      × (u.vdisp_counter_data ≡ s.vdisp_counter_data)
      × (u.vdisp_counter_value + (if is_due t s then 1 else 0)
          ≡ s.vdisp_counter_value + raised i * s.vdisp_counter_data)
unfolding check_timeouts
check_timeouts-step t s c = elim (Bool-cases (is_due t s)) [
  | inl due ↦ elim (Bool-cases (sub32 s.vdisp_counter_value 1 == 0)) [
    | inl last ↦
        rw (due, ==-false s.vdisp_counter_data 0 (omega (arith, c.reload)), last)
          (
            record {
              reload = c.reload;
              value = (omega (arith, c.reload), omega arith);
              interval = c.interval;
              start = omega arith;
            },
            refl,
            ground (arith, c.value, c.reload),
          )
    | inr more ↦
        rw (due, ==-false s.vdisp_counter_data 0 (omega (arith, c.reload)), more)
          (
            record {
              reload = c.reload;
              value = (ground (arith, c.value, c.reload), ground (arith, c.value, c.reload));
              interval = c.interval;
              start = omega arith;
            },
            refl,
            ground (arith, c.value, c.reload),
          )
  ]
  | inr early ↦ rw early (c, refl, omega arith)
]

checks-count :
    (ts : List ℕ) (s : Crtc)
    → Counting s
    → let (u, periods, interrupts) = checks ts s in
      Counting u
      × (u.vdisp_counter_data ≡ s.vdisp_counter_data)
      × (u.vdisp_counter_value + periods
          ≡ s.vdisp_counter_value + interrupts * s.vdisp_counter_data)
checks-count [] s c = (c, refl, omega arith)
checks-count (t ∷ ts) s c =
    let (u, i) = check_timeouts t s in
    let (c', d, e) = check_timeouts-step t s c in
    let (c'', d', e') = checks-count ts u c' in
    let more : ℕ = (checks ts u).2 in
    let reload : more * u.vdisp_counter_data ≡ more * s.vdisp_counter_data = ap (λ n. more * n) d in
    (c'', d' ∙ d, omega (arith, e, e', reload))

checks-counted :
    (ts : List ℕ) (n : ℕ) (s : Crtc)
    → (1 ≤ n) × (n < word_32)
    → (1 ≤ s.vdisp_interval) × (s.vdisp_interval < word_32)
    → s.vdisp_start_time < word_32
    → let (u, periods, interrupts) = checks ts (set_vdisp_counter_data n s) in
      (interrupts * n ≤ periods)
      × (periods < interrupts * n + n)
      × (1 ≤ u.vdisp_counter_value)
      × (u.vdisp_counter_value ≤ n)
checks-counted ts n s h i t =
    let s' : Crtc = set_vdisp_counter_data n s in
    let (reload_n, value_n) = set_vdisp_counter_data-fields n s h.0 in
    let (c, same, e) = checks-count ts s' (set_vdisp_counter_data-Counting n s h.0 h.1 i t) in
    let reload = ap (λ m. (checks ts s').2 * m) reload_n in
    (
      omega (arith, c.value, same, reload_n, value_n, e, reload),
      omega (arith, c.value, same, reload_n, value_n, e, reload),
      c.value.0,
      omega (arith, c.value, same, reload_n),
    )

-- The time since the start of the current period.
abbrev pub lag : ℕ → Crtc → ℕ
lag t s = sub32 t s.vdisp_start_time

-- The time goes on by the steps, and is read at the end of each, modulo 2^32.
abbrev pub times : (t : ℕ) → List ℕ → List ℕ
times t [] = []
times t (d ∷ ds) = add32 t d ∷ times (add32 t d) ds

abbrev pub total : List ℕ → ℕ
total [] = 0
total (d ∷ ds) = d + total ds

-- Each step is at most `most`.
abbrev pub AreSteps : (most : ℕ) → List ℕ → Type 0
AreSteps most [] = Unit {0}
AreSteps most (d ∷ ds) = (d ≤ most) × AreSteps most ds

-- The time is less than one period behind.
pub record Current (t : ℕ) (s : Crtc) : Type 0 where
  pub start : s.vdisp_start_time < word_32
  pub time : t < word_32
  pub short : 2 * s.vdisp_interval ≤ word_32
  pub recent : lag t s < s.vdisp_interval

check_timeouts-Current :
    (t d : ℕ) (s : Crtc)
    → Current t s
    → d ≤ s.vdisp_interval
    → let u = (check_timeouts (add32 t d) s).0 in
      Current (add32 t d) u
      × (u.vdisp_interval ≡ s.vdisp_interval)
      × (lag (add32 t d) u + (if is_due (add32 t d) s then 1 else 0) * s.vdisp_interval
          ≡ lag t s + d)
unfolding check_timeouts
check_timeouts-Current t d s c h = (
  record {
    start = ground (arith, c.start);
    time = omega arith;
    short = ground (arith, c.short);
    recent = ground (arith, c.start, c.time, c.short, c.recent, h);
  },
  ground arith,
  ground (arith, c.start, c.time, c.short, c.recent, h),
)

distribute : (a b c : ℕ) → (a + b) * c ≡ a * c + b * c
distribute a b c = grind arith

scale : (a b c : ℕ) → a ≤ b → a * c ≤ b * c
scale a b c h =
    let e : a + (b - a) ≡ b = omega (arith, h) in
    let d : b * c ≡ a * c + (b - a) * c = ap (λ k. k * c) (sym e) ∙ distribute a (b - a) c in
    omega (arith, d)

-- The periods that are found due are those that the time has gone through.
checks-elapsed :
    (ds : List ℕ) (t : ℕ) (s : Crtc)
    → Current t s
    → AreSteps s.vdisp_interval ds
    → let periods : ℕ = (checks (times t ds) s).1 in
      (periods * s.vdisp_interval ≤ lag t s + total ds)
      × (lag t s + total ds < periods * s.vdisp_interval + s.vdisp_interval)
checks-elapsed [] t s c a = (omega arith, omega (arith, c.recent))
checks-elapsed (d ∷ ds) t s c a =
    let u : Crtc = (check_timeouts (add32 t d) s).0 in
    let (c', same, step) = check_timeouts-Current t d s c a.0 in
    let rest : ℕ = (checks (times (add32 t d) ds) u).1 in
    let steps : AreSteps u.vdisp_interval ds = rw same (a.1) in
    let (low, high) = checks-elapsed ds (add32 t d) u c' steps in
    let one : ℕ = if is_due (add32 t d) s then 1 else 0 in
    let sum : (one + rest) * s.vdisp_interval ≡ one * s.vdisp_interval + rest * u.vdisp_interval =
      distribute one rest s.vdisp_interval
      ∙ ap (λ i. one * s.vdisp_interval + rest * i) (sym same) in
    (omega (arith, sum, step, low), omega (arith, sum, step, high, same))

-- On a device with the reload value set to n, from 1 to 2^32 - 1, a period of at least 1 ms and at most
-- 2^31 ms, and a start time less than one period before the time `t`, of 32 bits: checks at any steps
-- of at most one period raise one interrupt for each n periods of time. The periods are counted by
-- the time alone: the time of the steps, from the start of the first period on, divided by the
-- period. The counter stays from 1 to n.
pub checks-interrupts :
    (ds : List ℕ) (t n : ℕ) (s : Crtc)
    → (1 ≤ n) × (n < word_32)
    → 1 ≤ s.vdisp_interval
    → Current t s
    → AreSteps s.vdisp_interval ds
    → let (u, _, interrupts) = checks (times t ds) (set_vdisp_counter_data n s) in
      (interrupts * n * s.vdisp_interval ≤ lag t s + total ds)
      × (lag t s + total ds < (interrupts * n + n) * s.vdisp_interval)
      × (1 ≤ u.vdisp_counter_value)
      × (u.vdisp_counter_value ≤ n)
unfolding set_vdisp_counter_data
checks-interrupts ds t n s h i c a =
    let set : Crtc = record s { vdisp_counter_data = n; vdisp_counter_value = n } in
    let e : (n == 0) ≡ false = ==-false n 0 (omega (arith, h)) in
    let (low, high, first, last) =
      rw e at (checks-counted (times t ds) n s h (i, omega (arith, c.short, i)) c.start) in
    let periods : ℕ = (checks (times t ds) set).1 in
    let interrupts : ℕ = (checks (times t ds) set).2 in
    let now : Current t set = record {
      start = c.start;
      time = c.time;
      short = c.short;
      recent = c.recent;
    } in
    let (least, most) = checks-elapsed ds t set now a in
    rw e (
      omega (arith, least, scale (interrupts * n) periods s.vdisp_interval low),
      omega (
        arith,
        most,
        distribute periods 1 s.vdisp_interval,
        scale (periods + 1) (interrupts * n + n) s.vdisp_interval (omega (arith, high)),
      ),
      first,
      last,
    )

-- `_VDISPST` with a handler and a count below 2^32 returns 0 on a device whose VDISP interrupts are
-- disabled and whose period is at least 1 ms, sets the vector 0x4d, and enables them so that one is raised for each `count` periods, or
-- each 256 periods for a count of 0.
iocs_vdispst-interrupts :
    (ts : List ℕ) (address count : ℕ) (s : Crtc)
    → address ≢ 0
    → count < word_32
    → s.vdisp_counter_data ≡ 0
    → (1 ≤ s.vdisp_interval) × (s.vdisp_interval < word_32)
    → s.vdisp_start_time < word_32
    → let n : ℕ = if count == 0 then 256 else count in
      let (d0, u, vector) = iocs_vdispst address count s in
      let (v, periods, interrupts) = checks ts u in
      (d0 ≡ 0)
      × (vector ≡ some (0x4d * 4, address))
      × (interrupts * n ≤ periods)
      × (periods < interrupts * n + n)
unfolding iocs_vdispst
iocs_vdispst-interrupts ts address count s ne small off i t =
    let n : ℕ = if count == 0 then 256 else count in
    let (low, high, _, _) = checks-counted ts n s (ground arith, ground arith) i t in
    rw (==-false address 0 ne, off) (refl, refl, low, high)
