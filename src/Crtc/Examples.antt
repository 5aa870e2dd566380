-- ===== src/Crtc/Examples.antt =====
-- The theorems on crtcmem.cc at a device with a period of 18 ms that has just been reset.
use vx68k_v.Base.{ℕ, ◌+◌, ◌*◌, ◌≤◌, ◌<◌, List, [], ◌∷◌, arith}
use vx68k_v.Crtc.Vdisp.{checks, lag, times, total, checks-interrupts}
use vx68k_v.Crtc.{Crtc, set_vdisp_counter_data}

abbrev fresh : Crtc
fresh = record {
  vdisp_interval = 18;
  vdisp_start_time = 100;
  vdisp_counter_data = 0;
  vdisp_counter_value = 0;
}

-- Reads of the time at 100, 110, 118, 136, 140 and 155.
abbrev steps : List ℕ
steps = 10 ∷ 8 ∷ 18 ∷ 4 ∷ 15 ∷ []

checks-interrupts_example :
    let (u, _, interrupts) = checks (times 100 steps) (set_vdisp_counter_data 2 fresh) in
    (interrupts * 2 * 18 ≤ lag 100 fresh + total steps)
    × (lag 100 fresh + total steps < (interrupts * 2 + 2) * 18)
    × (1 ≤ u.vdisp_counter_value)
    × (u.vdisp_counter_value ≤ 2)
checks-interrupts_example =
    checks-interrupts steps 100 2 fresh (omega arith, omega arith) (omega arith)
      (record {
        start = omega arith;
        time = omega arith;
        short = omega arith;
        recent = omega arith;
      })
      (omega arith, (omega arith, (omega arith, (omega arith, (omega arith, tt)))))
