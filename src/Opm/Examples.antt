-- ===== src/Opm/Examples.antt =====
-- The theorems on opmmem.cc at a device with both timers loaded.
use vx68k_v.Base.{◌<◌, ◌≡◌, true, arith, ◌==◌, if◌then◌else◌, bits}
use vx68k_v.Opm.Timers.{due_a, due_b, check_timeouts-status}
use vx68k_v.Opm.{Opm, check_timeouts}

-- Timer B runs, with its interrupt enabled, and is due from the time 1010 on.
abbrev loaded : Opm
loaded = record {
  status = 0;
  regs = λ i. if i == 0x14 then 0x0a else 0x20;
  interrupt_enabled = true;
  reg_index = 0;
  last_check_time = 1000;
  timer_a_interval = 16;
  timer_b_interval = 10;
  timer_a_start_time = 1000;
  timer_b_start_time = 1000;
}

check_timeouts-status_example :
    let u = (check_timeouts 1020 loaded).0 in
    (bits u.status 1 1 ≡ (if due_a 1020 loaded then 1 else 0))
    × (bits u.status 0 1 ≡ (if due_b 1020 loaded then 1 else 0))
    × (u.status < 4)
    × (u.last_check_time ≡ 1020)
check_timeouts-status_example = check_timeouts-status 1020 loaded (omega arith)
