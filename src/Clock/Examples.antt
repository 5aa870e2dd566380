-- ===== src/Clock/Examples.antt =====
-- The theorems on the date and the time of systemrom.cc at one moment.
use vx68k_v.Base.{◌≡◌, inr, arith, length}
use vx68k_v.Base.Bus.{out_of_bounds}
use vx68k_v.Clock.Calendar.{IsTm, datebin-dateget}
use vx68k_v.Clock.Text.{Returns, dateasc-fits, timeasc-overflows}
use vx68k_v.Clock.{
  Tm, iocs_datebin, iocs_dateget, iocs_timebin, iocs_timeget, iocs_dateasc, iocs_timeasc,
}

-- Wednesday, 27 December 2000, 23:59:08.
abbrev moment : Tm
moment = record {
  tm_sec = 8;
  tm_min = 59;
  tm_hour = 23;
  tm_mday = 27;
  tm_mon = 11;
  tm_year = 100;
  tm_wday = 3;
}

moment-IsTm : IsTm moment
moment-IsTm = record {
  sec = omega arith;
  min = omega arith;
  hour = omega arith;
  mday = (omega arith, omega arith);
  mon = omega arith;
  wday = omega arith;
}

datebin-dateget_example :
    (iocs_datebin (iocs_dateget moment) ≡ 0x03000c1b)
    × (iocs_timebin (iocs_timeget moment) ≡ 0x173b08)
datebin-dateget_example = datebin-dateget moment moment-IsTm

dateasc-fits_example : Returns (λ text. length text ≡ 8) (iocs_dateasc 0x27d00c1b)
dateasc-fits_example = dateasc-fits 0x27d00c1b (omega arith) (omega arith)

timeasc-overflows_example : iocs_timeasc 0xc80000 ≡ out_of_bounds
timeasc-overflows_example = timeasc-overflows 0xc80000 (inr (inr (omega arith)))
