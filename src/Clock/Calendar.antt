-- ===== src/Clock/Calendar.antt =====
-- The packed BCD of the date and the time of systemrom.cc against their binary form.
use vx68k_v.Base.{ℕ, ◌+◌, ◌*◌, ◌/◌, ◌%◌, ◌≤◌, ◌≡◌, ◌∙◌, arith, bits, bits-bytes}
use vx68k_v.Clock.{Tm, iocs_datebin, iocs_dateget, iocs_timebin, iocs_timeget}

-- The ranges that the C library documents for the fields.
pub record IsTm (lt : Tm) : Type 0 where
  pub sec : lt.tm_sec ≤ 60
  pub min : lt.tm_min ≤ 59
  pub hour : lt.tm_hour ≤ 23
  pub mday : (1 ≤ lt.tm_mday) × (lt.tm_mday ≤ 31)
  pub mon : lt.tm_mon ≤ 11
  pub wday : lt.tm_wday ≤ 6

-- A byte of two decimal digits.
abbrev pub IsBcd : ℕ → Type 0
IsBcd b = (b % 16 ≤ 9) × (b / 16 ≤ 9)

abbrev pub bcd : ℕ → ℕ
bcd n = n / 10 * 16 + n % 10

dateget-fields :
    (lt : Tm)
    → IsTm lt
    → iocs_dateget lt
      ≡ lt.tm_wday * 16777216
        + bcd (lt.tm_year % 100) * 65536
        + bcd (lt.tm_mon + 1) * 256
        + bcd lt.tm_mday
unfolding iocs_dateget
dateget-fields lt v = omega (arith, v.mday, v.mon, v.wday)

timeget-fields :
    (lt : Tm)
    → IsTm lt
    → iocs_timeget lt ≡ 0 * 16777216 + bcd lt.tm_hour * 65536 + bcd lt.tm_min * 256 + bcd lt.tm_sec
unfolding iocs_timeget
timeget-fields lt v = omega (arith, v.hour, v.min, v.sec)

abbrev pub decimal : ℕ → ℕ
decimal b = b / 16 * 10 + b % 16

datebin-fields :
    (d1 : ℕ)
    → iocs_datebin d1
      ≡ bits d1 24 8 * 16777216
        + decimal (bits d1 16 8) * 65536
        + decimal (bits d1 8 8) * 256
        + decimal (bits d1 0 8)
unfolding iocs_datebin
datebin-fields d1 = omega arith

timebin-fields :
    (d1 : ℕ)
    → iocs_timebin d1
      ≡ decimal (bits d1 16 8) * 65536 + decimal (bits d1 8 8) * 256 + decimal (bits d1 0 8)
unfolding iocs_timebin
timebin-fields d1 = omega arith

-- The bytes of what `_DATEGET` and `_TIMEGET` leave.
date-bytes :
    (lt : Tm)
    → IsTm lt
    → let n : ℕ = iocs_dateget lt in
      (bits n 24 8 ≡ lt.tm_wday)
      × (bits n 16 8 ≡ bcd (lt.tm_year % 100))
      × (bits n 8 8 ≡ bcd (lt.tm_mon + 1))
      × (bits n 0 8 ≡ bcd lt.tm_mday)
date-bytes lt v =
    let (w, y, m, d, _) =
      bits-bytes lt.tm_wday (bcd (lt.tm_year % 100)) (bcd (lt.tm_mon + 1)) (bcd lt.tm_mday)
        (omega (arith, v.wday)) (omega arith) (omega (arith, v.mon)) (omega (arith, v.mday)) in
    rw (dateget-fields lt v) (w, y, m, d)

time-bytes :
    (lt : Tm)
    → IsTm lt
    → let n : ℕ = iocs_timeget lt in
      (bits n 24 8 ≡ 0)
      × (bits n 16 8 ≡ bcd lt.tm_hour)
      × (bits n 8 8 ≡ bcd lt.tm_min)
      × (bits n 0 8 ≡ bcd lt.tm_sec)
time-bytes lt v =
    let (z, h, m, s, _) =
      bits-bytes 0 (bcd lt.tm_hour) (bcd lt.tm_min) (bcd lt.tm_sec) (omega arith)
        (omega (arith, v.hour)) (omega (arith, v.min)) (omega (arith, v.sec)) in
    rw (timeget-fields lt v) (z, h, m, s)

-- With the fields of `struct tm` in the ranges of the C library, `_DATEBIN` of what `_DATEGET` leaves holds the day of the week, the year modulo 100, the month
-- from 1 and the day of the month, a byte each, and likewise for `_TIMEBIN` of `_TIMEGET`, with the
-- hour, the minute and the second.
pub datebin-dateget :
    (lt : Tm)
    → IsTm lt
    → (iocs_datebin (iocs_dateget lt)
        ≡ lt.tm_wday * 16777216 + lt.tm_year % 100 * 65536 + (lt.tm_mon + 1) * 256 + lt.tm_mday)
      × (iocs_timebin (iocs_timeget lt) ≡ lt.tm_hour * 65536 + lt.tm_min * 256 + lt.tm_sec)
datebin-dateget lt v =
    let (w, y, m, d) = date-bytes lt v in
    let (z, h, n, s) = time-bytes lt v in
    (
      datebin-fields (iocs_dateget lt) ∙ rw (w, y, m, d) (omega arith),
      timebin-fields (iocs_timeget lt) ∙ rw (h, n, s) (omega arith),
    )

-- Every byte of what `_DATEGET` and `_TIMEGET` leave is two decimal digits.
pub dateget-IsBcd :
    (lt : Tm)
    → IsTm lt
    → let d : ℕ = iocs_dateget lt in
      let t : ℕ = iocs_timeget lt in
      IsBcd (bits d 0 8)
      × IsBcd (bits d 8 8)
      × IsBcd (bits d 16 8)
      × IsBcd (bits d 24 8)
      × IsBcd (bits t 0 8)
      × IsBcd (bits t 8 8)
      × IsBcd (bits t 16 8)
      × (bits t 24 8 ≡ 0)
dateget-IsBcd lt v =
    let (w, y, m, d) = date-bytes lt v in
    let (z, h, n, s) = time-bytes lt v in
    rw (w, y, m, d, z, h, n, s) (ground (arith, v.sec, v.min, v.hour, v.mday, v.mon, v.wday))
