-- ===== src/Clock.antt =====
-- libvx68k/systemrom.cc: the IOCS calls on the date and the time, in packed BCD, in binary and as
-- text.
mod Examples
pub mod Calendar
pub mod Text
use vx68k_v.Base.{
  ℕ, ◌+◌, ◌-◌, ◌*◌, ◌/◌, ◌%◌, ◌^◌, Bool, true, false, List, [], ◌∷◌, ◌++◌, ◌==◌, ltb, leb, length,
  if◌then◌else◌, bits, word_32, add32,
}
use vx68k_v.Base.Bus.{Result, ok, out_of_bounds}

-- The fields of the C library's `struct tm` that the calls read.
pub record Tm : Type 0 where
  pub tm_sec : ℕ
  pub tm_min : ℕ
  pub tm_hour : ℕ
  pub tm_mday : ℕ
  pub tm_mon : ℕ
  pub tm_year : ℕ
  pub tm_wday : ℕ

-- x << 8 of `unsigned int`.
abbrev shl_8 : ℕ → ℕ
shl_8 x = x * 256 % word_32

-- The long words that the calls leave in %d0.
unfoldable pub iocs_datebin : ℕ → ℕ
iocs_datebin d1 =
    let mday : ℕ = bits d1 0 8 in
    let mon : ℕ = bits d1 8 8 in
    let year : ℕ = bits d1 16 8 in
    let wday : ℕ = bits d1 24 8 in
    shl_8 (shl_8 (shl_8 wday + year - year / 16 * 6) + mon - mon / 16 * 6) + mday - mday / 16 * 6

unfoldable pub iocs_dateget : Tm → ℕ
iocs_dateget lt =
    let mday : ℕ = lt.tm_mday in
    let mon : ℕ = lt.tm_mon + 1 in
    let year : ℕ = lt.tm_year % 100 in
    let wday : ℕ = lt.tm_wday in
    shl_8 (shl_8 (shl_8 wday + year + year / 10 * 6) + mon + mon / 10 * 6) + mday + mday / 10 * 6

unfoldable pub iocs_timebin : ℕ → ℕ
iocs_timebin d1 =
    let sec : ℕ = bits d1 0 8 in
    let min : ℕ = bits d1 8 8 in
    let hour : ℕ = bits d1 16 8 in
    shl_8 (shl_8 (hour - hour / 16 * 6) + min - min / 16 * 6) + sec - sec / 16 * 6

unfoldable pub iocs_timeget : Tm → ℕ
iocs_timeget lt =
    let sec : ℕ = lt.tm_sec in
    let min : ℕ = lt.tm_min in
    let hour : ℕ = lt.tm_hour in
    shl_8 (shl_8 (hour + hour / 10 * 6) + min + min / 10 * 6) + sec + sec / 10 * 6

-- The digits of `%02u` for a field below 1000, and of `%04u` for one below 10000.
abbrev digit : ℕ → ℕ
digit n = 0x30 + n % 10

abbrev pub u02 : ℕ → List ℕ
u02 n =
    if ltb n 100
    then digit (n / 10) ∷ digit n ∷ []
    else digit (n / 100) ∷ digit (n / 10) ∷ digit n ∷ []

abbrev pub u04 : ℕ → List ℕ
u04 n = digit (n / 1000) ∷ digit (n / 100) ∷ digit (n / 10) ∷ digit n ∷ []

-- The text that `sprintf` leaves in an array of `size` characters, without the terminating NUL.
abbrev pub printed : (size : ℕ) → List ℕ → Result (List ℕ)
printed size text = if ltb (length text) size then ok text else out_of_bounds

-- The text of `_DATEASC`, which goes to the address in %a1 with a NUL behind it.
unfoldable pub iocs_dateasc : ℕ → Result (List ℕ)
iocs_dateasc d1 =
    let mday : ℕ = bits d1 0 8 in
    let mon : ℕ = bits d1 8 8 in
    let year : ℕ = bits d1 16 12 in
    let format : ℕ = bits d1 28 4 in
    if format % 4 == 0
    then printed 11 (u04 year ++ (0x2f ∷ u02 mon) ++ (0x2f ∷ u02 mday))
    else if format % 4 == 1
    then printed 11 (u04 year ++ (0x2d ∷ u02 mon) ++ (0x2d ∷ u02 mday))
    else if format % 4 == 2
    then printed 11 (u02 (year % 100) ++ (0x2f ∷ u02 mon) ++ (0x2f ∷ u02 mday))
    else printed 11 (u02 (year % 100) ++ (0x2d ∷ u02 mon) ++ (0x2d ∷ u02 mday))

unfoldable pub iocs_timeasc : ℕ → Result (List ℕ)
iocs_timeasc d1 =
    let sec : ℕ = bits d1 0 8 in
    let min : ℕ = bits d1 8 8 in
    let hour : ℕ = bits d1 16 8 in printed 9 (u02 hour ++ (0x3a ∷ u02 min) ++ (0x3a ∷ u02 sec))
