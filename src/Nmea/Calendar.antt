-- ===== src/Nmea/Calendar.antt =====
-- The calendar of Python's `datetime`, as far as `extract_timestamp` uses it: which dates there
-- are, and the UNIX second of one.
use ais_server.Prelude.{
  ℕ, zero, suc, ◌+◌, ◌-◌, ◌*◌, ◌/◌, ◌%◌, ◌≡◌, refl, Bool, ◌&&◌, ◌||◌, not, Option, none, some, leb,
  nat_eqb, if◌then◌else◌,
}

abbrev pub is_leap : ℕ → Bool
is_leap year = nat_eqb (year % 4) 0 && (not (nat_eqb (year % 100) 0) || nat_eqb (year % 400) 0)

abbrev pub leap_day : ℕ → ℕ
leap_day year = if is_leap year then 1 else 0

unfoldable pub days_in_month : ℕ → ℕ → ℕ
days_in_month year month =
    if nat_eqb month 2
    then 28 + leap_day year
    else if nat_eqb month 4 || nat_eqb month 6 || nat_eqb month 9 || nat_eqb month 11
    then 30
    else 31

unfoldable pub days_before_year : ℕ → ℕ
days_before_year year = let y = year - 1 in y * 365 + y / 4 - y / 100 + y / 400

-- The days of the first `months` months.
unfoldable pub days_of_months : ℕ → ℕ → ℕ
unfolding days_in_month
days_of_months year zero = 0
days_of_months year (suc months) = days_of_months year months + days_in_month year (suc months)

-- `date.toordinal()`
unfoldable pub toordinal : ℕ → ℕ → ℕ → ℕ
unfolding days_before_year days_of_months
toordinal year month day = days_before_year year + days_of_months year (month - 1) + day

-- `datetime(…, tzinfo=timezone.utc).timestamp()` from 1970 on; the constructor raises `ValueError`
-- for a year after 9999 and for a day that the month does not have.
unfoldable pub datetime : ℕ → ℕ → ℕ → ℕ → ℕ → ℕ → Option ℕ
unfolding days_in_month toordinal
datetime year month day hour minute second =
    if leb year 9999 && leb day (days_in_month year month)
    then some ((toordinal year month day - 719163) * 86400 + hour * 3600 + minute * 60 + second)
    else none

epoch : datetime 1970 1 1 0 0 0 ≡ some 0
unfolding datetime
epoch = refl

leap_second_day : datetime 2024 2 29 12 30 15 ≡ some 1709209815
unfolding datetime
leap_second_day = refl

no_such_day : datetime 2023 2 29 0 0 0 ≡ none
unfolding datetime
no_such_day = refl
