-- ===== src/Nmea/Clock.antt =====
-- The times of base stations are in the order of the calendar.
use ais_server.Prelude.{
  ℕ, zero, suc, ◌+◌, ◌-◌, ◌*◌, ◌≤◌, ◌<◌, ◌≡◌, refl, ap, ◌∙◌, ◌⊎◌, inl, inr, Bool, true, false, ◌||◌,
  not, Option, none, some, arith, ltb, if◌then◌else◌, ltb_false→le, length,
}
use ais_server.Prelude.Text.{Text}
use ais_server.Nmea.Calendar.{
  leap_day, days_in_month, days_before_year, days_of_months, toordinal, datetime,
}
use ais_server.Nmea.Payload.{bits, field, utc_second, is_base_station, extract_timestamp}

-- The fields of a time, most significant first, as one number. Months have up to 31 days.
abbrev pub day_key : ℕ → ℕ → ℕ → ℕ
day_key year month day = (year * 13 + month) * 32 + day

abbrev pub time_key : ℕ → ℕ → ℕ → ℕ → ℕ → ℕ → ℕ
time_key year month day hour minute second =
    ((day_key year month day * 24 + hour) * 60 + minute) * 60 + second

next_year : (y : ℕ) → 1 ≤ y → days_before_year (y + 1) ≡ days_before_year y + 365 + leap_day y
unfolding days_before_year
next_year y h = ground arith

year_days : (y : ℕ) → days_of_months y 12 ≡ 365 + leap_day y
unfolding days_of_months days_in_month
year_days y = ground arith

days_of_months_mono : (y m k : ℕ) → days_of_months y m ≤ days_of_months y (k + m)
unfolding days_of_months
days_of_months_mono y m zero = let e : 0 + m ≡ m = omega arith in rw e (omega arith)
days_of_months_mono y m (suc k) =
    let e : suc k + m ≡ suc (k + m) = omega arith in rw e (omega (arith, days_of_months_mono y m k))

days_of_months-le : (y m n : ℕ) → m ≤ n → days_of_months y m ≤ days_of_months y n
days_of_months-le y m n h =
    let e : n ≡ n - m + m = omega arith in rw e (days_of_months_mono y m (n - m))

days_before_year_mono : (y k : ℕ) → 1 ≤ y → days_before_year y ≤ days_before_year (k + y)
days_before_year_mono y zero h = let e : 0 + y ≡ y = omega arith in rw e (omega arith)
days_before_year_mono y (suc k) h =
    let e : suc k + y ≡ k + y + 1 = omega arith in
    rw e (omega (arith, days_before_year_mono y k h, next_year (k + y) (omega arith)))

days_before_year-le : (y z : ℕ) → 1 ≤ y → y ≤ z → days_before_year y ≤ days_before_year z
days_before_year-le y z h k =
    let e : z ≡ z - y + y = omega arith in rw e (days_before_year_mono y (z - y) h)

-- A date that the calendar has, of a year from 1970 on.
pub record IsDate (year month day : ℕ) : Type 0 where
  pub from_1970 : 1970 ≤ year
  pub first_month : 1 ≤ month
  pub last_month : month ≤ 12
  pub first_day : 1 ≤ day
  pub last_day : day ≤ days_in_month year month

days_in_month-le : (y m : ℕ) → days_in_month y m ≤ 31
unfolding days_in_month
days_in_month-le y m = ground arith

-- A date lies within its month.
within_month : (y m d : ℕ) → IsDate y m d → days_of_months y (m - 1) + d ≤ days_of_months y m
unfolding days_of_months
within_month y zero d v = absurd (omega (arith, v.first_month))
within_month y (suc m) d v = let e : suc m - 1 ≡ m = omega arith in rw e (omega (arith, v.last_day))

pub toordinal_mono :
    (y m d y' m' d' : ℕ)
    → IsDate y m d
    → IsDate y' m' d'
    → day_key y m d < day_key y' m' d'
    → toordinal y m d < toordinal y' m' d'
unfolding toordinal
toordinal_mono y m d y' m' d' v w h = by_year (year_cases y y')
  where
    year_cases : (a b : ℕ) → (a < b) ⊎ ((a ≡ b) ⊎ (b < a))
    year_cases a b = grind arith

    by_month : (y ≡ y') → (m < m') ⊎ ((m ≡ m') ⊎ (m' < m)) → toordinal y m d < toordinal y' m' d'
    by_month e (inl lt) = rw (← e) (
        omega
          (arith, within_month y m d v, days_of_months-le y m (m' - 1) (omega arith), w.first_day))
    by_month e (inr (inl f)) = rw (← e, ← f) (omega arith)
    by_month e (inr (inr gt)) =
        absurd (omega (arith, v.last_day, days_in_month-le y m, w.last_day, days_in_month-le y' m'))

    by_year : (y < y') ⊎ ((y ≡ y') ⊎ (y' < y)) → toordinal y m d < toordinal y' m' d'
    by_year (inl lt) = omega (
      arith,
      within_month y m d v,
      days_of_months-le y m 12 v.last_month,
      year_days y,
      next_year y (omega (arith, v.from_1970)),
      days_before_year-le (y + 1) y' (omega arith) (omega arith),
      w.first_day,
    )
    by_year (inr (inl e)) = by_month e (year_cases m m')
    by_year (inr (inr gt)) = absurd (
        omega (
          arith,
          v.last_month,
          w.last_month,
          v.last_day,
          days_in_month-le y m,
          w.last_day,
          days_in_month-le y' m',
        ))

abbrev second_of_day : ℕ → ℕ → ℕ → ℕ
second_of_day hour minute second = hour * 3600 + minute * 60 + second

-- What a returned time says of the fields.
utc_second_inv :
    (y m d h mi s t : ℕ)
    → utc_second y m d h mi s ≡ some t
    → IsDate y m d
      × (second_of_day h mi s < 86400)
      × (h < 24)
      × (mi < 60)
      × (s < 60)
      × (t ≡ (toordinal y m d - 719163) * 86400 + h * 3600 + mi * 60 + s)
unfolding datetime
utc_second_inv y m d h mi s t e = (
  record {
    from_1970 = ground arith;
    first_month = ground arith;
    last_month = ground arith;
    first_day = ground arith;
    last_day = ground arith;
  },
  ground arith,
  ground arith,
  ground arith,
  ground arith,
  ground arith,
)

from_epoch : (y m d : ℕ) → IsDate y m d → 719163 ≤ toordinal y m d
unfolding toordinal
from_epoch y m d v =
    omega (arith, days_before_year-le 1970 y (omega arith) v.from_1970, start, v.first_day)
  where
    start : days_before_year 1970 ≡ 719162
    start = unfold days_before_year in refl

same_day :
    (y m d y' m' d' : ℕ)
    → IsDate y m d
    → IsDate y' m' d'
    → day_key y m d ≡ day_key y' m' d'
    → toordinal y m d ≡ toordinal y' m' d'
same_day y m d y' m' d' v w e =
    let b = days_in_month-le y m in
    let b' = days_in_month-le y' m' in
    let ey : y ≡ y' = omega (arith, v.last_month, w.last_month, v.last_day, w.last_day) in
    let em : m ≡ m' = omega (arith, v.last_day, w.last_day) in
    let ed : d ≡ d' = omega arith in
    ap (λ x. toordinal x m d) ey ∙ ap (λ x. toordinal y' x d) em ∙ ap (toordinal y' m') ed

day_cases : (a b : ℕ) → (a < b) ⊎ ((a ≡ b) ⊎ (b < a))
day_cases a b = grind arith

-- Times with a smaller key are earlier.
pub utc_second_mono :
    (y m d h mi s y' m' d' h' mi' s' t t' : ℕ)
    → utc_second y m d h mi s ≡ some t
    → utc_second y' m' d' h' mi' s' ≡ some t'
    → time_key y m d h mi s < time_key y' m' d' h' mi' s'
    → t < t'
utc_second_mono y m d h mi s y' m' d' h' mi' s' t t' e e' k =
    let v = utc_second_inv y m d h mi s t e in
    let w = utc_second_inv y' m' d' h' mi' s' t' e' in
    let a = from_epoch y m d v.0 in
    let b = from_epoch y' m' d' w.0 in
    elim (day_cases (day_key y m d) (day_key y' m' d')) [
      | inl lt ↦ omega (arith, toordinal_mono y m d y' m' d' v.0 w.0 lt)
      | inr (inl same) ↦ omega (arith, same_day y m d y' m' d' v.0 w.0 same)
      | inr (inr gt) ↦ absurd (omega arith)
    ]

abbrev pub payload_key : Text → ℕ
payload_key payload =
    let b = bits payload in
    time_key (field b 38 52) (field b 52 56) (field b 56 61) (field b 61 66) (field b 66 72)
      (field b 72 78)

passed_guards :
    (a base c : Bool) (r : Option ℕ) (t : ℕ)
    → ◌≡◌ {A = Option ℕ} (if a then none else if not base || c then none else r) (some t)
    → (base ≡ true) × (c ≡ false) × (r ≡ some t)
passed_guards a base c r t h = ground arith

extract_timestamp_inv :
    (payload : Text) (t : ℕ)
    → extract_timestamp payload ≡ some t
    → (is_base_station (field (bits payload) 0 6) ≡ true)
      × (80 ≤ length (bits payload))
      × (utc_second
            (field (bits payload) 38 52)
            (field (bits payload) 52 56)
            (field (bits payload) 56 61)
            (field (bits payload) 61 66)
            (field (bits payload) 66 72)
            (field (bits payload) 72 78)
          ≡ some t)
unfolding extract_timestamp
extract_timestamp_inv payload t e =
    let b = bits payload in
    let g =
      passed_guards (ltb (length b) 6) (is_base_station (field b 0 6)) (ltb (length b) 80)
        (utc_second (field b 38 52) (field b 52 56) (field b 56 61) (field b 61 66) (field b 66 72)
          (field b 72 78))
        t e in
    (g.0, ltb_false→le _ _ g.1, g.2)

-- Only a payload of message type 4 or 11 has a timestamp, and it is in the order of the year, month,
-- day, hour, minute and second that the two payloads hold.
pub extract_timestamp_mono :
    (p q : Text) (t u : ℕ)
    → extract_timestamp p ≡ some t
    → extract_timestamp q ≡ some u
    → payload_key p < payload_key q
    → (t < u)
      × (is_base_station (field (bits p) 0 6) ≡ true)
      × (is_base_station (field (bits q) 0 6) ≡ true)
extract_timestamp_mono p q t u e f k =
    let v = extract_timestamp_inv p t e in
    let w = extract_timestamp_inv q u f in
    (utc_second_mono _ _ _ _ _ _ _ _ _ _ _ _ t u v.2 w.2 k, v.0, w.0)
