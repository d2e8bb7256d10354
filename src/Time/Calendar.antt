-- ===== src/Time/Calendar.antt =====
-- What a month's step does to a date.
use kredit_plus.Base.{ℕ, ◌+◌, ◌≤◌, ◌≡◌, arith, ◌<◌, refl}
use kredit_plus.Time.{Time, IsDate, Before, days_in, add_month}

pub days_in_bounds : (y m : ℕ) → (28 ≤ days_in y m) × (days_in y m ≤ 31)
unfolding days_in
days_in_bounds y m = ground arith

-- After a month with too few days comes one with 31.
long_after_short :
    (y m : ℕ) → days_in y m < 31 → 1 ≤ m → m ≤ 12 → (m + 1 ≤ 12) × (days_in y (m + 1) ≡ 31)
unfolding days_in
long_after_short y m h p q = ground arith

january : (y : ℕ) → days_in y 1 ≡ 31
unfolding days_in
january y = refl

-- The date that a month's step gives is on the calendar.
pub add_month-IsDate : (t : Time) → IsDate t → IsDate (add_month t)
unfolding add_month
add_month-IsDate t h = ground (
  arith,
  days_in_bounds t.year t.month,
  days_in_bounds t.year (t.month + 1),
  long_after_short t.year (t.month + 1),
  january (t.year + 1),
)

-- A month's step goes forward.
pub add_month-Before : (t : Time) → IsDate t → Before t (add_month t)
unfolding add_month
add_month-Before t h = ground (arith, days_in_bounds t.year (t.month + 1))
