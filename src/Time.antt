-- ===== src/Time.antt =====
-- Go's `time.Time` as the program uses it: a UTC calendar date with the nanoseconds since
-- midnight, `IsZero`, `After` and `AddDate(0, 1, 0)`.
pub mod Calendar
use kredit_plus.Base.{
  ℕ, ◌+◌, ◌-◌, ◌%◌, ◌≤◌, ◌<◌, Bool, true, false, ◌&&◌, ◌||◌, not, ltb, leb, ◌==◌, if◌then◌else◌,
  ◌≡◌, ◌⊎◌, refl,
}

pub record Time : Type 0 where
  pub year : ℕ
  pub month : ℕ
  pub day : ℕ
  pub nanos : ℕ

is_leap : ℕ → Bool
is_leap y = y % 4 == 0 && (not (y % 100 == 0) || y % 400 == 0)

-- The days of a month, 1 to 12.
unfoldable pub days_in : ℕ → ℕ → ℕ
unfolding is_leap
days_in y m =
    if m == 2
    then (if is_leap y then 29 else 28)
    else if m == 4 || m == 6 || m == 9 || m == 11
    then 30
    else 31

-- A date that the calendar has.
pub record IsDate (t : Time) : Type 0 where
  pub month_pos : 1 ≤ t.month
  pub month_le : t.month ≤ 12
  pub day_pos : 1 ≤ t.day
  pub day_le : t.day ≤ days_in t.year t.month

next_month : Time → Time
next_month t =
    if t.month == 12
    then record t { year = t.year + 1; month = 1 }
    else record t { month = t.month + 1 }

-- `AddDate(0, 1, 0)`: the same day of the next month; a day that the month does not have is
-- counted on into the month after it.
unfoldable pub add_month : Time → Time
unfolding next_month
add_month t =
    let u = next_month t in
    let d = days_in u.year u.month in
    if leb t.day d then u else record (next_month u) { day = t.day - d }

-- `IsZero`: January 1, year 1, at midnight.
unfoldable pub is_zero : Time → Bool
is_zero t = t.year == 1 && t.month == 1 && t.day == 1 && t.nanos == 0

-- The order of two times.
abbrev pub Before : Time → Time → Type 0
Before s t =
    (s.year < t.year)
    ⊎ ((s.year ≡ t.year)
        × ((s.month < t.month)
            ⊎ ((s.month ≡ t.month) × ((s.day < t.day) ⊎ ((s.day ≡ t.day) × (s.nanos < t.nanos))))))

january_31 : Time
january_31 = record { year = 2023; month = 1; day = 31; nanos = 0 }

end_of_january : add_month january_31 ≡ record { year = 2023; month = 3; day = 3; nanos = 0 }
unfolding january_31 add_month days_in
end_of_january = refl
