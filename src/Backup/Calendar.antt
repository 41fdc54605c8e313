-- ===== src/Backup/Calendar.antt =====
-- What internal/backup/retention.go uses of Go's `time`, for times in UTC. A time is the number of
-- seconds since 1 March of the year -400, before which no parsed time lies: a leap day is then the last
-- day of its year.
use mentis_eterna.Prelude.{ℕ, ◌+◌, ◌-◌, ◌*◌, ◌/◌, ◌%◌}

abbrev pub day_seconds : ℕ
day_seconds = 24 * 60 * 60

-- Two times have one `Format("2006-01-02")` if they have one day.
unfoldable pub day_of : ℕ → ℕ
day_of t = t / day_seconds

-- Two times have one `ISOWeek()` if no Monday begins between them. Day 0 is a Wednesday.
unfoldable pub iso_week : ℕ → ℕ
iso_week t = (t / day_seconds + 2) / 7

-- The year, counted from March, of a day in a period of 400 years.
unfoldable pub year_in_era : ℕ → ℕ
year_in_era n = (n - n / 1460 + n / 36524 - n / 146096) / 365

-- Two times have one `Format("2006-01")` if they have one month: March of the year -400 is 0.
unfoldable pub month_of : ℕ → ℕ
unfolding year_in_era
month_of t =
    let day = t / day_seconds in
    let n = day % 146097 in
    let y = year_in_era n in
    let in_year = n - (365 * y + y / 4 - y / 100) in
    (day / 146097 * 400 + y) * 12 + (5 * in_year + 2) / 153

-- The first day of a month.
unfoldable pub first_day : ℕ → ℕ
first_day month =
    let y = month / 12 in 365 * y + y / 4 - y / 100 + y / 400 + (153 * (month % 12) + 2) / 5

-- `t.AddDate(0, 0, -days)`.
unfoldable pub days_before : ℕ → ℕ → ℕ
days_before days t = t - days * day_seconds

-- `t.AddDate(0, -months, 0)`: the same day of an earlier month, counted on where that month is shorter.
unfoldable pub months_before : ℕ → ℕ → ℕ
unfolding month_of first_day
months_before months t =
    let in_month = t / day_seconds - first_day (month_of t) in
    (first_day (month_of t - months) + in_month) * day_seconds + t % day_seconds
