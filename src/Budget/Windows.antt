-- ===== src/Budget/Windows.antt =====
-- `beijingUsageWindows` of src/server/operations/model-runtime.ts. Times are milliseconds since
-- 1970; the first window starts there, and not 8 hours before.
use openvac_web.Prelude.{ℕ, ◌+◌, ◌-◌, ◌*◌, ◌/◌, ◌≤◌, ◌<◌, ◌≡◌, refl, arith}

-- The calendar of `Date.UTC`: the month of a day, and the first day of a month, both numbered from
-- 1970-01-01 on. A month is the days from its first to the next month's.
pub record Months : Type 0 where
  pub month_of : ℕ → ℕ
  pub first_day : ℕ → ℕ
  pub starts_before : (day : ℕ) → first_day (month_of day) ≤ day
  pub ends_after : (day : ℕ) → day < first_day (month_of day + 1)
  pub only_month :
      (day month : ℕ) → first_day month ≤ day → day < first_day (month + 1) → month_of day ≡ month

abbrev pub day_ms : ℕ
day_ms = 86400000

abbrev pub beijing_offset_ms : ℕ
beijing_offset_ms = 28800000

pub record UsageWindows : Type 0 where
  pub day_start : ℕ
  pub day_end : ℕ
  pub month_start : ℕ
  pub month_end : ℕ

-- Midnight in Beijing at the start of a day.
abbrev pub midnight : ℕ → ℕ
midnight day = day * day_ms - beijing_offset_ms

abbrev pub beijing_day : ℕ → ℕ
beijing_day at = (at + beijing_offset_ms) / day_ms

unfoldable pub beijing_usage_windows : Months → ℕ → UsageWindows
beijing_usage_windows months at =
    let day = beijing_day at in
    record {
      day_start = midnight day;
      day_end = midnight (day + 1);
      month_start = midnight (months.first_day (months.month_of day));
      month_end = midnight (months.first_day (months.month_of day + 1));
    }

-- A time lies in the day and in the month that the code asks for at that time.
pub windows_hold :
    (months : Months) (at : ℕ)
    → ((beijing_usage_windows months at).day_start ≤ at)
      × (at < (beijing_usage_windows months at).day_end)
      × ((beijing_usage_windows months at).month_start ≤ at)
      × (at < (beijing_usage_windows months at).month_end)
unfolding beijing_usage_windows
windows_hold months at =
    let a = months.starts_before (beijing_day at) in
    let b = months.ends_after (beijing_day at) in
    (omega arith, omega arith, omega arith, omega arith)

-- A time that lies in another time's day has the same windows.
pub day_windows_apart :
    (months : Months) (at other : ℕ)
    → (beijing_usage_windows months at).day_start ≤ other
    → other < (beijing_usage_windows months at).day_end
    → beijing_usage_windows months other ≡ beijing_usage_windows months at
unfolding beijing_usage_windows
day_windows_apart months at other h k =
    let same : beijing_day other ≡ beijing_day at = omega arith in rw same refl

-- Two times have the same month if one lies in the other's month.
pub month_windows_apart :
    (months : Months) (at other : ℕ)
    → (beijing_usage_windows months at).month_start ≤ other
    → other < (beijing_usage_windows months at).month_end
    → months.month_of (beijing_day other) ≡ months.month_of (beijing_day at)
unfolding beijing_usage_windows
month_windows_apart months at other h k =
    months.only_month (beijing_day other) (months.month_of (beijing_day at)) (omega arith)
      (omega arith)
