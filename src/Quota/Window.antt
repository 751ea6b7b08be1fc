-- ===== src/Quota/Window.antt =====
-- src/server/quota/window.ts. What `Intl.DateTimeFormat` says of a time in Asia/Shanghai, with the
-- summer times that the zone once had, is a parameter, and so are `Date.UTC` and the printed key.
use openvac_web.Prelude.{ℕ, ◌+◌, ◌-◌, String}
use openvac_web.Quota.Types.{QuotaWindow}

pub record DateParts : Type 0 where
  pub year : ℕ
  pub month : ℕ
  pub day : ℕ

-- `utc year month day` is `Date.UTC(year, month - 1, day)`, which takes the day after the last of a
-- month for the first of the next.
pub record Calendar : Type 0 where
  pub date_parts : ℕ → DateParts
  pub utc : ℕ → ℕ → ℕ → ℕ
  pub print_key : DateParts → String

abbrev pub shanghai_utc_offset_milliseconds : ℕ
shanghai_utc_offset_milliseconds = 28800000

unfoldable pub shanghai_daily_window : Calendar → ℕ → QuotaWindow
shanghai_daily_window calendar at =
    let parts = calendar.date_parts at in
    let next_local_midnight_as_utc = calendar.utc parts.year parts.month (parts.day + 1) in
    record {
      key = calendar.print_key parts;
      reset_at = next_local_midnight_as_utc - shanghai_utc_offset_milliseconds;
    }
