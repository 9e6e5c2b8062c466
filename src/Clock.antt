-- ===== src/Clock.antt =====
-- `utc_now` and `normalize_datetime` of app/crm.py. A datetime is its count of microseconds since
-- the first of January of the year 1; `isoformat(timespec="seconds")` drops the rest of a second.
use ollum_sales.Prelude.{ℕ, ◌+◌, ◌-◌, ◌*◌, ◌/◌, ltb, leb, if◌then◌else◌}
use ollum_sales.Exec.{pure, raise}
use ollum_sales.Schema.{Crm, bad_date, date_overflow}

abbrev pub second : ℕ
second = 1000000

-- `now.isoformat(timespec="seconds")`
abbrev pub stamp : ℕ → ℕ
stamp now = now / second

-- the microseconds from the year 1 to the year 10000
abbrev pub end_of_time : ℕ
end_of_time = 315537897600 * second

-- A date argument, as `datetime.fromisoformat` reads its text: absent or empty, not a date, without
-- a zone, or with an offset east or west of UTC (wall clock and offset in microseconds).
pub data DateText : Type 0 where
  missing malformed : DateText
  naive : ℕ → DateText
  east west : ℕ → ℕ → DateText

-- `normalize_datetime`; `now` is what `utc_now` returns.
unfoldable pub normalize_datetime : ℕ → DateText → Crm ℕ
normalize_datetime now missing = pure now
normalize_datetime now malformed = raise bad_date
normalize_datetime now (naive wall) = pure (stamp wall)
normalize_datetime now (east wall offset) =
    if ltb wall offset then raise date_overflow else pure (stamp (wall - offset))
normalize_datetime now (west wall offset) =
    if leb end_of_time (wall + offset) then raise date_overflow else pure (stamp (wall + offset))
