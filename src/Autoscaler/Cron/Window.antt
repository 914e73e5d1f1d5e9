-- ===== src/Autoscaler/Cron/Window.antt =====
-- When a cron trigger ends.
use kubevela_catalog.Base.{ℕ, ◌+◌, ◌*◌, ◌/◌, ◌%◌, ◌<◌, ◌≡◌, arith, leb, if◌then◌else◌}
use kubevela_catalog.Base.Int.{pos, ◌+ℤ◌}
use kubevela_catalog.Autoscaler.{Duration}
use kubevela_catalog.Autoscaler.Cron.{end_of_day, rem60, rem24, cron_times}

-- a duration of so many minutes, from 0 up
abbrev pub minutes : ℕ → Duration
minutes m = record { hours = pos (m / 60); minutes = pos m }

-- the minutes from the day's beginning to the end
abbrev pub total : ℕ → ℕ → ℕ → ℕ
total hour minute m = 60 * hour + minute + m

-- The end of a trigger that starts at a time of the day and lasts for some minutes is the time of
-- the day that these minutes later make. Its day is the same one or the next: if the duration
-- passes midnight more than once, the end is still only one day later.
pub cron_times_lem :
    (hour minute m : ℕ)
    → hour < 24
    → minute < 60
    → ((cron_times hour minute (minutes m)).end_minute ≡ pos (total hour minute m % 60))
      × ((cron_times hour minute (minutes m)).end_hour ≡ pos (total hour minute m / 60 % 24))
      × ((cron_times hour minute (minutes m)).one_more_day
          ≡ (if leb 1440 (total hour minute m) then 1 else 0))
unfolding cron_times end_of_day rem60 rem24 ◌+ℤ◌
cron_times_lem hour minute m hour_ok minute_ok = (ground arith, ground arith, ground arith)
