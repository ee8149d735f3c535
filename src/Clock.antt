-- ===== src/Clock.antt =====
-- DigitalClock/main.c: the round of the clock's endless loop, from one print to the next.
mod Tests
use c_programming_language.Base.{
  ℕ, zero, suc, ◌+◌, ◌*◌, ◌%◌, ◌<◌, ◌≡◌, refl, ◌==◌, if◌then◌else◌, arith,
}

pub record Time : Type 0 where
  pub hours : ℕ
  pub minutes : ℕ
  pub seconds : ℕ

-- `if(seconds==60)`
abbrev carry_seconds : Time → Time
carry_seconds t = if t.seconds == 60 then record t { seconds = 0; minutes = t.minutes + 1 } else t

-- `if(minutes==60)`
abbrev carry_minutes : Time → Time
carry_minutes t = if t.minutes == 60 then record t { minutes = 0; hours = t.hours + 1 } else t

-- `if(hours==24)`
abbrev carry_hours : Time → Time
carry_hours t = if t.hours == 24 then record { hours = 0; minutes = 0; seconds = 0 } else t

unfoldable pub tick : Time → Time
tick t = carry_hours (carry_minutes (carry_seconds (record t { seconds = t.seconds + 1 })))

unfoldable pub midnight : Time
midnight = record { hours = 0; minutes = 0; seconds = 0 }

-- The loop, stopped after so many rounds.
unfoldable pub run : ℕ → Time
run zero = midnight
run (suc n) = tick (run n)

pub record IsTime (t : Time) : Type 0 where
  pub hours : t.hours < 24
  pub minutes : t.minutes < 60
  pub seconds : t.seconds < 60

abbrev pub seconds_of : Time → ℕ
seconds_of t = t.hours * 3600 + t.minutes * 60 + t.seconds

tick-IsTime : (t : Time) → IsTime t → IsTime (tick t)
unfolding tick
tick-IsTime t v = ground arith

seconds_of-tick : (t : Time) → IsTime t → seconds_of (tick t) ≡ (seconds_of t + 1) % 86400
unfolding tick
seconds_of-tick t v = ground arith

run-IsTime : (n : ℕ) → IsTime (run n)
unfolding run midnight
run-IsTime zero = omega arith
run-IsTime (suc n) = tick-IsTime (run n) (run-IsTime n)

seconds_of-run : (n : ℕ) → seconds_of (run n) ≡ n % 86400
unfolding run midnight
seconds_of-run zero = refl
seconds_of-run (suc n) = omega (arith, seconds_of-tick (run n) (run-IsTime n), seconds_of-run n)

-- After `n` rounds the clock shows a time of day, and that time is `n` seconds after midnight,
-- modulo a day.
pub run_lem : (n : ℕ) → IsTime (run n) × (seconds_of (run n) ≡ n % 86400)
run_lem n = (run-IsTime n, seconds_of-run n)
