-- ===== src/Clock/Tests.antt =====
-- Runs of the clock.
use c_programming_language.Base.{◌≡◌, refl}
use c_programming_language.Clock.{tick}

tick_end_of_day :
    tick (record { hours = 23; minutes = 59; seconds = 59 })
    ≡ record { hours = 0; minutes = 0; seconds = 0 }
unfolding tick
tick_end_of_day = refl
