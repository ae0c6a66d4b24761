-- ===== src/Log/Runs.antt =====
-- A logger that pushes to Loki: three errors, of which the third finds no place.
use nssh.Base.{◌≡◌, refl, true, false}
use nssh.Log.{CustomLogger, panics, new_custom_logger, enable_loki_at, log_message}
use nssh.Log.{error_level}
use nssh.Log.Limits.{IsLogger, Reach, here, next, logs, loki, Reach-IsLogger}

abbrev pushing : CustomLogger
pushing = enable_loki_at "http://loki" "" new_custom_logger

abbrev busy : CustomLogger
busy = record pushing { pushes = 1 }

abbrev full : CustomLogger
full = record pushing { pushes = 2 }

three_errors : Reach new_custom_logger full
unfolding log_message new_custom_logger enable_loki_at
three_errors = next (loki "http://loki" "" new_custom_logger) (
    next (logs error_level true true pushing busy refl) (
      next (logs error_level true true busy full refl)
        (next (logs error_level true false full full refl) (here full))))

Reach-IsLogger_example : IsLogger full
Reach-IsLogger_example = Reach-IsLogger three_errors

error_after_stop : log_message error_level (record full { stopped = true }) ≡ panics
unfolding log_message new_custom_logger enable_loki_at
error_after_stop = refl
