-- ===== src/Stats/Runs.antt =====
-- A day of a worker: up, eight days of failures behind it, and a report.
use nssh.Base.{List, [], ◌∷◌}
use nssh.Daemon.Sample.{sample_config}
use nssh.Stats.{new_stats_manager}
use nssh.Stats.History.{
  Event, connected, failed, transferred, disconnected, apply_all, Reports, apply_all-Reports,
}

abbrev week : List Event
week = failed 9 ∷ disconnected 7 ∷ transferred 100 ∷ connected 5 ∷ failed 3 ∷ []

apply_all-Reports_example : Reports 1 week (apply_all week (new_stats_manager sample_config 1))
apply_all-Reports_example = apply_all-Reports sample_config 1 week
