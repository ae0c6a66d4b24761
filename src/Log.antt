-- ===== src/Log.antt =====
-- The logger (base_core/logger.go): the level filter, and the pushes of errors to Loki, which share a
-- channel with two places.
pub mod Limits
mod Runs
use nssh.Base.{ℕ, ◌+◌, ◌-◌, ◌≡◌, Bool, true, false, List, [], ◌∷◌, ◌&&◌, not, ltb, leb, ◌==◌}
use nssh.Base.{if◌then◌else◌}
use nssh.Base.Int.{ℤ, pos, int_eq, int_ltb}
use nssh.Base.Text.{String, str_eq, ◌<>◌}

abbrev pub debug_level : ℕ
debug_level = 0

abbrev pub info_level : ℕ
info_level = 1

abbrev pub warn_level : ℕ
warn_level = 2

abbrev pub error_level : ℕ
error_level = 3

abbrev pub fatal_level : ℕ
fatal_level = 4

-- The levels of zerolog, in their order, which is that of the numbers above.
pub data ZerologLevel : Type 0 where
  debug info warn error fatal : ZerologLevel

abbrev pub rank : ZerologLevel → ℕ
rank debug = 0
rank info = 1
rank warn = 2
rank error = 3
rank fatal = 4

unfoldable pub level_to_zerolog_level : ℤ → ZerologLevel
level_to_zerolog_level level =
    if int_eq level (pos debug_level)
    then debug
    else if int_eq level (pos info_level)
    then info
    else if int_eq level (pos warn_level)
    then warn
    else if int_eq level (pos error_level)
    then error
    else if int_eq level (pos fatal_level)
    then fatal
    else info

unfoldable pub level_to_string : ℤ → String
level_to_string level =
    if int_eq level (pos debug_level)
    then "DEBUG"
    else if int_eq level (pos info_level)
    then "INFO"
    else if int_eq level (pos warn_level)
    then "WARN"
    else if int_eq level (pos error_level)
    then "ERROR"
    else if int_eq level (pos fatal_level)
    then "FATAL"
    else "UNKNOWN"

-- `current_level` and `global_level` are variables of the package and of zerolog; `pushes` is the number of
-- entries in lokiChan, one for each goroutine that pushes; `stopped` is whether the channels are closed.
pub record CustomLogger : Type 0 where
  pub current_level : ℤ
  pub global_level : ZerologLevel
  pub loki_url : String
  pub loki_job : String
  pub enable_loki : Bool
  pub process_type : String
  pub pushes : ℕ
  pub stopped : Bool

abbrev pub loki_chan_size : ℕ
loki_chan_size = 2

unfoldable pub new_custom_logger : CustomLogger
new_custom_logger = record {
  current_level = pos info_level;
  global_level = info;
  loki_url = "";
  loki_job = "nssh";
  enable_loki = false;
  process_type = "";
  pushes = 0;
  stopped = false;
}

unfoldable pub enable_loki_at : String → String → CustomLogger → CustomLogger
enable_loki_at url job l = record l {
  loki_url = url;
  loki_job = if str_eq job "" then l.loki_job else job;
  enable_loki = true;
}

unfoldable pub set_level : ℤ → CustomLogger → CustomLogger
unfolding level_to_zerolog_level
set_level level l = record l { current_level = level; global_level = level_to_zerolog_level level }

-- What a call of the logger comes to: nothing is written; a line is written, and a push to Loki is
-- started or not; the process ends, as zerolog does behind a line of level fatal; it panics.
pub data Outcome : Type 0 where
  filtered : Outcome
  written : Bool → Bool → CustomLogger → Outcome
  exits : Bool → Outcome
  panics : Outcome

-- Behind the line: the select on lokiChan. A send on a closed channel panics.
unfoldable pub offer_push : Bool → ℕ → CustomLogger → Outcome
offer_push shown level l =
    if not (l.enable_loki && leb error_level level)
    then written shown false l
    else if l.stopped
    then panics
    else if ltb l.pushes loki_chan_size
    then written shown true (record l { pushes = l.pushes + 1 })
    else written shown false l

-- The callers pass one of the five levels. zerolog drops an event below its global level.
unfoldable pub log_message : ℕ → CustomLogger → Outcome
unfolding offer_push level_to_zerolog_level
log_message level l =
    let shown = leb level fatal_level && leb (rank l.global_level) level in
    if int_ltb (pos level) l.current_level
    then filtered
    else if level == fatal_level
    then exits shown
    else offer_push shown level l

-- The goroutine of a push takes its entry out again.
unfoldable pub push_ends : CustomLogger → CustomLogger
push_ends l = record l { pushes = l.pushes - 1 }

-- Closing the channels a second time panics.
unfoldable pub stop_logger : CustomLogger → Outcome
stop_logger l = if l.stopped then panics else written false false (record l { stopped = true })

abbrev joined : Bool → String → String → String → String
joined true k v rest = k <> ("=" <> (v <> rest))
joined false k v rest = ", " <> (k <> ("=" <> (v <> rest)))

-- The fields in the order of one `range`, each value printed by "%v".
unfoldable pub fields_text : Bool → List (String × String) → String
fields_text first [] = ""
fields_text first ((k, v) ∷ fields) = joined first k v (fields_text false fields)

unfoldable pub format_with_fields : String → List (String × String) → String
unfolding fields_text
format_with_fields format [] = format
format_with_fields format (f ∷ fields) = format <> (" | fields: " <> fields_text true (f ∷ fields))
