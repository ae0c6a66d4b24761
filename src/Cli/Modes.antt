-- ===== src/Cli/Modes.antt =====
-- What main does with its flags, in the order in which it looks at them (main.go).
use nssh.Base.{
  Bool, true, false, List, [], ◌∷◌, ◌&&◌, ◌||◌, not, if◌then◌else◌, ◌≡◌, arith, ◌≢◌, Bool-cases,
  inl, inr,
}
use nssh.Base.Text.{String, str_eq}

-- The flags that choose a mode; a text is empty where its flag is not given. `args` is what stands
-- behind the flags.
pub record ModeFlags : Type 0 where
  pub version_cmd : Bool
  pub daemon_mode : Bool
  pub daemon_inner_mode : Bool
  pub list_cmd : Bool
  pub list_json_cmd : Bool
  pub restart_cmd : String
  pub stop_cmd : String
  pub log_cmd : String
  pub stop_all_cmd : Bool
  pub stop_daemon_cmd : Bool
  pub restart_all_cmd : Bool
  pub takeover_cmd : Bool
  pub takeover_force_cmd : Bool
  pub reverse_tunnel : String
  pub args : List String

pub data Mode : Type 0 where
  inner_daemon both_takeovers : Mode
  takes_over : Bool → Mode
  starts_in_daemon runs_daemon sends_start shows_version lists_json lists_all : Mode
  gets_command restarts stops shows_log : String → Mode
  stops_all stops_daemon restarts_all usage foreground : Mode

abbrev given : String → Bool
given s = not (str_eq s "")

abbrev list_mode : List String → Mode
list_mode [] = lists_all
list_mode (a ∷ args) = gets_command a

-- The block of --daemon, which stands twice in the source.
abbrev daemon_block : String → Mode
daemon_block reverse_tunnel = if given reverse_tunnel then sends_start else runs_daemon

abbrev last_modes : ModeFlags → Mode
last_modes f =
    if f.daemon_mode
    then daemon_block f.reverse_tunnel
    else if given f.reverse_tunnel
    then foreground
    else usage

abbrev command_modes : ModeFlags → Mode
command_modes f =
    if f.version_cmd
    then shows_version
    else if f.list_json_cmd
    then lists_json
    else if f.list_cmd
    then list_mode f.args
    else if given f.restart_cmd
    then restarts f.restart_cmd
    else if given f.stop_cmd
    then stops f.stop_cmd
    else if f.stop_all_cmd
    then stops_all
    else if f.stop_daemon_cmd
    then stops_daemon
    else if f.restart_all_cmd
    then restarts_all
    else if given f.log_cmd
    then shows_log f.log_cmd
    else last_modes f

unfoldable pub mode_of : ModeFlags → Mode
mode_of f =
    if f.daemon_inner_mode
    then inner_daemon
    else if f.takeover_cmd || f.takeover_force_cmd
    then (if f.takeover_cmd && f.takeover_force_cmd
        then both_takeovers
        else takes_over f.takeover_force_cmd)
    else if f.daemon_mode && given f.reverse_tunnel
    then starts_in_daemon
    else if f.daemon_mode
    then daemon_block f.reverse_tunnel
    else command_modes f

-- A tunnel in the daemon is started in one way only, whatever other flags are given: the two blocks that
-- could send a start besides are not reached.
mode_of-ne-sends_start : (f : ModeFlags) → mode_of f ≢ sends_start
unfolding mode_of
mode_of-ne-sends_start f = elim (Bool-cases f.daemon_mode) [
  | inl daemon ↦ ground arith
  | inr other ↦ ground arith
]

-- With --daemon and a tunnel, the commands are not looked at.
daemon_wins :
    (f : ModeFlags)
    → f.daemon_inner_mode ≡ false
    → f.takeover_cmd ≡ false
    → f.takeover_force_cmd ≡ false
    → f.daemon_mode ≡ true
    → mode_of f ≡ (if given f.reverse_tunnel then starts_in_daemon else runs_daemon)
unfolding mode_of
daemon_wins f a b c d = ground arith
