-- ===== src/Client/Background.antt =====
-- Starting the daemon and a tunnel in it (main.go): startDaemonBackground, the block of --daemon with a
-- tunnel, and "get command".
use nssh.Base.{
  ℕ, zero, suc, ◌≡◌, refl, Bool, true, false, Option, none, some, [], ◌∷◌, if◌then◌else◌,
}
use nssh.Base.{Bool-cases, inl, inr}
use nssh.Base.Int.{ℤ}
use nssh.Base.Text.{String}
use nssh.Config.{Config, Stdlib}
use nssh.Daemon.Dispatch.{cmd_get_daemon_pid, cmd_get_command}
use nssh.Client.{Json, Items, Fields, at_key, as_object, as_items, as_number, Response, World, ask}
use nssh.Client.{Printed}
use nssh.Client.Stop.{is_running, poll_interval}
use nssh.Client.Takeover.{send_start_command}

-- What startDaemonBackground prints, or the panic of a pid that is no number.
pub data Starting : Type 0 where
  pid_unavailable assertion_failed start_failed : Starting
  already_running : ℤ → Starting
  started_daemon : Starting

abbrev pid_or_panic : Option ℤ → Starting
pid_or_panic none = assertion_failed
pid_or_panic (some pid) = already_running pid

abbrev pid_in : Option Fields → Starting
pid_in none = pid_unavailable
pid_in (some m) = pid_or_panic (as_number (at_key "daemon_pid" m))

abbrev pid_answered : Option Response → Starting
pid_answered none = pid_unavailable
pid_answered (some r) = pid_in (as_object r.body)

abbrev launched : Bool → Starting
launched true = started_daemon
launched false = start_failed

-- At most 50 looks, 100 milliseconds apart; the world behind them, and whether the last look found a
-- daemon.
unfoldable pub await_daemon : {W : Type 0} → World W → ℕ → W → Bool × W
await_daemon world zero w = (false, w)
await_daemon world (suc rounds) w =
    let (st, w') = world.status w in
    let later = await_daemon world rounds (world.sleep poll_interval w') in
    if is_running st then (true, w') else later

-- A panic ends the program before `later`; `none` says so.
abbrev unless_panic : {W : Type 0} → Starting → W → Printed × W → Option Printed × W
unless_panic assertion_failed w later = (none, w)
unless_panic _ w later = (some later.0, later.1)

module _ {W : Type 0} (world : World W) (launch : W → Bool × W) where
  -- `launch` is os.Executable with platform.StartDaemonProcess.
  unfoldable pub start_daemon_background : W → Starting × W
  unfolding ask at_key
  start_daemon_background w =
      let (st, w') = world.status w in
      let (r, asked) = ask world cmd_get_daemon_pid [] w' in
      let (up, after) = launch w' in
      if is_running st then (pid_answered r, asked) else (launched up, after)

  -- The block of --daemon with a tunnel: the start is sent also where no daemon came up.
  unfoldable pub start_in_daemon : Stdlib → Config → W → Option Printed × W
  unfolding start_daemon_background await_daemon send_start_command
  start_in_daemon std c w =
      let (st, w') = world.status w in
      let (starting, started) = start_daemon_background w' in
      let there = send_start_command std world c w' in
      let later = send_start_command std world c (await_daemon world 50 started).1 in
      if is_running st then (some there.0, there.1) else unless_panic starting started later

-- What "get command" prints: an error, one command, or a list of them.
pub data Commands : Type 0 where
  no_commands invalid_response : Commands
  refused_with : String → Commands
  one_command : Json → Commands
  all_commands : Items → Commands

abbrev commands_in : Json → Option Items → Commands
commands_in body none = one_command body
commands_in body (some xs) = all_commands xs

abbrev commands_object : Json → Option Fields → Commands
commands_object body none = invalid_response
commands_object body (some m) = commands_in body (as_items (at_key "commands" m))

abbrev commands_answered : Option Response → Commands
commands_answered none = no_commands
commands_answered (some r) =
    if r.success then commands_object r.body (as_object r.body) else refused_with r.error

unfoldable pub send_get_command : {W : Type 0} → World W → String → W → Commands × W
unfolding ask at_key
send_get_command world username w =
    let (r, w') = ask world cmd_get_command (("username", username) ∷ []) w in
    (commands_answered r, w')

module _ {W : Type 0} (world : World W) where
  -- The wait reports a daemon only where the last look has found it.
  await_daemon_found :
      (rounds : ℕ) (w : W)
      → (await_daemon world rounds w).0 ≡ true
      → (u : W) × (is_running (world.status u).0 ≡ true)
        × ((world.status u).1 ≡ (await_daemon world rounds w).1)
  unfolding await_daemon
  await_daemon_found zero w = λ h. cc
  await_daemon_found (suc rounds) w = elim (Bool-cases (is_running (world.status w).0)) [
    | inl up ↦ rw up (λ h. (w, up, refl))
    | inr down ↦ rw down (await_daemon_found rounds (world.sleep poll_interval (world.status w).1))
  ]
