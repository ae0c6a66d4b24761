-- ===== src/Client/Stop.antt =====
-- stopDaemon, daemonPID and waitDaemonGone (main.go).
pub mod Waits
use nssh.Base.{ℕ, zero, suc, ◌+◌, Bool, true, false, Option, none, some, [], ltb, if◌then◌else◌}
use nssh.Base.Int.{ℤ, pos, negsuc}
use nssh.Config.Load.{positive}
use nssh.Daemon.Dispatch.{cmd_stop_daemon, cmd_get_daemon_pid}
use nssh.Client.{
  Json, Fields, at_key, as_object, as_number, Response, DaemonStatus, running, World, ask,
}
use nssh.Client.Restart.{is_success}

-- How stopDaemon ends. `none` where it is used says that the rounds of the model were too few.
pub data Stopped : Type 0 where
  stopped pid_unknown signal_failed still_running : Stopped

abbrev pub is_running : DaemonStatus → Bool
is_running running = true
is_running _ = false

-- 5 * time.Second and 100 * time.Millisecond
abbrev pub stop_timeout : ℕ
stop_timeout = 5_000_000_000

abbrev pub poll_interval : ℕ
poll_interval = 100_000_000

abbrev number_or_none : Option Fields → Option ℤ
number_or_none none = none
number_or_none (some m) = as_number (at_key "daemon_pid" m)

abbrev replied_pid : Option Response → Option ℤ
replied_pid none = none
replied_pid (some r) = if r.success then number_or_none (as_object r.body) else none

abbrev or_zero : Option ℤ → ℤ
or_zero none = pos 0
or_zero (some z) = z

abbrev or_file : Option ℤ → Option ℤ → ℤ
or_file (some z) file = z
or_file none file = or_zero file

module _ {W : Type 0} (world : World W) where
  -- The pid that the daemon tells, else that of its file, else 0.
  unfoldable pub daemon_pid_of : W → ℤ × W
  unfolding ask at_key
  daemon_pid_of w =
      let (r, w') = ask world cmd_get_daemon_pid [] w in
      (or_file (replied_pid r) (world.pid_file w'), w')

  -- The loop of waitDaemonGone, for at most `fuel` rounds.
  unfoldable pub wait_daemon_gone : ℕ → ℕ → W → Option Stopped × W
  wait_daemon_gone zero deadline w = (none, w)
  wait_daemon_gone (suc fuel) deadline w =
      let (st, w') = world.status w in
      let again = wait_daemon_gone fuel deadline (world.sleep poll_interval w') in
      if ltb (world.now w) deadline
      then (if is_running st then again else (some stopped, w'))
      else (some still_running, w)

  abbrev wait_from_now : ℕ → W → Option Stopped × W
  wait_from_now fuel w = wait_daemon_gone fuel (world.now w + stop_timeout) w

  abbrev terminated : ℕ → Bool × W → Option Stopped × W
  terminated fuel (true, w) = wait_from_now fuel w
  terminated fuel (false, w) = (some signal_failed, w)

  -- A daemon that does not know the command gets a signal.
  abbrev signal_daemon : ℕ → ℤ × W → Option Stopped × W
  signal_daemon fuel (pid, w) =
      let signalled = terminated fuel (world.terminate pid w) in
      if positive pid then signalled else (some pid_unknown, w)

  abbrev stop_running : ℕ → Option Response × W → Option Stopped × W
  stop_running fuel (r, w) =
      let waited = wait_from_now fuel w in
      let signalled = signal_daemon fuel (daemon_pid_of w) in
      if is_success r then waited else signalled

  unfoldable pub stop_daemon : ℕ → W → Option Stopped × W
  unfolding wait_daemon_gone daemon_pid_of ask
  stop_daemon fuel w =
      let (st, w') = world.status w in
      let asked = stop_running fuel (ask world cmd_stop_daemon [] w') in
      if is_running st then asked else (some stopped, w')
