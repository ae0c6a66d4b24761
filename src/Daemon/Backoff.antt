-- ===== src/Daemon/Backoff.antt =====
-- `bindRejectBackoff` and the loop of `runWorker` (daemon/daemon.go).
pub mod Streak
pub mod Attempts
mod Runs
use nssh.Base.{
  ℕ, ◌+◌, ◌*◌, Bool, true, false, Option, none, some, List, [], ◌∷◌, leb, ◌==◌, if◌then◌else◌,
}
use nssh.Base.Int.{ℤ, pos_part}
use nssh.Config.{Config}
use nssh.Daemon.Worker.{WorkerInfo}
use nssh.Daemon.Supervisor.{second}

-- `jitter` is rand.Int63n(int64(time.Second)).
unfoldable pub bind_reject_backoff : ℕ → ℕ → ℕ
bind_reject_backoff streak jitter =
    (if leb streak 1
      then 3 * second
      else if streak == 2
      then 5 * second
      else if streak == 3
      then 10 * second
      else 30 * second)
    + jitter

-- What ConnectAndTunnel returns: nil, ErrForwardRejected, or another error.
pub data Outcome : Type 0 where
  closed rejected broken : Outcome

unfoldable pub mark_worker_established : ℕ → WorkerInfo → WorkerInfo
mark_worker_established now w = record w { status = "online"; status_change_time = some now }

unfoldable pub worker_heartbeat_tick : ℕ → WorkerInfo → WorkerInfo
worker_heartbeat_tick now w = record w { last_register_time = some now }

-- The assignments before the loop.
unfoldable pub begin_run : ℕ → WorkerInfo → WorkerInfo
begin_run now w = record w {
  status = "offline";
  status_change_time = some now;
  last_register_time = some now;
  last_connect_time = some now;
}

abbrev pub next_streak : Outcome → ℕ → ℕ
next_streak closed streak = 0
next_streak rejected streak = streak + 1
next_streak broken streak = streak

-- time.Duration(config.ReconnectDelay) * time.Second; a timer of a negative one fires at once.
abbrev pub reconnect_delay : Config → Outcome → ℕ → ℕ → ℕ
reconnect_delay c rejected streak jitter = bind_reject_backoff streak jitter
reconnect_delay c _ streak jitter = pos_part c.reconnect_delay * second

-- The part of a round behind ConnectAndTunnel. With the context cancelled the loop ends (`none`);
-- otherwise it waits for the delay that is returned.
unfoldable pub after_attempt : Config → ℕ → Bool → Outcome → ℕ → WorkerInfo → Option ℕ × WorkerInfo
unfolding bind_reject_backoff
after_attempt c now cancelled outcome jitter w =
    let streak = next_streak outcome w.bind_reject_streak in
    let ended : WorkerInfo = record w {
      status = "offline";
      status_change_time = some now;
      last_connect_time = some now;
    } in
    if cancelled then (none, ended) else (
      some (reconnect_delay c outcome streak jitter),
      record ended { bind_reject_streak = streak },
    )

-- One attempt: when it ended, how, and the jitter drawn for it.
pub record Attempt : Type 0 where
  pub ended : ℕ
  pub outcome : Outcome
  pub jitter : ℕ

-- The loop over attempts, while the context is not cancelled: the delays, and the worker.
unfoldable pub run_worker : Config → List Attempt → WorkerInfo → List (Option ℕ) × WorkerInfo
unfolding after_attempt
run_worker c [] w = ([], w)
run_worker c (a ∷ rest) w =
    let (delay, w') = after_attempt c a.ended false a.outcome a.jitter w in
    let (delays, w'') = run_worker c rest w' in (delay ∷ delays, w'')
