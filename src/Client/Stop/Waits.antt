-- ===== src/Client/Stop/Waits.antt =====
-- Stopping the daemon: what success says, and that the wait ends.
use nssh.Base.{
  ℕ, zero, suc, ◌+◌, ◌*◌, ◌≤◌, ◌≡◌, ◌≢◌, refl, arith, Bool, true, false, Option, none, some, [],
  ltb, Bool-cases, Option-cases, ap, ◌∙◌, inl, inr,
}
use nssh.Base.{ltb→lt}
use nssh.Base.Int.{ℤ}
use nssh.Config.Load.{positive}
use nssh.Daemon.Dispatch.{cmd_stop_daemon}
use nssh.Client.{Response, World, ask}
use nssh.Client.Restart.{is_success}
use nssh.Client.Stop.{Stopped, stopped, is_running}
use nssh.Client.Stop.{
  wait_daemon_gone, stop_daemon, terminated, signal_daemon, stop_running, daemon_pid_of,
  wait_from_now, poll_interval, stop_timeout,
}

module _ {W : Type 0} (world : World W) where
  -- The status that was looked up last, in the world `u`, is not "running".
  pub record IsGone (w : W) : Type 0 where
    pub before : W
    pub after : (world.status before).1 ≡ w
    pub gone : is_running (world.status before).0 ≡ false

  abbrev GoneIf : Option Stopped × W → Type 0
  GoneIf (r, w) = r ≡ some stopped → IsGone w

  wait-IsGone : (fuel deadline : ℕ) (w : W) → GoneIf (wait_daemon_gone world fuel deadline w)
  unfolding wait_daemon_gone
  wait-IsGone zero deadline w = λ h. cc
  wait-IsGone (suc fuel) deadline w = elim (Bool-cases (ltb (world.now w) deadline)) [
    | inr late ↦ rw late (λ h. cc)
    | inl early ↦ elim (Bool-cases (is_running (world.status w).0)) [
      | inl up ↦
          rw (early, up) (wait-IsGone fuel deadline (world.sleep poll_interval (world.status w).1))
      | inr down ↦ rw (early, down) (λ h. record { before = w; after = refl; gone = down })
    ]
  ]

  terminated-IsGone : (fuel : ℕ) (b : Bool) (w : W) → GoneIf (terminated world fuel (b, w))
  terminated-IsGone fuel true w = wait-IsGone fuel (world.now w + stop_timeout) w
  terminated-IsGone fuel false w = λ h. cc

  signal-IsGone : (fuel : ℕ) (pid : ℤ) (w : W) → GoneIf (signal_daemon world fuel (pid, w))
  signal-IsGone fuel pid w = elim (Bool-cases (positive pid)) [
    | inl known ↦
        rw known (terminated-IsGone fuel (world.terminate pid w).0 (world.terminate pid w).1)
    | inr unknown ↦ rw unknown (λ h. cc)
  ]

  stop_running-IsGone :
      (fuel : ℕ) (r : Option Response) (w : W) → GoneIf (stop_running world fuel (r, w))
  stop_running-IsGone fuel r w = elim (Bool-cases (is_success r)) [
    | inl known ↦ rw known (wait-IsGone fuel (world.now w + stop_timeout) w)
    | inr old ↦ rw old (signal-IsGone fuel (daemon_pid_of world w).0 (daemon_pid_of world w).1)
  ]

  stop_daemon-IsGone :
      (fuel : ℕ) (w : W)
      → (stop_daemon world fuel w).0 ≡ some stopped
      → IsGone (stop_daemon world fuel w).1
  unfolding stop_daemon
  stop_daemon-IsGone fuel w = elim (Bool-cases (is_running (world.status w).0)) [
    | inl up ↦ rw up (
        stop_running-IsGone fuel (ask world cmd_stop_daemon [] (world.status w).1).0
          (ask world cmd_stop_daemon [] (world.status w).1).1)
    | inr down ↦ rw down (λ h. record { before = w; after = refl; gone = down })
  ]

-- Time passes: a lookup does not set the clock back, and a sleep lasts as long as it is asked to.
pub record IsClock {W : Type 0} (world : World W) : Type 0 where
  pub looks : (w : W) → world.now w ≤ world.now (world.status w).1
  pub sleeps : (t : ℕ) (w : W) → world.now w + t ≤ world.now (world.sleep t w)

module _ {W : Type 0} (world : World W) (clock : IsClock world) where
  -- One round more than there are intervals up to the deadline is enough.
  wait_ends :
      (fuel deadline : ℕ) (w : W)
      → deadline ≤ world.now w + fuel * poll_interval
      → (wait_daemon_gone world (suc fuel) deadline w).0 ≢ none
  unfolding wait_daemon_gone
  wait_ends zero deadline w enough = elim (Bool-cases (ltb (world.now w) deadline)) [
    | inr late ↦ rw late (λ h. cc)
    | inl early ↦ absurd (omega (arith, ltb→lt (world.now w) deadline early))
  ]
  wait_ends (suc fuel) deadline w enough = elim (Bool-cases (ltb (world.now w) deadline)) [
    | inr late ↦ rw late (λ h. cc)
    | inl early ↦ elim (Bool-cases (is_running (world.status w).0)) [
      | inr down ↦ rw (early, down) (λ h. cc)
      | inl up ↦
          rw (early, up)
            (wait_ends fuel deadline (world.sleep poll_interval (world.status w).1)
              (omega (arith, clock.looks w, clock.sleeps poll_interval (world.status w).1)))
    ]
  ]

  waits_end : (w : W) → (wait_from_now world 51 w).0 ≢ none
  waits_end w = wait_ends 50 (world.now w + stop_timeout) w (omega arith)

  terminated_ends : (b : Bool) (w : W) → (terminated world 51 (b, w)).0 ≢ none
  terminated_ends true w = waits_end w
  terminated_ends false w = λ h. cc

  signal_ends : (pid : ℤ) (w : W) → (signal_daemon world 51 (pid, w)).0 ≢ none
  signal_ends pid w = elim (Bool-cases (positive pid)) [
    | inl known ↦ rw known (terminated_ends (world.terminate pid w).0 (world.terminate pid w).1)
    | inr unknown ↦ rw unknown (λ h. cc)
  ]

  stop_running_ends : (r : Option Response) (w : W) → (stop_running world 51 (r, w)).0 ≢ none
  stop_running_ends r w = elim (Bool-cases (is_success r)) [
    | inl known ↦ rw known (waits_end w)
    | inr old ↦ rw old (signal_ends (daemon_pid_of world w).0 (daemon_pid_of world w).1)
  ]

  stop_daemon_ends : (w : W) → (stop_daemon world 51 w).0 ≢ none
  unfolding stop_daemon
  stop_daemon_ends w = elim (Bool-cases (is_running (world.status w).0)) [
    | inl up ↦ rw up (
        stop_running_ends (ask world cmd_stop_daemon [] (world.status w).1).0
          (ask world cmd_stop_daemon [] (world.status w).1).1)
    | inr down ↦ rw down (λ h. cc)
  ]

  -- stopDaemon ends, with at most 51 rounds of its waiting, on a clock that a lookup does not set
  -- back and that a sleep advances by its length; and if it reports success, the status that was
  -- looked up last is not "running".
  pub stop_daemon_done :
      (w : W)
      → (r : Stopped) × ((stop_daemon world 51 w).0 ≡ some r)
        × (r ≡ stopped → IsGone world (stop_daemon world 51 w).1)
  stop_daemon_done w = elim (Option-cases (stop_daemon world 51 w).0) [
    | inl short ↦ absurd (stop_daemon_ends w short)
    | inr (r, e) ↦ (r, e, λ h. stop_daemon-IsGone world 51 w (e ∙ ap some h))
  ]
