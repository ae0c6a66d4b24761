-- ===== src/Daemon/Backoff/Attempts.antt =====
-- One round of runWorker with ConnectAndTunnel in it (daemon/daemon.go, base_tunnel/tunnel.go).
use nssh.Base.{ℕ, ◌≤◌, ◌≡◌, sym, ◌∙◌, arith, Bool, true, false, Option, none, some, List}
use nssh.Base.Table.{Table}
use mathlib.Core.Bool.{false≢true}
use nssh.Config.{Config, Stdlib}
use nssh.Stats.{Stats}
use nssh.Transport.{TransportCacheEntry}
use nssh.Tunnel.Requests.{rejected}
use nssh.Tunnel.Connect.{Outside, Tunnel, TunnelError}
use nssh.Tunnel.Connect.{tcp_not_forwarded, udp_not_forwarded}
use nssh.Tunnel.Connect.Loop.{Wakeup, returned, connect_and_tunnel}
use nssh.Tunnel.Connect.Ends.{user_cancelled, connect_and_tunnel_nil}
use nssh.Udp.Session.{forward_rejected}
use nssh.Daemon.Worker.{WorkerInfo}
use nssh.Daemon.Backoff.{Outcome, closed, broken, after_attempt}
use nssh.Daemon.Backoff

-- Whether errors.Is(err, ErrForwardRejected).
abbrev pub is_rejection : TunnelError → Bool
is_rejection (tcp_not_forwarded (rejected port)) = true
is_rejection (tcp_not_forwarded _) = false
is_rejection (udp_not_forwarded forward_rejected) = true
is_rejection (udp_not_forwarded _) = false
is_rejection _ = false

abbrev pub outcome_of_error : Bool → Outcome
outcome_of_error true = Backoff.rejected
outcome_of_error false = broken

-- The error of ConnectAndTunnel, as runWorker looks at it.
abbrev pub outcome_of : Option TunnelError → Outcome
outcome_of none = closed
outcome_of (some e) = outcome_of_error (is_rejection e)

keeps_streak :
    (c : Config) (now jitter : ℕ) (b : Bool) (v : WorkerInfo)
    → v.bind_reject_streak
      ≤ (after_attempt c now false (outcome_of_error b) jitter v).1.bind_reject_streak
unfolding after_attempt
keeps_streak c now jitter true v = omega arith
keeps_streak c now jitter false v = omega arith

-- In a round of runWorker that the user does not cancel, the counter of rejections never falls,
-- whatever ConnectAndTunnel met and also if the tunnel was established.
pub after_attempt-keeps_streak :
    {W : Type 0} (out : Outside W) (std : Stdlib) (c : Config) (ws : List Wakeup) (stats : Stats)
    (cache : Table TransportCacheEntry) (w : W) (e : Option TunnelError) (t : Tunnel W)
    (now jitter : ℕ) (v : WorkerInfo)
    → connect_and_tunnel out std c ws stats cache w ≡ returned e t
    → user_cancelled ws ≡ false
    → v.bind_reject_streak
      ≤ (after_attempt c now false (outcome_of e) jitter v).1.bind_reject_streak
after_attempt-keeps_streak out std c ws stats cache w none t now jitter v ends going_on =
    absurd (false≢true (sym going_on ∙ connect_and_tunnel_nil out std c ws stats cache w t ends))
after_attempt-keeps_streak out std c ws stats cache w (some e) t now jitter v ends going_on =
    keeps_streak c now jitter (is_rejection e) v
