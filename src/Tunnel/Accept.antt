-- ===== src/Tunnel/Accept.antt =====
-- One forwarded channel of setupTCPForward (base_tunnel/tunnel.go): the local service is dialled, the
-- channel is accepted or rejected, and handleChannel takes over.
use nssh.Base.{ℕ, Bool, true, false, Option, List, if◌then◌else◌, ◌≡◌, Bool-cases, inl, inr, ◌∙◌}
use nssh.Base.Int.{ℤ}
use nssh.Base.Text.{String, ◌<>◌}
use nssh.Config.{Stdlib}
use nssh.Tunnel.Origin.{read_origin}

-- net.DialTimeout with five seconds, and the calls of the ssh.NewChannel; the Bool says whether there was
-- no error. Behind an Accept that failed, Reject may fail too.
pub record Incoming (W : Type 0) : Type 0 where
  pub dial_local : String → W → Bool × W
  pub accept : W → Bool × W
  pub reject : String → W → Bool × W
  pub close_local : W → W

-- What becomes of the channel: Reject is called with a reason, and its error is dropped, or handleChannel gets it and the local
-- connection; the originator is for the log.
pub data Accepted : Type 0 where
  rejected_with : String → Accepted
  handled : List ℕ × Option ℕ → Accepted

unfoldable pub accept_channel :
    {W : Type 0} → Incoming W → Stdlib → String → ℤ → List ℕ → W → Accepted × W
unfolding read_origin
accept_channel inc std host port extra w =
    let (dialled, w1) = inc.dial_local (host <> (":" <> std.itoa port)) w in
    let (taken, w2) = inc.accept w1 in
    if dialled
    then if taken then (handled (read_origin extra), w2) else (
      rejected_with "failed to accept",
      (inc.reject "failed to accept" (inc.close_local w2)).1,
    )
    else (rejected_with "local service unavailable", (inc.reject "local service unavailable" w1).1)

-- What the world shows of the local connection: dialling opens it if it succeeds, the calls of the channel
-- leave it as it is, and closing it closes it.
pub record Observed (W : Type 0) (inc : Incoming W) : Type 0 where
  pub local_open : W → Bool
  pub dials : (a : String) (w : W) → local_open (inc.dial_local a w).1 ≡ (inc.dial_local a w).0
  pub keeps : (w : W) → local_open (inc.accept w).1 ≡ local_open w
  pub keeps_rejected : (r : String) (w : W) → local_open (inc.reject r w).1 ≡ local_open w
  pub closes : (w : W) → local_open (inc.close_local w) ≡ false

abbrev pub is_handled : Accepted → Bool
is_handled (rejected_with r) = false
is_handled (handled o) = true

-- For every forwarded channel, the local connection is left open exactly if handleChannel gets
-- it, also where the channel can be neither accepted nor rejected, for sockets that do what their
-- calls report.
pub accept_channel_keeps_handled :
    {W : Type 0} (inc : Incoming W) (o : Observed W inc) (std : Stdlib) (host : String) (port : ℤ)
    (extra : List ℕ) (w : W)
    → let r = accept_channel inc std host port extra w in o.local_open r.1 ≡ is_handled r.0
unfolding accept_channel
accept_channel_keeps_handled inc o std host port extra w =
    let dialled = inc.dial_local (host <> (":" <> std.itoa port)) w in
    elim (Bool-cases dialled.0) [
      | inr down ↦ rw down (o.keeps_rejected _ _ ∙ o.dials _ _ ∙ down)
      | inl up ↦ elim (Bool-cases (inc.accept dialled.1).0) [
        | inl taken ↦ rw (up, taken) (o.keeps _ ∙ o.dials _ _ ∙ up)
        | inr failed ↦ rw (up, failed) (o.keeps_rejected _ _ ∙ o.closes _)
      ]
    ]
