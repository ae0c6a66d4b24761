-- ===== src/Daemon/Supervisor/Recovery.antt =====
-- What the supervisor does for a worker that has gone silent, is idle, or is not the daemon's own.
use nssh.Base.{ℕ, ◌+◌, ◌-◌, ◌*◌, ◌≤◌, ◌<◌, ◌≡◌, refl, sym, ap, ◌∙◌, subst, arith, Bool, true}
use nssh.Base.{Option, none, some, ◌&&◌, ltb, leb, ◌==◌, Bool-cases}
use nssh.Base.{inl, inr, lt→ltb, lt→leb, leb→le, ==_iff}
use nssh.Base.Int.{pos_part}
use mathlib.Core.Bool.{false≢true}
use text.Mathlib.TextEquality.{eq_iff}
use nssh.Base.Text.{str_eq}
use nssh.Config.{Config}
use nssh.Daemon.Worker.{WorkerInfo}
use nssh.Daemon.Supervisor.{nothing, start, second, heartbeat_timeout, tick}
use nssh.Daemon.Supervisor.{
  tick_configured, check_heartbeat, miss_heartbeat, max_offline_count, mark_offline,
}
use nssh.Daemon.Supervisor.{check_worker_lifetime, lifetime_over, has_config, idle_check}

-- An online worker that has not been heard of for more than a minute is marked by a tick, and the
-- next tick starts it again with its configuration, if this mark does not reach the limit of
-- marks.
pub tick-restarts_silent :
    (now later bytes bytes' heard : ℕ) (p : WorkerInfo) (c : Config)
    → p.config ≡ some c
    → p.status ≡ "online"
    → p.last_register_time ≡ some heard
    → heard + heartbeat_timeout < now
    → p.offline_count + 1 < max_offline_count (some c)
    → ((tick now bytes p).1 ≡ nothing) × ((tick later bytes' (tick now bytes p).0).1 ≡ start c)
unfolding tick
tick-restarts_silent now later bytes bytes' heard p c has online reg silent few = (
  ap (λ r. r.1) first,
  ap (λ r. (tick later bytes' r.0).1) first
      ∙ ap (λ o. (tick_configured later bytes' marked o).1) has
      ∙ started,
)
  where
    marked : WorkerInfo
    marked = mark_offline now p

    started : (tick_configured later bytes' marked (some c)).1 ≡ start c
    started = unfold tick_configured mark_offline in refl

    few' : p.offline_count + 1 < max_offline_count p.config
    few' = subst (λ o. p.offline_count + 1 < max_offline_count o) (sym has) few

    missed : miss_heartbeat now p ≡ (marked, nothing)
    missed =
        unfold miss_heartbeat in
        rw (lt→leb (max_offline_count p.config) (p.offline_count + 1) few') refl

    passed : tick_configured now bytes p (some c) ≡ check_heartbeat now bytes p p.last_register_time
    passed =
        unfold tick_configured in
        simp (ap (λ s. str_eq s "offline") online, ap (λ s. str_eq s "online") online) refl

    late : check_heartbeat now bytes p (some heard) ≡ miss_heartbeat now p
    late = unfold check_heartbeat in rw (lt→ltb heartbeat_timeout (now - heard) (omega arith)) refl

    first : tick now bytes p ≡ (marked, nothing)
    first =
        ap (tick_configured now bytes p) has
        ∙ passed
        ∙ ap (check_heartbeat now bytes p) reg
        ∙ late
        ∙ missed

idle_check_sound :
    (now bytes : ℕ) (p : WorkerInfo) (o : Option ℕ)
    → (idle_check now bytes p o).0 ≡ true
    → (p.last_bytes_check ≡ bytes) × ((t : ℕ) × (o ≡ some t) × (30 * second ≤ now - t))
idle_check_sound now bytes p none h = cc
idle_check_sound now bytes p (some t) h = elim (Bool-cases (p.last_bytes_check == bytes)) [
  | inl same ↦ (
    (==_iff p.last_bytes_check bytes).0 same,
    (t, refl, leb→le (30 * second) (now - t) (simp same at h)),
  )
  | inr other ↦ absurd (false≢true (simp other at h))
]

and_true : (a b : Bool) → (a && b) ≡ true → (a ≡ true) × (b ≡ true)
and_true a b h = ground arith

lifetime_over_sound :
    (now : ℕ) (p : WorkerInfo)
    → lifetime_over now p ≡ true
    → (p.status ≡ "online") × (pos_part p.max_lifetime * second ≤ now - p.start_time)
unfolding lifetime_over
lifetime_over_sound now p h =
    let (limited, r) =
      and_true (ltb 0 (pos_part p.max_lifetime))
        (str_eq p.status "online"
          && (has_config p && leb (pos_part p.max_lifetime * second) (now - p.start_time)))
        h in
    let (online, q) =
      and_true (str_eq p.status "online")
        (has_config p && leb (pos_part p.max_lifetime * second) (now - p.start_time)) r in
    let (configured, old) =
      and_true (has_config p) (leb (pos_part p.max_lifetime * second) (now - p.start_time)) q in
    (
      (eq_iff p.status "online").0 online,
      leb→le (pos_part p.max_lifetime * second) (now - p.start_time) old,
    )

-- A worker that is restarted for its age is online, is past its lifetime, and has moved no bytes
-- since a check at least 30 seconds ago.
pub check_worker_lifetime_sound :
    (now bytes : ℕ) (p : WorkerInfo)
    → (check_worker_lifetime now bytes p).0 ≡ true
    → (p.status ≡ "online")
      × (pos_part p.max_lifetime * second ≤ now - p.start_time)
      × (p.last_bytes_check ≡ bytes)
      × ((t : ℕ) × (p.last_check_time ≡ some t) × (30 * second ≤ now - t))
unfolding check_worker_lifetime
check_worker_lifetime_sound now bytes p h = elim (Bool-cases (lifetime_over now p)) [
  | inr young ↦ absurd (false≢true (rw young at h))
  | inl old ↦
      let (online, aged) = lifetime_over_sound now p old in
      let (same, checked) = idle_check_sound now bytes p p.last_check_time (rw old at h) in
      (online, aged, same, checked)
]
