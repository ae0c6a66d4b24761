-- ===== src/Daemon/Dispatch/Steps.antt =====
-- The steps that change the daemon, in any order that the goroutines of its commands and workers take,
-- and that each of them keeps the table keyed.
use nssh.Base.{ℕ, ◌-◌, ◌≡◌, refl, sym, ◌∙◌, subst, Bool, true, false, Option, none, some, [], ◌∷◌}
use nssh.Base.{◌==◌, ltb, if◌then◌else◌, ◌&&◌, Bool-cases, inl, inr}
use nssh.Base.Text.{String, str_eq}
use nssh.Base.Table.{Table, delete, map_entries, OneEach-map_entries, AllEntries-map_entries}
use nssh.Base.Table.{OneEach-delete, AllEntries-delete}
use nssh.Config.{Config, Stdlib}
use nssh.Daemon.Worker.{WorkerInfo, worker_key}
use nssh.Daemon.Params.{Params}
use nssh.Daemon.State.{Daemon, cancel_handle, delete_worker, start_worker, idle_if_empty}
use nssh.Daemon.State.Owned.{cancel_handle_keeps}
use nssh.Daemon.Select.Exact.{IsKeyed}
use nssh.Daemon.Commands.{handle_register, delete_all}
use nssh.Daemon.Commands.Keyed.{start_worker-IsKeyed, handle_register-IsKeyed}
use nssh.Daemon.Supervisor.{
  tick, tick_configured, check_progress, check_heartbeat, check_alive, miss_heartbeat,
}
use nssh.Daemon.Supervisor.{check_worker_lifetime, lifetime_over, reset_offline, mark_offline}
use nssh.Daemon.Supervisor.{no_progress_restart_timeout, heartbeat_timeout, idle_check}
use nssh.Daemon.Backoff.{
  Outcome, mark_worker_established, worker_heartbeat_tick, begin_run, after_attempt,
}
use nssh.Daemon.Dispatch.{run_tick, tick_workers}

-- What the goroutine of a worker does to its fields.
pub data Progress : Type 0 where
  begins established heartbeat : ℕ → Progress
  attempted : Config → ℕ → Bool → Outcome → ℕ → Progress

abbrev pub progress : Progress → WorkerInfo → WorkerInfo
progress (begins now) w = begin_run now w
progress (established now) w = mark_worker_established now w
progress (heartbeat now) w = worker_heartbeat_tick now w
progress (attempted c now cancelled outcome jitter) w =
    (after_attempt c now cancelled outcome jitter w).1

abbrev pub progress_of : String → Progress → Table WorkerInfo → Table WorkerInfo
progress_of key p m = map_entries (λ k w. if str_eq k key then progress p w else w) m

-- One closure of cmdChan, one cancellation, or one change that a worker makes to itself.
pub data Step (std : Stdlib) : Daemon → Daemon → Type 0 where
  starts : (now : ℕ) (c : Config) (d : Daemon) → Step std d (start_worker std now c d)
  cancels : (o : Option ℕ) (d : Daemon) → Step std d (cancel_handle o d)
  deletes : (now : ℕ) (key : String) (d : Daemon) → Step std d (delete_worker now key d)
  deletes_listed :
      (now : ℕ) (listed : Table WorkerInfo) (d : Daemon)
      → Step std d (record d {
        workers = delete_all listed d.workers;
        idle_start = idle_if_empty now (delete_all listed d.workers) d.idle_start;
      })
  registers : (now : ℕ) (ps : Params) (d : Daemon) → Step std d (handle_register std now ps d).1
  empties : (d : Daemon) → Step std d (record d { workers = [] })
  ticks : (now : ℕ) (bytes : String → ℕ) (d : Daemon) → Step std d (run_tick now bytes d).2
  progresses :
      (key : String) (p : Progress) (d : Daemon)
      → Step std d (record d { workers = progress_of key p d.workers })

pub data Reach (std : Stdlib) : Daemon → Daemon → Type 0 where
  here : (d : Daemon) → Reach std d d
  next : {d e f : Daemon} → Step std d e → Reach std e f → Reach std d f

module _ (std : Stdlib) where
  delete-IsKeyed : (k : String) (m : Table WorkerInfo) → IsKeyed std m → IsKeyed std (delete k m)
  delete-IsKeyed k m t = record {
    one_each = OneEach-delete k m t.one_each;
    keys = AllEntries-delete (λ j v. j ≡ worker_key std v) k m t.keys;
  }

  delete_all-IsKeyed : (es m : Table WorkerInfo) → IsKeyed std m → IsKeyed std (delete_all es m)
  unfolding delete_all
  delete_all-IsKeyed [] m t = t
  delete_all-IsKeyed ((k, w) ∷ es) m t = delete_all-IsKeyed es (delete k m) (delete-IsKeyed k m t)

  map_entries-IsKeyed :
      (f : String → WorkerInfo → WorkerInfo) (m : Table WorkerInfo)
      → ((k : String) (w : WorkerInfo) → worker_key std (f k w) ≡ worker_key std w)
      → IsKeyed std m
      → IsKeyed std (map_entries f m)
  map_entries-IsKeyed f m g t = record {
    one_each = OneEach-map_entries f m t.one_each;
    keys =
        AllEntries-map_entries (λ j v. j ≡ worker_key std v) f m (λ k v e. e ∙ sym (g k v)) t.keys;
  }

  idle_check_key :
      (now bytes : ℕ) (p : WorkerInfo) (o : Option ℕ)
      → worker_key std (idle_check now bytes p o).1 ≡ worker_key std p
  idle_check_key now bytes p none = refl
  idle_check_key now bytes p (some t) = elim (Bool-cases (p.last_bytes_check == bytes)) [
    | inl e ↦ simp e
    | inr e ↦ simp e
  ]

  check_worker_lifetime_key :
      (now bytes : ℕ) (p : WorkerInfo)
      → worker_key std (check_worker_lifetime now bytes p).1 ≡ worker_key std p
  unfolding check_worker_lifetime
  check_worker_lifetime_key now bytes p = elim (Bool-cases (lifetime_over now p)) [
    | inl e ↦ simp e (idle_check_key now bytes p p.last_check_time)
    | inr e ↦ simp e
  ]

  reset_offline_key : (p : WorkerInfo) → worker_key std (reset_offline p) ≡ worker_key std p
  unfolding reset_offline
  reset_offline_key p = elim (Bool-cases (str_eq p.status "online" && ltb 0 p.offline_count)) [
    | inl e ↦ simp e
    | inr e ↦ simp e
  ]

  check_heartbeat_key :
      (now bytes : ℕ) (p : WorkerInfo) (o : Option ℕ)
      → worker_key std (check_heartbeat now bytes p o).0 ≡ worker_key std p
  unfolding check_heartbeat miss_heartbeat check_alive mark_offline
  check_heartbeat_key now bytes p none = refl
  check_heartbeat_key now bytes p (some t) = elim (Bool-cases (ltb heartbeat_timeout (now - t))) [
    | inl e ↦ simp e
    | inr e ↦ simp e (check_worker_lifetime_key now bytes (reset_offline p) ∙ reset_offline_key p)
  ]

  check_progress_key :
      (now bytes : ℕ) (c : Config) (p : WorkerInfo) (o : Option ℕ)
      → worker_key std (check_progress now bytes c p o).0 ≡ worker_key std p
  unfolding check_progress
  check_progress_key now bytes c p none =
      check_heartbeat_key now bytes (record p { last_connect_time = some now }) _
  check_progress_key now bytes c p (some t) =
      elim (Bool-cases (ltb no_progress_restart_timeout (now - t))) [
        | inl e ↦ simp e
        | inr e ↦ simp e (check_heartbeat_key now bytes p p.last_register_time)
      ]

  tick_configured_key :
      (now bytes : ℕ) (p : WorkerInfo) (o : Option Config)
      → worker_key std (tick_configured now bytes p o).0 ≡ worker_key std p
  unfolding tick_configured
  tick_configured_key now bytes p none = check_heartbeat_key now bytes p p.last_register_time
  tick_configured_key now bytes p (some c) =
      elim (Bool-cases (str_eq p.status "offline" && p.reconnect_needed)) [
        | inl e ↦ simp e
        | inr e ↦ elim (Bool-cases (str_eq p.status "online")) [
          | inl f ↦ simp (e, f) (check_heartbeat_key now bytes p p.last_register_time)
          | inr f ↦ simp (e, f) (check_progress_key now bytes c p p.last_connect_time)
        ]
      ]

  tick_key :
      (now bytes : ℕ) (p : WorkerInfo) → worker_key std (tick now bytes p).0 ≡ worker_key std p
  unfolding tick
  tick_key now bytes p = tick_configured_key now bytes p p.config

  attempted_key :
      (c : Config) (now : ℕ) (cancelled : Bool) (o : Outcome) (jitter : ℕ) (w : WorkerInfo)
      → worker_key std (after_attempt c now cancelled o jitter w).1 ≡ worker_key std w
  unfolding after_attempt
  attempted_key c now true o jitter w = refl
  attempted_key c now false o jitter w = refl

  progress_key : (p : Progress) (w : WorkerInfo) → worker_key std (progress p w) ≡ worker_key std w
  unfolding begin_run mark_worker_established worker_heartbeat_tick
  progress_key (begins now) w = refl
  progress_key (established now) w = refl
  progress_key (heartbeat now) w = refl
  progress_key (attempted c now cancelled o jitter) w = attempted_key c now cancelled o jitter w

  progress_if_key :
      (b : Bool) (p : Progress) (w : WorkerInfo)
      → worker_key std (if b then progress p w else w) ≡ worker_key std w
  progress_if_key true p w = progress_key p w
  progress_if_key false p w = refl

  pub Step-IsKeyed : {d e : Daemon} → Step std d e → IsKeyed std d.workers → IsKeyed std e.workers
  unfolding delete_worker run_tick tick_workers
  Step-IsKeyed (starts now c d) t = start_worker-IsKeyed std now c d t
  Step-IsKeyed (cancels o d) t = subst (IsKeyed std) (sym (cancel_handle_keeps o d).0) t
  Step-IsKeyed (deletes now key d) t = delete-IsKeyed key d.workers t
  Step-IsKeyed (deletes_listed now listed d) t = delete_all-IsKeyed listed d.workers t
  Step-IsKeyed (registers now ps d) t = handle_register-IsKeyed std now ps d t
  Step-IsKeyed (empties d) t = record { one_each = tt; keys = tt }
  Step-IsKeyed (ticks now bytes d) t =
      map_entries-IsKeyed _ d.workers (λ k w. tick_key now (bytes k) w) t
  Step-IsKeyed (progresses key p d) t =
      map_entries-IsKeyed _ d.workers (λ k w. progress_if_key (str_eq k key) p w) t

  -- A keyed table (one worker for each key, each under the key of its fields) stays keyed in
  -- every sequence of steps: starts, cancellations, deletions, registrations, ticks and the
  -- changes that workers make to themselves, in any order.
  pub Reach-IsKeyed : {d e : Daemon} → Reach std d e → IsKeyed std d.workers → IsKeyed std e.workers
  Reach-IsKeyed (here d) t = t
  Reach-IsKeyed (next s r) t = Reach-IsKeyed r (Step-IsKeyed s t)
