-- ===== src/Daemon/Dispatch/Reach.antt =====
-- What every command does is a sequence of the steps.
use nssh.Base.{ℕ, ◌≡◌, refl, Bool, true, false, Option, none, some, List, [], ◌∷◌, if◌then◌else◌}
use nssh.Base.{◌⊎◌, Option-cases, inl, inr}
use nssh.Base.Int.{ℤ}
use nssh.Base.Text.{String, str_eq}
use nssh.Base.Table.{Table, find}
use nssh.Config.{Stdlib}
use nssh.Daemon.Worker.{WorkerInfo, config_key}
use nssh.Daemon.Params.{Params, param, config_from_start_params, validate_config}
use nssh.Daemon.Target.{TargetSpec, parse_target_spec}
use nssh.Daemon.State.{Daemon, cancel_handle, cancel_found, stop_worker}
use nssh.Daemon.Select.{Reply, perform_action, perform_each, act_on, handle_all_processes_action}
use nssh.Daemon.Select.{handle_process_action, select, select_all}
use nssh.Daemon.Commands.{
  start_config, handle_start, cancel_all, stop_listed, stop_all, handle_stop_all,
}
use nssh.Daemon.Commands.{
  handle_list, handle_takeover, handle_takeover_stop, handle_takeover_export, values,
}
use nssh.Daemon.Dispatch.{Here, Command, run_command, handle_transport_command, command_of}
use nssh.Daemon.Dispatch.{
  start, stop, stop_all_command, restart, list, log_command, register, get_command,
}
use nssh.Daemon.Dispatch.{get_daemon_pid, get_version, stop_daemon, takeover}
use nssh.Daemon.Dispatch.Steps.{
  Step, Reach, here, next, starts, cancels, deletes, deletes_listed, registers, empties,
}

Table-cases :
    (m : Table WorkerInfo)
    → (m ≡ []) ⊎ ((x : String × WorkerInfo) × (l : Table WorkerInfo) × (m ≡ x ∷ l))
Table-cases [] = inl refl
Table-cases (x ∷ m) = inr (x, m, refl)

module _ (std : Stdlib) where
  Reach-then : {d e f : Daemon} → Reach std d e → Reach std e f → Reach std d f
  Reach-then (here d) r = r
  Reach-then (next s q) r = next s (Reach-then q r)

  one_step : {d e : Daemon} → Step std d e → Reach std d e
  one_step {d} {e} s = next s (here e)

  Reach-if :
      (b : Bool) {d : Daemon} (x y : Reply × Daemon)
      → Reach std d x.1
      → Reach std d y.1
      → Reach std d (if b then x else y).1
  Reach-if true x y p q = p
  Reach-if false x y p q = q

  cancel_found-Reach : (o : Option WorkerInfo) (d : Daemon) → Reach std d (cancel_found o d)
  unfolding cancel_found
  cancel_found-Reach none d = here d
  cancel_found-Reach (some w) d = one_step (cancels w.cancel d)

  cancel_all-Reach : (ws : List WorkerInfo) (d : Daemon) → Reach std d (cancel_all ws d)
  unfolding cancel_all
  cancel_all-Reach [] d = here d
  cancel_all-Reach (w ∷ ws) d =
      next (cancels w.cancel d) (cancel_all-Reach ws (cancel_handle w.cancel d))

  stop_worker-Reach :
      (now : ℕ) (w : WorkerInfo) (key : String) (d : Daemon) → Reach std d (stop_worker now w key d)
  unfolding stop_worker
  stop_worker-Reach now w key d =
      next (cancels w.cancel d) (one_step (deletes now key (cancel_handle w.cancel d)))

  perform_action-Reach :
      (now later : ℕ) (action : String) (w : WorkerInfo) (key : String) (d : Daemon)
      → Reach std d (perform_action std now later action w key d).1
  unfolding perform_action
  perform_action-Reach now later action w key d =
      let stops = stop_worker-Reach now w key d in
      Reach-if (str_eq action "stop") _ _ stops (
        Reach-if (str_eq action "kill") _ _ stops (
          Reach-if (str_eq action "restart") _ _ (Reach-then stops (one_step (starts later _ _)))
            (here d)))

  perform_each-Reach :
      (now later : ℕ) (action : String) (m : Table WorkerInfo) (d : Daemon)
      → Reach std d (perform_each std now later action m d).1
  unfolding perform_each
  perform_each-Reach now later action [] d = here d
  perform_each-Reach now later action ((k, w) ∷ m) d =
      Reach-then (perform_action-Reach now later action w k d)
        (perform_each-Reach now later action m (perform_action std now later action w k d).1)

  act_on-Reach :
      (now later : ℕ) (action : String) (spec : TargetSpec) (ws : List WorkerInfo) (d : Daemon)
      → Reach std d (act_on std now later action spec ws d).1
  unfolding act_on
  act_on-Reach now later action spec [] d = here d
  act_on-Reach now later action spec (w ∷ []) d = perform_action-Reach now later action w _ d
  act_on-Reach now later action spec (w ∷ v ∷ ws) d =
      Reach-if (str_eq spec.server "") _ _ (here d) (perform_action-Reach now later action w _ d)

  all_processes-Reach :
      (now later : ℕ) (action username server : String) (port : ℤ) (d : Daemon)
      → Reach std d (handle_all_processes_action std now later action username server port d).1
  unfolding handle_all_processes_action
  all_processes-Reach now later action username server port d =
      elim (Table-cases (select_all username server port d.workers)) [
        | inl e ↦ rw (e, handle_all_processes_action) (here d)
        | inr (x, m, e) ↦
            rw (e, handle_all_processes_action) (perform_each-Reach now later action (x ∷ m) d)
      ]

  handle_process_action-Reach :
      (now later : ℕ) (target action : String) (d : Daemon)
      → Reach std d (handle_process_action std now later target action d).1
  unfolding handle_process_action
  handle_process_action-Reach now later target action d =
      let spec = parse_target_spec std target in
      Reach-if (str_eq spec.mode "all") _ _
        (all_processes-Reach now later action spec.username spec.server spec.server_port d)
        (act_on-Reach now later action spec (select spec d.workers) d)

  handle_start-Reach :
      (now : ℕ) (ps : Params) (d : Daemon) → Reach std d (handle_start std now ps d).1
  unfolding handle_start start_config
  handle_start-Reach now ps d =
      let c = config_from_start_params std ps in
      elim (Option-cases (validate_config std c)) [
        | inl e ↦
            rw (e, handle_start)
              (Reach-then (cancel_found-Reach (find (config_key std c) d.workers) d)
                (one_step (starts now c _)))
        | inr (bad, e) ↦ rw (e, handle_start) (here d)
      ]

  stop_all-Reach : (now : ℕ) (m : Table WorkerInfo) (d : Daemon) → Reach std d (stop_all now m d).1
  unfolding stop_all stop_listed
  stop_all-Reach now [] d = here d
  stop_all-Reach now (e ∷ es) d =
      Reach-then (cancel_all-Reach (values (e ∷ es)) d) (one_step (deletes_listed now (e ∷ es) _))

  handle_takeover-Reach :
      (verified : Bool) (ps : Params) (d : Daemon) → Reach std d (handle_takeover verified ps d).1
  unfolding handle_takeover handle_takeover_stop handle_takeover_export
  handle_takeover-Reach verified ps d =
      Reach-if verified _ _
        (Reach-if (str_eq (param ps "action") "stop") _ _
          (Reach-then (cancel_all-Reach (values d.workers) d) (one_step (empties _))) (here d))
        (here d)

  run_command-Reach :
      (h : Here) (verified : Bool) (ps : Params) (o : Option Command) (d : Daemon)
      → Reach std d (run_command std h verified ps o d).1
  unfolding run_command handle_stop_all handle_list
  run_command-Reach h verified ps (some start) d = handle_start-Reach h.now ps d
  run_command-Reach h verified ps (some stop) d =
      handle_process_action-Reach h.now h.later _ "stop" d
  run_command-Reach h verified ps (some stop_all_command) d = stop_all-Reach h.now d.workers d
  run_command-Reach h verified ps (some restart) d =
      handle_process_action-Reach h.now h.later _ "restart" d
  run_command-Reach h verified ps (some list) d = here d
  run_command-Reach h verified ps (some log_command) d = here d
  run_command-Reach h verified ps (some register) d = one_step (registers h.now ps d)
  run_command-Reach h verified ps (some get_command) d = here d
  run_command-Reach h verified ps (some get_daemon_pid) d = here d
  run_command-Reach h verified ps (some get_version) d = here d
  run_command-Reach h verified ps (some stop_daemon) d = here d
  run_command-Reach h verified ps (some takeover) d = handle_takeover-Reach verified ps d
  run_command-Reach h verified ps none d = here d

  -- What a command does to the daemon, whatever its number and parameters are, is a sequence of
  -- the steps.
  pub handle_transport_command-Reach :
      (h : Here) (verified : Bool) (cmd : ℕ) (ps : Params) (d : Daemon)
      → Reach std d (handle_transport_command std h verified cmd ps d).1
  unfolding handle_transport_command
  handle_transport_command-Reach h verified cmd ps d =
      run_command-Reach h verified ps (command_of cmd) d
