-- ===== src/Socket/Started.antt =====
-- A start on its way from the command line to the worker's goroutine: the parameters of main.go, the
-- socket, the dispatcher, and startWorker.
use nssh.Base.{ℕ, ◌<◌, ◌≡◌, refl, ap, ◌∙◌, true, false, none, some}
use nssh.Base.Int.{ℤ, pos, pos_part}
use nssh.Base.Text.{String, lacks}
use nssh.Base.Table.{find, find-put}
use text.Mathlib.TextPositions.{eq_refl}
use nssh.Config.{Config, Stdlib, normalize_proto, normalize_transport}
use nssh.Daemon.Worker.{config_key, new_worker}
use nssh.Daemon.Params.{Params, build_start_params, config_from_start_params, validate_config}
use nssh.Daemon.Params.RoundTrip.{ReadsBack, config_from_start_params-build_start_params}
use nssh.Daemon.State.{Daemon, cancel_found, start_worker}
use nssh.Daemon.State.Owned.{cancel_found_keeps}
use nssh.Daemon.Commands.{start_config, handle_start}
use nssh.Daemon.Dispatch.{
  Answer, Here, cmd_start, run_command, command_of, handle_transport_command,
}
use nssh.Socket.{Coding, send_command, with_key}
use nssh.Socket.Served.{daemon_peer, send_command-eq-handle}

-- What the daemon makes of the configuration.
abbrev pub arrived : Stdlib → Config → Config
arrived std c = record c {
  transport = normalize_transport std c.transport;
  proto = normalize_proto std c.proto;
  max_offline_count = pos 0;
  compress = false;
  udp_socket_buffer = pos 0;
  udp_max_packet_size = pos 0;
  udp_flow_idle_timeout = pos 0;
  version = "";
}

-- The table holds the worker under its key.
find-start_worker :
    (std : Stdlib) (now : ℕ) (c : Config) (d : Daemon)
    → find (config_key std c) (start_worker std now c d).workers
      ≡ some (new_worker std now d.started c)
unfolding start_worker
find-start_worker std now c d =
    find-put (config_key std c) (config_key std c) (new_worker std now d.started c) _
    ∙ rw (eq_refl (config_key std c)) refl

find-start_config :
    (std : Stdlib) (now : ℕ) (c : Config) (d : Daemon)
    → find (config_key std c) (start_config std now c d).1.workers
      ≡ some (new_worker std now d.started c)
unfolding start_config
find-start_config std now c d =
    find-start_worker std now c (cancel_found (find (config_key std c) d.workers) d)
    ∙ ap (λ n. some (new_worker std now n c))
        (cancel_found_keeps (find (config_key std c) d.workers) d).1

handle_start_valid :
    (std : Stdlib) (now : ℕ) (ps : Params) (d : Daemon)
    → validate_config std (config_from_start_params std ps) ≡ none
    → handle_start std now ps d ≡ start_config std now (config_from_start_params std ps) d
unfolding handle_start
handle_start_valid std now ps d valid = rw (valid, handle_start) refl

find-handle_start :
    (std : Stdlib) (now : ℕ) (ps : Params) (c : Config) (d : Daemon)
    → config_from_start_params std ps ≡ c
    → validate_config std c ≡ none
    → find (config_key std c) (handle_start std now ps d).1.workers
      ≡ some (new_worker std now d.started c)
find-handle_start std now ps c d e valid =
    ap (λ r. find (config_key std c) r.1.workers)
      (handle_start_valid std now ps d (ap (validate_config std) e ∙ valid)
        ∙ ap (λ c'. start_config std now c' d) e)
    ∙ find-start_config std now c d

-- A configuration that passes validateConfig, sent with CMD_START through the socket, is
-- afterwards in the daemon: its table holds, under the key of the configuration, a new worker
-- with the next goroutine and this configuration, with protocol and transport normalised and
-- without its limit of offline marks, compression, UDP settings and version; if its reconnect
-- delay is positive, strconv reads its numbers back, the JSON of the request can be read back,
-- and that of the response has no newline in it.
pub start_reaches_worker :
    (std : Stdlib) (co : Coding) (marshal : Answer → String) (h : Here) (c : Config) (t : ℤ)
    (d : Daemon)
    → validate_config std c ≡ none
    → ReadsBack std c.server_port
    → ReadsBack std c.local_port
    → ReadsBack std c.remote_port
    → ReadsBack std c.reconnect_delay
    → ReadsBack std c.max_lifetime
    → 0 < pos_part c.reconnect_delay
    → let ps = build_start_params std c in
      co.decode (co.encode (with_key std co cmd_start ps t)) ≡ some (with_key std co cmd_start ps t)
      → lacks b'\n' (marshal (handle_transport_command std h true cmd_start ps d).0) ≡ true
      → find
          (config_key std c)
          (send_command std co (daemon_peer std co marshal h) cmd_start ps t d).1.workers
        ≡ some (new_worker std h.now d.started (arrived std c))
unfolding handle_transport_command run_command command_of validate_config
start_reaches_worker std co marshal h c t d valid sp lp rp rd ml delay coded one_line =
    let ps : Params = build_start_params std c in
    ap (λ r. find (config_key std c) r.1.workers)
      (send_command-eq-handle std co marshal h cmd_start ps t d coded one_line)
    ∙ find-handle_start std h.now ps (arrived std c) d
        (config_from_start_params-build_start_params std c sp lp rp rd ml delay) valid
