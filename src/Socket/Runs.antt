-- ===== src/Socket/Runs.antt =====
-- A command for the daemon's version, and daemons that start together.
use nssh.Base.{◌≡◌, ◌≢◌, refl, arith, true, some, []}
use nssh.Base.Int.{pos}
use nssh.Base.Text.{String, lacks}
use nssh.Daemon.Dispatch.{Answer, Here, handle_transport_command}
use nssh.Daemon.Sample.{strings, no_workers, sample_config}
use nssh.Socket.{Coding, send_command, Request, encrypt_key_with_time}
use nssh.Base.Table.{find}
use nssh.Daemon.Worker.{config_key, new_worker}
use nssh.Daemon.Params.{build_start_params, validate_config, server_host_error, local_host_ok}
use nssh.Socket.Started.{arrived, start_reaches_worker}
use nssh.Socket.Served.{daemon_peer, send_command-eq-handle}
use nssh.Socket.Start.{System, File, absent, begun, listening, Reach, here, next, calls, advance}
use nssh.Socket.Start.Single.{Reach-IsSingle}

abbrev fixed : Request
fixed = record { cmd = 0x0E; params = []; timestamp = pos 30; key = "nssh_takeover_secret_v1_30" }

-- It codes this one request, and its digest is the text itself.
abbrev coding : Coding
coding = record { encode = λ r. "request"; decode = λ t. some fixed; sha256_hex = λ t. t }

abbrev print : Answer → String
print a = "answer"

abbrev version : Here
version = record { now = 5; later = 6; pid = 99; version = "dev" }

send_command-eq-handle_example :
    send_command strings coding
      (daemon_peer strings coding print version)
      0x0E
      []
      (pos 30)
      no_workers
    ≡ (
      some (print (handle_transport_command strings version true 0x0E [] no_workers).0),
      no_workers,
    )
unfolding handle_transport_command encrypt_key_with_time lacks
send_command-eq-handle_example =
    send_command-eq-handle strings coding print version 0x0E [] (pos 30) no_workers refl refl

abbrev machine : File → System
machine file = record { file = file; stage = λ p. begun }

abbrev one_up : System
one_up = advance 4 (advance 4 (advance 4 (machine absent)))

abbrev one_up_reached : Reach (machine absent) one_up
one_up_reached = next (calls 4 (machine absent)) (
    next (calls 4 (advance 4 (machine absent)))
      (next (calls 4 (advance 4 (advance 4 (machine absent)))) (here one_up)))

Reach-IsSingle_example : one_up.stage 5 ≢ listening
unfolding advance
Reach-IsSingle_example =
    Reach-IsSingle 4 5 (λ e. cc) (λ r. refl) one_up_reached (λ e. cc, (λ e. cc, (λ e. cc, tt)))
      (λ e. omega arith) refl

abbrev start_request : Request
start_request = record {
  cmd = 0x01;
  params = build_start_params strings sample_config;
  timestamp = pos 30;
  key = "nssh_takeover_secret_v1_30";
}

abbrev start_coding : Coding
start_coding = record {
  encode = λ r. "start";
  decode = λ t. some start_request;
  sha256_hex = λ t. t;
}

start_reaches_worker_example :
    find
      (config_key strings sample_config)
      (send_command strings start_coding
        (daemon_peer strings start_coding print version)
        0x01
        (build_start_params strings sample_config)
        (pos 30)
        no_workers).1.workers
    ≡ some (new_worker strings 5 0 (arrived strings sample_config))
unfolding encrypt_key_with_time lacks validate_config server_host_error local_host_ok
start_reaches_worker_example =
    start_reaches_worker strings start_coding print version sample_config (pos 30) no_workers refl
      refl refl refl refl refl (omega arith) refl refl
