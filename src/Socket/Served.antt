-- ===== src/Socket/Served.antt =====
-- A command on its way: the socket's two sides around the daemon's handler (daemon/daemon.go).
use nssh.Base.{ℕ, ◌≡◌, refl, ap, ◌∙◌, true, some}
use nssh.Base.Int.{ℤ}
use nssh.Base.Text.{String, ◌<>◌, split_at, lacks}
use nssh.Base.Split.{split_at-append, front}
use text.Mathlib.TextLemmas.{append_assoc}
use text.Mathlib.TextPositions.{eq_refl}
use nssh.Config.{Stdlib}
use nssh.Daemon.Params.{Params}
use nssh.Daemon.State.{Daemon}
use nssh.Daemon.Dispatch.{Answer, Here, handle_transport_command}
use nssh.Socket.{Coding, Handler, Peer, handle_request, handle_connection, send_command, read_line}
use nssh.Socket.{encrypt_key_with_time, verify_key_with_time, with_key}

-- json.Marshal of the response, and the newline that every handler adds.
unfoldable pub daemon_handler : Stdlib → Coding → (Answer → String) → Here → Handler Daemon
unfolding handle_transport_command verify_key_with_time
daemon_handler std c marshal h cmd ps key timestamp d =
    let (answer, d') =
      handle_transport_command std h (verify_key_with_time std c timestamp key) cmd ps d in
    (marshal answer <> "\n", d')

-- The daemon behind its socket.
unfoldable pub daemon_peer : Stdlib → Coding → (Answer → String) → Here → Peer Daemon
unfolding handle_connection daemon_handler
daemon_peer std c marshal h = record {
  accepts = λ d. true;
  exchange = handle_connection c (daemon_handler std c marshal h);
}

-- The key that send_command makes is the one that the daemon expects.
verify-encrypt :
    (std : Stdlib) (c : Coding) (timestamp : ℤ)
    → verify_key_with_time std c timestamp (encrypt_key_with_time std c timestamp) ≡ true
unfolding verify_key_with_time
verify-encrypt std c timestamp = eq_refl (encrypt_key_with_time std c timestamp)

-- A line without a newline in it is read whole, whatever follows.
read_line-append :
    (line rest : String)
    → lacks b'\n' line ≡ true
    → read_line (split_at b'\n' ((line <> "\n") <> rest)) ≡ some line
unfolding read_line
read_line-append line rest h =
    ap (λ t. read_line (split_at b'\n' t))
      (append_assoc line "\n" rest ∙ ap (λ t. line <> t) (front "\n" rest))
    ∙ ap read_line (split_at-append b'\n' "\n" line rest refl h)

-- A command sent through the socket to the daemon gets, as one line, the response that the
-- dispatcher gives when the key of the request is accepted, and leaves the daemon as the
-- dispatcher does, if the JSON of this request can be read back and the JSON of this response has
-- no newline in it.
pub send_command-eq-handle :
    (std : Stdlib) (c : Coding) (marshal : Answer → String) (h : Here) (cmd : ℕ) (ps : Params)
    (timestamp : ℤ) (d : Daemon)
    → c.decode (c.encode (with_key std c cmd ps timestamp)) ≡ some (with_key std c cmd ps timestamp)
    → lacks b'\n' (marshal (handle_transport_command std h true cmd ps d).0) ≡ true
    → send_command std c (daemon_peer std c marshal h) cmd ps timestamp d ≡ (
      some (marshal (handle_transport_command std h true cmd ps d).0),
      (handle_transport_command std h true cmd ps d).1,
    )
unfolding send_command daemon_peer handle_connection daemon_handler handle_request
send_command-eq-handle std c marshal h cmd ps timestamp d coded one_line =
    rw (coded, verify-encrypt std c timestamp, read_line-append _ "\n" one_line) refl
