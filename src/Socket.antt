-- ===== src/Socket.antt =====
-- The local socket between the commands and the daemon: the request with its key, one connection on
-- each side (daemon/transport_common.go, daemon/transport_unix.go).
pub mod Start
pub mod Served
pub mod Started
mod Runs
use nssh.Base.{ℕ, Bool, true, false, Option, none, some, if◌then◌else◌}
use nssh.Base.Int.{ℤ}
use nssh.Base.Text.{String, str_eq, split_at, ◌<>◌}
use nssh.Config.{Stdlib}
use nssh.Daemon.Params.{Params}

pub record Request : Type 0 where
  pub cmd : ℕ
  pub params : Params
  pub timestamp : ℤ
  pub key : String

-- json.NewEncoder(conn).Encode and json.NewDecoder(conn).Decode of a request, and sha256.Sum256 in
-- hexadecimal digits.
pub record Coding : Type 0 where
  pub encode : Request → String
  pub decode : String → Option Request
  pub sha256_hex : String → String

abbrev pub takeover_key : String
takeover_key = "nssh_takeover_secret_v1"

unfoldable pub encrypt_key_with_time : Stdlib → Coding → ℤ → String
encrypt_key_with_time std c timestamp = c.sha256_hex (takeover_key <> ("_" <> std.itoa timestamp))

unfoldable pub verify_key_with_time : Stdlib → Coding → ℤ → String → Bool
unfolding encrypt_key_with_time
verify_key_with_time std c timestamp key = str_eq (encrypt_key_with_time std c timestamp) key

-- The handler that StartServer is given; `S` is the state of the daemon.
abbrev pub Handler : Type 0 → Type 0
Handler S = ℕ → Params → String → ℤ → S → String × S

-- What the server writes before it closes the connection; nothing, if it cannot read the request.
unfoldable pub handle_request : {S : Type 0} → Handler S → Option Request → S → String × S
handle_request handler none s = ("", s)
handle_request handler (some req) s =
    let (response, s') = handler req.cmd req.params req.key req.timestamp s in
    (response <> "\n", s')

unfoldable pub handle_connection : {S : Type 0} → Coding → Handler S → String → S → String × S
unfolding handle_request
handle_connection c handler input s = handle_request handler (c.decode input) s

-- ReadString('\n') without the newline; `none` is its error at the end of the stream.
unfoldable pub read_line : String × Option String → Option String
read_line (line, none) = none
read_line (line, some rest) = some line

-- The other side of the socket: whether somebody accepts, and what comes back for what is sent.
pub record Peer (S : Type 0) : Type 0 where
  pub accepts : S → Bool
  pub exchange : String → S → String × S

abbrev pub with_key : Stdlib → Coding → ℕ → Params → ℤ → Request
with_key std c cmd ps timestamp = record {
  cmd = cmd;
  params = ps;
  timestamp = timestamp;
  key = encrypt_key_with_time std c timestamp;
}

-- `none` is an error.
unfoldable pub send_command :
    {S : Type 0} → Stdlib → Coding → Peer S → ℕ → Params → ℤ → S → Option String × S
unfolding read_line encrypt_key_with_time split_at
send_command std c peer cmd ps timestamp s =
    let (out, s') = peer.exchange (c.encode (with_key std c cmd ps timestamp)) s in
    if peer.accepts s then (read_line (split_at b'\n' out), s') else (none, s)
