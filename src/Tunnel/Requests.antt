-- ===== src/Tunnel/Requests.antt =====
-- The requests that a tunnel sends to the server (base_tunnel/tunnel.go, base_tunnel/compress.go). Each
-- waits for the reply in a `select` with a time-out.
use nssh.Base.{ℕ, Bool, true, false, Option, none, some, List, not, if◌then◌else◌}
use nssh.Base.Text.{String}
use nssh.Base.Int.{ℤ, to_uint32}
use nssh.Config.{Stdlib}
use nssh.Tunnel.{Ping, answered, unsupported, failed, PingError, parse_udp_ping_reply}

-- What the `select` sees: the server's answer with its data, an error of SendRequest, or the time-out.
pub data Reply : Type 0 where
  reply : Bool → List ℕ → Reply
  request_error timed_out : Reply

-- The requests, with what they carry.
pub data Request : Type 0 where
  compress_request keepalive : Request
  tcpip_forward : ℕ → Request
  udp_ping : List ℕ → Request

-- The SSH client and what stands behind it: `register` is HandleChannelOpen, which gives nil for an
-- error, and `nonce` is rand.Read of 16 bytes.
pub record SshClient (W : Type 0) : Type 0 where
  pub send_request : Request → W → Reply × W
  pub register : W → Bool × W
  pub nonce : W → Option (List ℕ) × W

-- (enabled, ok)
unfoldable pub negotiated : Reply → Bool × Bool
negotiated (reply accepted resp) = (accepted, true)
negotiated request_error = (false, true)
negotiated timed_out = (false, false)

-- The answer, or an error.
unfoldable pub forward_reply : Reply → Option Bool
forward_reply (reply accepted resp) = some accepted
forward_reply request_error = none
forward_reply timed_out = none

-- Whether there was no error.
unfoldable pub keepalive_reply : Reply → Bool
keepalive_reply (reply accepted resp) = true
keepalive_reply request_error = false
keepalive_reply timed_out = false

abbrev pub ping_verdict : Option PingError → Ping
ping_verdict none = answered
ping_verdict (some e) = failed

unfoldable pub ping_reply : Stdlib → String → List ℕ → Reply → Ping
unfolding parse_udp_ping_reply
ping_reply std proto nonce (reply true resp) =
    ping_verdict (parse_udp_ping_reply std nonce resp proto)
ping_reply std proto nonce (reply false resp) = unsupported
ping_reply std proto nonce request_error = failed
ping_reply std proto nonce timed_out = failed

pub data ForwardError : Type 0 where
  not_registered not_sent : ForwardError
  rejected : ℤ → ForwardError

abbrev pub forward_verdict : ℤ → Option Bool → Option ForwardError
forward_verdict port none = some not_sent
forward_verdict port (some true) = none
forward_verdict port (some false) = some (rejected port)

-- declareTCPForward closes the client where it fails; that is in `Connect`, with the other calls that
-- close it.
module _ {W : Type 0} (client : SshClient W) where
  unfoldable pub negotiate_compress : W → (Bool × Bool) × W
  unfolding negotiated
  negotiate_compress w = let (r, w') = client.send_request compress_request w in (negotiated r, w')

  unfoldable pub send_keepalive_with_timeout : W → Bool × W
  unfolding keepalive_reply
  send_keepalive_with_timeout w =
      let (r, w') = client.send_request keepalive w in (keepalive_reply r, w')

  unfoldable pub send_udp_ping_with_timeout : Stdlib → String → W → Ping × W
  unfolding ping_reply
  send_udp_ping_with_timeout std proto w =
      let (o, w') = client.nonce w in
      elim o [
        | none ↦ (failed, w')
        | some nonce ↦
            let (r, w'') = client.send_request (udp_ping nonce) w' in
            (ping_reply std proto nonce r, w'')
      ]

  unfoldable pub send_forward_request_with_timeout : ℤ → W → Option Bool × W
  unfolding forward_reply to_uint32
  send_forward_request_with_timeout port w =
      let (r, w') = client.send_request (tcpip_forward (to_uint32 port)) w in (forward_reply r, w')

  -- `none` is no error.
  unfoldable pub declare_tcp_forward : ℤ → W → Option ForwardError × W
  unfolding send_forward_request_with_timeout
  declare_tcp_forward port w =
      let (registered, w') = client.register w in
      let (answer, w'') = send_forward_request_with_timeout port w' in
      if not registered then (some not_registered, w') else (forward_verdict port answer, w'')
