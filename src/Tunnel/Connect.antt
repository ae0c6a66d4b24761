-- ===== src/Tunnel/Connect.antt =====
-- ConnectAndTunnel (base_tunnel/tunnel.go): the stages up to the forwards. A stage that fails closes
-- what the source closes there, and ends the function.
pub mod Loop
pub mod Stages
pub mod Ends
pub mod Sample
mod Runs
use nssh.Base.{
  ℕ, Bool, true, false, Option, none, some, List, [], ◌∷◌, ◌++◌, ◌&&◌, ◌||◌, not, if◌then◌else◌,
}
use nssh.Base.Text.{String, str_eq, ◌<>◌}
use nssh.Base.Int.{ℤ, to_uint32}
use nssh.Base.Table.{Table}
use nssh.Config.{Config, Stdlib}
use nssh.Stats.{Stats, record_connection, record_failure}
use nssh.Transport.{Network, TransportCacheEntry}
use nssh.Tunnel.Requests.{Reply, reply, request_error, timed_out, tcpip_forward}
use nssh.Tunnel.Requests.{SshClient, ForwardError, negotiate_compress, declare_tcp_forward}
use nssh.Udp.Session.{request_payload}
use nssh.Udp.Session.{Client, Setup, SetupError, session, failed, setup_udp_forward}

pub data Auth : Type 0 where
  password public_key : String → Auth

-- What the function calls: the clock, the reading of the key (`none`: not readable; the Bool says
-- whether it parses), the dialling, the SSH handshake, whether the connection is a QUIC stream and has
-- datagrams, and the opening of the data plane's channel.
pub record Outside (W : Type 0) : Type 0 where
  pub now : W → ℕ
  pub read_key : String → W → Option Bool × W
  pub network : Network W
  pub handshake : List Auth → W → Bool × W
  pub is_quic_stream : W → Bool
  pub supports_datagrams : W → Bool
  pub data_plane_enabled : Bool
  pub open_data_plane : W → Bool × W
  pub ssh : SshClient W
  pub udp : Client W

pub data TunnelError : Type 0 where
  key_not_read key_not_parsed dial_failed handshake_failed negotiation_timeout : TunnelError
  tcp_not_forwarded : ForwardError → TunnelError
  udp_not_forwarded : SetupError → TunnelError
  connection_closed : Bool → TunnelError
  heartbeat_failed : TunnelError
  udp_ping_failed : ℕ → TunnelError

-- The flags record which calls have been made: of client.Close, of transportConn.Close, of
-- OnTunnelEstablished; whether the handshake was done. `tcp_accepted` and `udp_accepted` record what the
-- server has answered to the requests of the forwards, whatever the code makes of the answer.
pub record Tunnel (W : Type 0) : Type 0 where
  pub stats : Stats
  pub cache : Table TransportCacheEntry
  pub compress : Bool
  pub data_plane : Bool
  pub shaken : Bool
  pub client_closed : Bool
  pub transport_closed : Bool
  pub tcp_accepted : Bool
  pub udp_accepted : Bool
  pub established : Bool
  pub world : W

-- An error of a stage ends the function.
abbrev pub Stage : Type 0 → Type 0
Stage W = Option TunnelError × Tunnel W

infixl 4 ◌>=>◌
abbrev pub ◌>=>◌ : {W : Type 0} → Stage W → (Tunnel W → Stage W) → Stage W
(none, t) >=> k = k t
(some e, t) >=> k = (some e, t)

abbrev pub auth_methods : Config → List Auth
auth_methods c =
    (if str_eq c.password "" then [] else (password c.password ∷ []))
    ++ (if str_eq c.ssh_key_path "" then [] else (public_key c.ssh_key_path ∷ []))

abbrev pub server_addr : Stdlib → Config → String
server_addr std c = c.server_host <> (":" <> std.itoa c.server_port)

-- The server's own answers to "tcpip-forward" and to "udp-forward".
abbrev pub is_accepted : Reply → Bool
is_accepted (reply accepted resp) = accepted
is_accepted request_error = false
is_accepted timed_out = false

abbrev pub tcp_answer : {W : Type 0} → SshClient W → ℤ → W → Bool
tcp_answer ssh port w =
    is_accepted (ssh.send_request (tcpip_forward (to_uint32 port)) (ssh.register w).1).0

abbrev pub is_accepted_udp : Option (Bool × List ℕ) → Bool
is_accepted_udp none = false
is_accepted_udp (some (accepted, resp)) = accepted

abbrev pub udp_answer : {W : Type 0} → Client W → ℕ → Option Bool → W → Bool
udp_answer udp port dc w = is_accepted_udp (udp.send_request (request_payload port dc) w).0

module _ {W : Type 0} (out : Outside W) where
  -- RecordFailure, and the error.
  unfoldable pub fails : TunnelError → Tunnel W → Stage W
  unfolding record_failure
  fails e t = (some e, record t { stats = record_failure (out.now t.world) t.stats })

  -- The same behind client.Close and transportConn.Close.
  unfoldable pub closes : TunnelError → Tunnel W → Stage W
  unfolding fails
  closes e t = fails e (record t { client_closed = true; transport_closed = true })

  unfoldable pub key_result : Option Bool → Tunnel W → Stage W
  unfolding fails
  key_result none t = fails key_not_read t
  key_result (some true) t = (none, t)
  key_result (some false) t = fails key_not_parsed t

  unfoldable pub load_key : Config → Tunnel W → Stage W
  unfolding key_result
  load_key c t =
      let (o, w) = out.read_key c.ssh_key_path t.world in
      if str_eq c.ssh_key_path "" then (none, t) else key_result o (record t { world = w })

  -- `used` is the transport's mode.
  unfoldable pub shake_hands : Config → Tunnel W → Stage W
  unfolding fails record_connection
  shake_hands c t =
      let (shaken, w) = out.handshake (auth_methods c) t.world in
      if shaken
      then (
        none,
        record t { shaken = true; world = w; stats = record_connection (out.now w) t.stats },
      )
      else fails handshake_failed (record t { transport_closed = true; world = w })

  -- (enabled, ok) = false, false: it is not known what the server does.
  unfoldable pub use_compression : Bool × Bool → Tunnel W → Stage W
  unfolding fails
  use_compression (enabled, true) t = (none, record t { compress = enabled })
  use_compression (enabled, false) t = fails negotiation_timeout (record t { client_closed = true })

  unfoldable pub negotiate_if : Config → Tunnel W → Stage W
  unfolding negotiate_compress use_compression
  negotiate_if c t =
      let (answer, w) = negotiate_compress out.ssh t.world in
      if c.compress then use_compression answer (record t { world = w }) else (none, t)

  unfoldable pub start_data_plane : String → Tunnel W → Stage W
  start_data_plane used t =
      let (opened, w) = out.open_data_plane t.world in
      if str_eq used "quic" && (out.data_plane_enabled && out.is_quic_stream t.world)
      then (none, record t { data_plane = opened; world = w })
      else (none, t)

  -- The connection as the datagram transport, `none` for nil.
  abbrev pub udp_datagram : String → Tunnel W → Option Bool
  udp_datagram used t =
      if str_eq used "quic" && out.supports_datagrams t.world then some true else none

  -- declareTCPForward has closed the client already.
  unfoldable pub tcp_result : Option ForwardError → Tunnel W → Stage W
  unfolding closes
  tcp_result none t = (none, t)
  tcp_result (some e) t = closes (tcp_not_forwarded e) t

  unfoldable pub forward_tcp : Config → Tunnel W → Stage W
  unfolding declare_tcp_forward tcp_result
  forward_tcp c t =
      let (e, w) = declare_tcp_forward out.ssh c.remote_port t.world in
      tcp_result e (record t { world = w; tcp_accepted = tcp_answer out.ssh c.remote_port t.world })

  unfoldable pub udp_result : Setup → Tunnel W → Stage W
  unfolding closes
  udp_result (session s) t = (none, t)
  udp_result (failed e) t = closes (udp_not_forwarded e) t

  unfoldable pub forward_udp : Config → Option Bool → Tunnel W → Stage W
  unfolding setup_udp_forward udp_result
  forward_udp c dc t =
      let (r, w) =
        setup_udp_forward out.udp (to_uint32 c.remote_port) c.udp_max_packet_size dc t.world in
      udp_result r (record t {
        world = w;
        udp_accepted = udp_answer out.udp (to_uint32 c.remote_port) dc t.world;
      })

  unfoldable pub forward : Config → Option Bool → Tunnel W → Stage W
  unfolding forward_tcp forward_udp
  forward c dc t =
      if str_eq c.proto "udp"
      then forward_udp c dc t
      else if str_eq c.proto "both"
      then forward_tcp c t >=> forward_udp c dc
      else forward_tcp c t
