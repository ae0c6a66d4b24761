-- ===== src/Tunnel/Connect/Loop.antt =====
-- ConnectAndTunnel as a whole: the stages, one behind the other, and the loop that waits.
use nssh.Base.{Bool, true, false, Option, none, some, List, [], ◌∷◌, if◌then◌else◌}
use nssh.Base.Text.{String}
use nssh.Base.Table.{Table}
use nssh.Config.{Config, Stdlib}
use nssh.Stats.{Stats, record_disconnection}
use nssh.Transport.{Dialed, TransportCacheEntry, dial_transport}
use nssh.Tunnel.{Beat, SelfCheck, heartbeat, alive, lost, unhealthy}
use nssh.Tunnel.Requests.{send_keepalive_with_timeout, send_udp_ping_with_timeout}
use nssh.Tunnel.Connect.{
  Outside, Tunnel, TunnelError, Stage, fails, load_key, shake_hands, negotiate_if,
}
use nssh.Tunnel.Connect.{start_data_plane, udp_datagram, forward, server_addr, ◌>=>◌, dial_failed}
use nssh.Tunnel.Connect.{connection_closed, heartbeat_failed, udp_ping_failed}

-- What the loop waits for: the user's cancellation, the end of the connection (with an error or not), a
-- tick of the heartbeat.
pub data Wakeup : Type 0 where
  cancelled : Wakeup
  closed : Bool → Wakeup
  tick : Wakeup

-- `none` in `returned` is the nil error.
pub data Outcome (W : Type 0) : Type 0 where
  running : SelfCheck → Tunnel W → Outcome W
  returned : Option TunnelError → Tunnel W → Outcome W

abbrev pub and_serve : {W : Type 0} → Stage W → (Tunnel W → Outcome W) → Outcome W
and_serve (none, t) k = k t
and_serve (some e, t) k = returned (some e) t

abbrev pub fresh_tunnel : {W : Type 0} → Stats → Table TransportCacheEntry → W → Tunnel W
fresh_tunnel stats cache w = record {
  stats = stats;
  cache = cache;
  compress = false;
  data_plane = false;
  shaken = false;
  client_closed = false;
  transport_closed = false;
  tcp_accepted = false;
  udp_accepted = false;
  established = false;
  world = w;
}

module _ {W : Type 0} (out : Outside W) (std : Stdlib) (c : Config) where
  unfoldable pub dial : Tunnel W → Dialed W
  unfolding dial_transport
  dial t = dial_transport out.network std c (server_addr std c) (out.now t.world) t.cache t.world

  -- The stages behind the dialling.
  unfoldable pub establish : String → Tunnel W → Stage W
  unfolding shake_hands negotiate_if start_data_plane forward
  establish used t =
      shake_hands out c t
      >=> negotiate_if out c
      >=> start_data_plane out used
      >=> (λ t'. forward out c (udp_datagram out used t') t')
      >=> (λ t'. (none, record t' { established = true }))

  unfoldable pub dial_result : Dialed W → Tunnel W → Stage W
  unfolding fails establish
  dial_result d t =
      let t' = record t { cache = d.cache; world = d.network } in
      if d.connected then establish d.used t' else fails out dial_failed t'

  unfoldable pub connect : Tunnel W → Stage W
  unfolding load_key dial dial_result
  connect t = load_key out c t >=> (λ t'. dial_result (dial t') t')

  -- The end of the loop: both are closed, and RecordDisconnection.
  unfoldable pub disconnects : Option TunnelError → Tunnel W → Outcome W
  unfolding record_disconnection
  disconnects e t = returned e (record t {
    client_closed = true;
    transport_closed = true;
    stats = record_disconnection (out.now t.world) t.stats;
  })

  unfoldable pub beat_result : Beat → Tunnel W → (SelfCheck → Tunnel W → Outcome W) → Outcome W
  unfolding disconnects
  beat_result (alive s) t k = k s t
  beat_result lost t k = disconnects (some heartbeat_failed) t
  beat_result (unhealthy n) t k = disconnects (some (udp_ping_failed n)) t

  unfoldable pub serve : List Wakeup → SelfCheck → Tunnel W → Outcome W
  unfolding beat_result disconnects heartbeat send_keepalive_with_timeout send_udp_ping_with_timeout
  serve [] s t = running s t
  serve (cancelled ∷ ws) s t = disconnects none t
  serve (closed with_error ∷ ws) s t = disconnects (some (connection_closed with_error)) t
  serve (tick ∷ ws) s t =
      let (beat, w) =
        heartbeat (send_keepalive_with_timeout out.ssh)
          (send_udp_ping_with_timeout out.ssh std c.proto) s t.world in
      beat_result beat (record t { world = w }) (serve ws)

  unfoldable pub connect_and_tunnel :
      List Wakeup → Stats → Table TransportCacheEntry → W → Outcome W
  unfolding connect serve
  connect_and_tunnel ws stats cache w =
      and_serve (connect (fresh_tunnel stats cache w))
        (serve ws (record { disabled = false; failures = 0 }))
