-- ===== src/Transport.antt =====
-- The choice between QUIC and TCP: `dialTransport` (base_tunnel/transport.go).
pub mod Quic
pub mod Fallback
use nssh.Base.{ℕ, ◌+◌, Bool, true, false, Option, none, some, ltb, if◌then◌else◌}
use nssh.Base.Text.{String, str_eq}
use nssh.Base.Table.{Table, find, put}
use nssh.Config.{Config, Stdlib, normalize_transport}

abbrev pub quic_probe_timeout : ℕ
quic_probe_timeout = 1_000_000_000

abbrev pub quic_dial_timeout : ℕ
quic_dial_timeout = 10_000_000_000

-- 5 * time.Minute
abbrev pub quic_retry_probe_interval : ℕ
quic_retry_probe_interval = 300_000_000_000

pub record TransportCacheEntry : Type 0 where
  pub mode : String
  pub retry_quic_at : ℕ

-- Dialling an address; the Bool says that a connection was made, and `W` is the state of the network.
pub record Network (W : Type 0) : Type 0 where
  pub dial_tcp : String → W → Bool × W
  pub dial_quic : String → ℕ → W → Bool × W

-- A connection or an error, the mode that is returned with it, the cache and the network.
pub record Dialed (W : Type 0) : Type 0 where
  pub connected : Bool
  pub used : String
  pub cache : Table TransportCacheEntry
  pub network : W

abbrev pub dialed : {W : Type 0} → String → Table TransportCacheEntry → Bool × W → Dialed W
dialed mode cache (connected, w) = record {
  connected = connected;
  used = mode;
  cache = cache;
  network = w;
}

module _ {W : Type 0} (net : Network W) where
  -- The probe: what it finds out is stored.
  unfoldable pub probe : String → ℕ → Table TransportCacheEntry → W → Dialed W
  probe addr now cache w =
      let (connected, w') = net.dial_quic addr quic_probe_timeout w in
      if connected
      then record {
        connected = true;
        used = "quic";
        cache = put addr (record { mode = "quic"; retry_quic_at = 0 }) cache;
        network = w';
      }
      else dialed "tcp"
          (put addr (record { mode = "tcp"; retry_quic_at = now + quic_retry_probe_interval })
            cache)
          (net.dial_tcp addr w')

  -- The server is known to speak QUIC: TCP stands in for one failed dial.
  unfoldable pub known_quic : String → Table TransportCacheEntry → W → Dialed W
  known_quic addr cache w =
      let (connected, w') = net.dial_quic addr quic_dial_timeout w in
      let (fallback, w'') = net.dial_tcp addr w' in
      if connected
      then record { connected = true; used = "quic"; cache = cache; network = w' }
      else record {
        connected = fallback;
        used = if fallback then "tcp" else "quic";
        cache = cache;
        network = w'';
      }

  unfoldable pub dial_auto :
      String → ℕ → Table TransportCacheEntry → Option TransportCacheEntry → W → Dialed W
  unfolding probe known_quic
  dial_auto addr now cache none w = probe addr now cache w
  dial_auto addr now cache (some entry) w =
      if str_eq entry.mode "quic"
      then known_quic addr cache w
      else if ltb now entry.retry_quic_at
      then dialed "tcp" cache (net.dial_tcp addr w)
      else probe addr now cache w

  unfoldable pub dial_transport :
      Stdlib → Config → String → ℕ → Table TransportCacheEntry → W → Dialed W
  unfolding dial_auto
  dial_transport std c addr now cache w =
      let mode = normalize_transport std c.transport in
      if str_eq mode "tcp"
      then dialed "tcp" cache (net.dial_tcp addr w)
      else if str_eq mode "quic"
      then dialed "quic" cache (net.dial_quic addr quic_dial_timeout w)
      else dial_auto addr now cache (find addr cache) w
