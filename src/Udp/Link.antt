-- ===== src/Udp/Link.antt =====
-- What the proxy uses and does not implement: the data channels of golang.org/x/crypto/ssh, the
-- datagrams of quic-go, and the sockets to the local service. `W` is the state of all these.
use nssh.Base.{ℕ, Bool, Option, List}

-- p.ch, or an element of p.chs
pub data Channel : Type 0 where
  main : Channel
  shard : ℕ → Channel

-- The Bool of a write says that it returned no error.
pub record Link (W : Type 0) : Type 0 where
  pub write_channel : Channel → List ℕ → W → Bool × W
  pub send_datagram : List ℕ → W → Bool × W
  pub dial_local : W → Option ℕ × W
  pub write_uplink : ℕ → List ℕ → W → Bool × W
  pub close_uplink : ℕ → W → W
