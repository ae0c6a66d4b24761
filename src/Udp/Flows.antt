-- ===== src/Udp/Flows.antt =====
-- The flows of a proxy (base_tunnel/udp_proxy.go): one connected socket for each flow id that the
-- server has named. Each function is what one goroutine does without waiting; `now` is the clock.
-- `sync.Map.Range` visits the entries in no fixed order, so the order of closing is not modelled.
pub mod Invariant
pub mod Timeouts
mod Runs
use nssh.Base.{ℕ, zero, suc, ◌+◌, ◌-◌, Bool, true, false, Option, none, some, List, [], ◌∷◌}
use nssh.Base.{ltb, leb, ◌==◌, ◌||◌, if◌then◌else◌, not}
use nssh.Base.Map.{Map, lookup, insert, without}
use nssh.Udp.Frame.{UdpFrameMeta, udp_frame_flag_keepalive}
use nssh.Udp.Link.{Link}
use nssh.Udp.Proxy.{UdpProxy, UdpClientFlow, second}
use nssh.Udp.Send.{write_frame_v2, write_datagram}

abbrev pub udp_flow_keepalive_idle : ℕ
udp_flow_keepalive_idle = 90_000_000_000

abbrev pub udp_flow_keepalive_max : ℕ
udp_flow_keepalive_max = 30

abbrev pub touch : ℕ → UdpClientFlow → UdpClientFlow
touch now f = record f { last_seen = now }

-- p.flows.Load(flowID), and lastSeen.Store on what it finds
unfoldable pub refresh : UdpProxy → ℕ → ℕ → UdpProxy
refresh p now flow_id = elim (lookup flow_id p.flows) [
  | none ↦ p
  | some f ↦ record p { flows = insert flow_id (touch now f) p.flows }
]

unfoldable pub new_flow : ℕ → ℕ → ℕ → UdpClientFlow
new_flow flow_id uplink now = record {
  flow_id = flow_id;
  uplink = uplink;
  last_seen = now;
  keepalives = 0;
}

abbrev pub keepalive_meta : UdpClientFlow → UdpFrameMeta
keepalive_meta f = record {
  flow_id = f.flow_id;
  flags = udp_frame_flag_keepalive;
  frag_id = 0;
  frag_idx = 0;
  frag_cnt = 1;
}

-- The rest of the table behind a flow that is kept or removed.
abbrev pub keep : ℕ → Option UdpClientFlow → Map UdpClientFlow → Map UdpClientFlow
keep k none m = m
keep k (some f) m = (k, f) ∷ m

module _ {W : Type 0} (link : Link W) where
  -- f.remove(), which runs once for a flow. A flow leaves the map in no other way, so it has been
  -- removed exactly if the map no longer holds its socket.
  unfoldable pub remove : UdpProxy → UdpClientFlow → W → UdpProxy × W
  remove p f w = elim (lookup f.flow_id p.flows) [
    | none ↦ (p, w)
    | some g ↦
        if g.uplink == f.uplink
        then (record p { flows = without f.flow_id p.flows }, link.close_uplink f.uplink w)
        else (p, w)
  ]

  -- The end of getOrCreateFlow, LoadOrStore: a flow that another reader has stored meanwhile wins,
  -- and the new socket is closed.
  unfoldable pub store_flow : UdpProxy → ℕ → ℕ → ℕ → W → UdpClientFlow × UdpProxy × W
  unfolding new_flow
  store_flow p now flow_id uplink w = elim (lookup flow_id p.flows) [
    | some actual ↦ (actual, p, link.close_uplink uplink w)
    | none ↦
        let flow = new_flow flow_id uplink now in
        (flow, record p { flows = insert flow_id flow p.flows }, w)
  ]

  -- The flow is not there yet. `none` is nil: the local service cannot be reached.
  unfoldable pub dial_flow : UdpProxy → ℕ → ℕ → W → Option UdpClientFlow × UdpProxy × W
  unfolding store_flow
  dial_flow p now flow_id w =
      let (dialed, w') = link.dial_local w in
      elim dialed [
        | none ↦ (none, p, w')
        | some uplink ↦
            let (flow, p', w'') = store_flow p now flow_id uplink w' in (some flow, p', w'')
      ]

  unfoldable pub get_or_create_flow : UdpProxy → ℕ → ℕ → W → Option UdpClientFlow × UdpProxy × W
  unfolding dial_flow refresh
  get_or_create_flow p now flow_id w = elim (lookup flow_id p.flows) [
    | some f ↦ (some (touch now f), refresh p now flow_id, w)
    | none ↦ dial_flow p now flow_id w
  ]

  -- lastSeen < now - idleTimeout: the flow is removed.
  unfoldable pub sweep_flows : ℕ → ℕ → Map UdpClientFlow → W → Map UdpClientFlow × W
  sweep_flows idle now [] w = ([], w)
  sweep_flows idle now ((k, f) ∷ m) w =
      let (rest, w') = sweep_flows idle now m w in
      if ltb (f.last_seen + idle) now
      then (rest, link.close_uplink f.uplink w')
      else ((k, f) ∷ rest, w')

  unfoldable pub sweep_idle_flows : UdpProxy → ℕ → W → UdpProxy × W
  unfolding sweep_flows
  sweep_idle_flows p now w =
      let (kept, w') = sweep_flows p.idle_timeout now p.flows w in (record p { flows = kept }, w')

  unfoldable pub close_flows : Map UdpClientFlow → W → W
  close_flows [] w = w
  close_flows ((k, f) ∷ m) w = close_flows m (link.close_uplink f.uplink w)

  unfoldable pub close_all : UdpProxy → W → UdpProxy × W
  unfolding close_flows
  close_all p w = (record p { flows = [] }, close_flows p.flows w)

  -- One flow in sendKeepalives: the flow as it is kept, or `none` if its frame could not be
  -- written and it is removed.
  unfoldable pub keepalive_flow : UdpProxy → ℕ → UdpClientFlow → W → Option UdpClientFlow × W
  keepalive_flow p now f w =
      if ltb (now - f.last_seen) udp_flow_keepalive_idle || leb udp_flow_keepalive_max f.keepalives
      then (some f, w)
      else let (written, w') = write_frame_v2 link p (keepalive_meta f) [] w in
        if written
        then (some (record f { keepalives = f.keepalives + 1; last_seen = now }), w')
        else (none, link.close_uplink f.uplink w')

  unfoldable pub keepalive_flows : UdpProxy → ℕ → Map UdpClientFlow → W → Map UdpClientFlow × W
  unfolding keepalive_flow
  keepalive_flows p now [] w = ([], w)
  keepalive_flows p now ((k, f) ∷ m) w =
      let (kept, w') = keepalive_flow p now f w in
      let (rest, w'') = keepalive_flows p now m w' in (keep k kept rest, w'')

  unfoldable pub send_keepalives : UdpProxy → ℕ → W → UdpProxy × W
  unfolding keepalive_flows
  send_keepalives p now w =
      let (kept, w') = keepalive_flows p now p.flows w in
      if not p.frag_enabled then (p, w) else (record p { flows = kept }, w')

  -- One round of pump: what the local service answered goes to the server. The Bool says whether
  -- the loop goes on.
  unfoldable pub pump : UdpProxy → UdpClientFlow → List ℕ → W → Bool × UdpProxy × W
  unfolding remove
  pump p f payload w =
      let (written, p', w') = write_datagram link p f.flow_id payload w in
      let (p'', w'') = remove p' f w' in if written then (true, p', w') else (false, p'', w'')
