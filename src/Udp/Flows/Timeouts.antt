-- ===== src/Udp/Flows/Timeouts.antt =====
-- Sweeping idle flows and keeping others alive.
use nssh.Base.{ℕ, ◌+◌, ◌<◌, ◌≡◌, refl, sym, ◌∙◌, subst, arith, Option, none, some, true}
use nssh.Base.{List, [], ◌∷◌, inl, inr, not, ◌==◌, ltb, if◌then◌else◌}
use nssh.Base.{Bool-cases, ==_iff, lt→ltb}
use mathlib.Core.Bool.{false≢true}
use nssh.Base.Map.{Map, lookup, IsMap}
use nssh.Udp.Link.{Link}
use nssh.Udp.Proxy.{UdpProxy, UdpClientFlow}
use nssh.Udp.Flows.{sweep_idle_flows, sweep_flows, send_keepalives, keepalive_flows, keepalive_flow}
use nssh.Udp.Flows.{pump, keep}
use nssh.Udp.Flows.Invariant.{IsFlow, IsTable}
use nssh.Udp.Send.{write_datagram}

-- What is left of a table entry after a sweep.
abbrev pub swept : ℕ → ℕ → Option UdpClientFlow → Option UdpClientFlow
swept idle now none = none
swept idle now (some f) = if ltb (f.last_seen + idle) now then none else some f

module _ {W : Type 0} (link : Link W) where
  lookup-sweep_flows-none :
      (idle now k : ℕ) (m : Map UdpClientFlow) (w : W)
      → lookup k m ≡ none
      → lookup k (sweep_flows link idle now m w).0 ≡ none
  unfolding sweep_flows lookup
  lookup-sweep_flows-none idle now k [] w h = refl
  lookup-sweep_flows-none idle now k ((j, f) ∷ m) w h =
      ground (arith, lookup-sweep_flows-none idle now k m w)

  lookup-sweep_flows :
      (idle now k : ℕ) (m : Map UdpClientFlow) (w : W)
      → IsMap m
      → lookup k (sweep_flows link idle now m w).0 ≡ swept idle now (lookup k m)
  unfolding sweep_flows lookup
  lookup-sweep_flows idle now k [] w h = refl
  lookup-sweep_flows idle now k ((j, f) ∷ m) w h = elim (Bool-cases (j == k)) [
    | inl q ↦ elim (Bool-cases (ltb (f.last_seen + idle) now)) [
      | inl old ↦
          rw (q, old)
            (lookup-sweep_flows-none idle now k m w
              (subst (λ i. lookup i m ≡ none) ((==_iff j k).0 q) h.0))
      | inr young ↦ rw (q, young) (rw q refl)
    ]
    | inr q ↦ ground (arith, lookup-sweep_flows idle now k m w h.1)
  ]

  -- A sweep of a well-formed table removes exactly the flows that were last seen longer than the
  -- idle timeout ago.
  pub lookup-sweep_idle_flows :
      (p : UdpProxy) (now k : ℕ) (w : W)
      → IsTable p.flows
      → lookup k (sweep_idle_flows link p now w).0.flows
        ≡ swept p.idle_timeout now (lookup k p.flows)
  unfolding sweep_idle_flows
  lookup-sweep_idle_flows p now k w t = lookup-sweep_flows p.idle_timeout now k p.flows w t.one_each

  -- A flow that is kept by sendKeepalives is the same flow, with its counter within the limit.
  keepalive_flow_kept :
      (p : UdpProxy) (now k : ℕ) (f g : UdpClientFlow) (w : W)
      → IsFlow k f
      → (keepalive_flow link p now f w).0 ≡ some g
      → IsFlow k g
  unfolding keepalive_flow
  keepalive_flow_kept p now k f g w h e = ground arith

  pub sweep_flows-IsTable :
      (idle now : ℕ) (m : Map UdpClientFlow) (w : W)
      → IsTable m
      → IsTable (sweep_flows link idle now m w).0
  unfolding sweep_flows
  sweep_flows-IsTable idle now [] w t = t
  sweep_flows-IsTable idle now ((j, f) ∷ m) w t =
      let rest =
        sweep_flows-IsTable idle now m w
          (record { one_each = t.one_each.1; entries = t.entries.1 }) in
      elim (Bool-cases (ltb (f.last_seen + idle) now)) [
        | inl old ↦ rw old rest
        | inr young ↦ rw young (record {
          one_each = (lookup-sweep_flows-none idle now j m w t.one_each.0, rest.one_each);
          entries = (t.entries.0, rest.entries);
        })
      ]

  lookup-keepalive_flows-none :
      (p : UdpProxy) (now k : ℕ) (m : Map UdpClientFlow) (w : W)
      → lookup k m ≡ none
      → lookup k (keepalive_flows link p now m w).0 ≡ none
  unfolding keepalive_flows lookup
  lookup-keepalive_flows-none p now k [] w h = refl
  lookup-keepalive_flows-none p now k ((j, f) ∷ m) w h =
      let ih = lookup-keepalive_flows-none p now k m (keepalive_flow link p now f w).1 in
      ground (arith, ih)

  keepalive_flows-IsTable :
      (p : UdpProxy) (now : ℕ) (m : Map UdpClientFlow) (w : W)
      → IsTable m
      → IsTable (keepalive_flows link p now m w).0
  unfolding keepalive_flows keepalive_flow
  keepalive_flows-IsTable p now [] w t = t
  keepalive_flows-IsTable p now ((j, f) ∷ m) w t =
      kept_table (keepalive_flow link p now f w).0 (keepalive_flows link p now m w').0
        (λ g. keepalive_flow_kept p now j f g w t.entries.0)
        (lookup-keepalive_flows-none p now j m w' t.one_each.0)
        (keepalive_flows-IsTable p now m w'
          (record { one_each = t.one_each.1; entries = t.entries.1 }))
    where
      w' : W
      w' = (keepalive_flow link p now f w).1

      kept_table :
          (o : Option UdpClientFlow) (rest : Map UdpClientFlow)
          → ((g : UdpClientFlow) → o ≡ some g → IsFlow j g)
          → lookup j rest ≡ none
          → IsTable rest
          → IsTable (keep j o rest)
      kept_table none rest h n t = t
      kept_table (some g) rest h n t = record {
        one_each = (n, t.one_each);
        entries = (h g refl, t.entries);
      }

  -- sendKeepalives keeps a flow table well formed: one entry for each id, each flow under its own
  -- id, no flow with more than 30 keepalives.
  pub send_keepalives-IsTable :
      (p : UdpProxy) (now : ℕ) (w : W)
      → IsTable p.flows
      → IsTable (send_keepalives link p now w).0.flows
  unfolding send_keepalives
  send_keepalives-IsTable p now w t = elim (Bool-cases (not p.frag_enabled)) [
    | inl v1 ↦ simp v1 t
    | inr v2 ↦ simp v2 (keepalive_flows-IsTable p now p.flows w t)
  ]

  write_datagram_keeps :
      (p : UdpProxy) (flow_id : ℕ) (payload : List ℕ) (w : W)
      → ((write_datagram link p flow_id payload w).1.flows ≡ p.flows)
        × ((write_datagram link p flow_id payload w).1.idle_timeout ≡ p.idle_timeout)
  unfolding write_datagram
  write_datagram_keeps p flow_id payload w = ground arith

  pump_keeps :
      (p : UdpProxy) (f : UdpClientFlow) (payload : List ℕ) (w : W)
      → (pump link p f payload w).0 ≡ true
      → ((pump link p f payload w).1.flows ≡ p.flows)
        × ((pump link p f payload w).1.idle_timeout ≡ p.idle_timeout)
  unfolding pump
  pump_keeps p f payload w sent = elim (Bool-cases (write_datagram link p f.flow_id payload w).0) [
    | inl yes_sent ↦ simp yes_sent (write_datagram_keeps p f.flow_id payload w)
    | inr not_sent ↦ absurd (false≢true (simp not_sent at sent))
  ]

  -- A flow that the server has not written to for longer than the idle timeout is swept from a
  -- well-formed table, although its reply was sent just now.
  pub sweep_after_pump :
      (p : UdpProxy) (f : UdpClientFlow) (payload : List ℕ) (now : ℕ) (w w' : W)
      → IsTable p.flows
      → lookup f.flow_id p.flows ≡ some f
      → f.last_seen + p.idle_timeout < now
      → (pump link p f payload w).0 ≡ true
      → lookup f.flow_id (sweep_idle_flows link (pump link p f payload w).1 now w').0.flows ≡ none
  sweep_after_pump p f payload now w w' t there idle sent =
      let (same, timeout) = pump_keeps p f payload w sent in
      lookup-sweep_idle_flows (pump link p f payload w).1 now f.flow_id w'
        (subst IsTable (sym same) t)
      ∙ rw (same, timeout, there, lt→ltb _ now idle) refl
