-- ===== src/Udp/Flows/Invariant.antt =====
-- The invariant of the flow table.
use nssh.Base.{ℕ, ◌≤◌, ◌≡◌, refl, arith, inl, inr}
use nssh.Base.{Bool-cases, Option-cases, ◌==◌}
use nssh.Base.Map.{Map, lookup, insert, without, IsMap, IsMap-insert, IsMap-without}
use nssh.Base.Map.{Entries, Entries-lookup, Entries-insert, Entries-without}
use nssh.Udp.Link.{Link}
use nssh.Udp.Proxy.{UdpProxy, UdpClientFlow}
use nssh.Udp.Flows.{refresh, remove, new_flow, store_flow, dial_flow, get_or_create_flow, touch}
use nssh.Udp.Flows.{udp_flow_keepalive_max}

-- A flow stands under its own id, and has not had more keepalives than allowed.
pub record IsFlow (k : ℕ) (f : UdpClientFlow) : Type 0 where
  pub keyed : f.flow_id ≡ k
  pub capped : f.keepalives ≤ udp_flow_keepalive_max

pub record IsTable (m : Map UdpClientFlow) : Type 0 where
  pub one_each : IsMap m
  pub entries : Entries IsFlow m

pub IsTable-insert :
    (k : ℕ) (f : UdpClientFlow) (m : Map UdpClientFlow)
    → IsFlow k f
    → IsTable m
    → IsTable (insert k f m)
IsTable-insert k f m h t = record {
  one_each = IsMap-insert k f m t.one_each;
  entries = Entries-insert IsFlow k f m h t.entries;
}

pub IsTable-without : (k : ℕ) (m : Map UdpClientFlow) → IsTable m → IsTable (without k m)
IsTable-without k m t = record {
  one_each = IsMap-without k m t.one_each;
  entries = Entries-without IsFlow k m t.entries;
}

pub refresh-IsTable : (p : UdpProxy) (now k : ℕ) → IsTable p.flows → IsTable (refresh p now k).flows
unfolding refresh
refresh-IsTable p now k t = elim (Option-cases (lookup k p.flows)) [
  | inl e ↦ rw (e, refresh) t
  | inr (f, e) ↦
      let h = Entries-lookup IsFlow k p.flows t.entries e in
      rw (e, refresh)
        (IsTable-insert k (touch now f) p.flows (record { keyed = h.keyed; capped = h.capped }) t)
]

module _ {W : Type 0} (link : Link W) where
  pub store_flow-IsTable :
      (p : UdpProxy) (now k uplink : ℕ) (w : W)
      → IsTable p.flows
      → IsTable (store_flow link p now k uplink w).1.flows
  unfolding store_flow
  store_flow-IsTable p now k uplink w t = elim (Option-cases (lookup k p.flows)) [
    | inr (f, e) ↦ rw (e, store_flow) t
    | inl e ↦
        rw (e, store_flow)
          (IsTable-insert k (new_flow k uplink now) p.flows
            (record { keyed = refl; capped = omega arith }) t)
  ]

  -- getOrCreateFlow keeps a flow table well formed.
  pub get_or_create_flow-IsTable :
      (p : UdpProxy) (now k : ℕ) (w : W)
      → IsTable p.flows
      → IsTable (get_or_create_flow link p now k w).1.flows
  unfolding get_or_create_flow
  get_or_create_flow-IsTable p now k w t = elim (Option-cases (lookup k p.flows)) [
    | inr (f, e) ↦ rw (e, get_or_create_flow) (refresh-IsTable p now k t)
    | inl e ↦ rw (e, get_or_create_flow) (dial_flow-IsTable p now k w t)
  ]
    where
      dial_flow-IsTable :
          (p : UdpProxy) (now k : ℕ) (w : W)
          → IsTable p.flows
          → IsTable (dial_flow link p now k w).1.flows
      dial_flow-IsTable p now k w t = elim (Option-cases (link.dial_local w).0) [
        | inl e ↦ rw (e, dial_flow) t
        | inr (u, e) ↦ rw (e, dial_flow) (store_flow-IsTable p now k u (link.dial_local w).1 t)
      ]

  pub remove-IsTable :
      (p : UdpProxy) (f : UdpClientFlow) (w : W)
      → IsTable p.flows
      → IsTable (remove link p f w).0.flows
  unfolding remove
  remove-IsTable p f w t = elim (Option-cases (lookup f.flow_id p.flows)) [
    | inl e ↦ rw (e, remove) t
    | inr (g, e) ↦ elim (Bool-cases (g.uplink == f.uplink)) [
      | inl q ↦ rw (e, remove) (rw q (IsTable-without f.flow_id p.flows t))
      | inr q ↦ rw (e, remove) (rw q t)
    ]
  ]
