-- ===== src/Udp/Channel/Steps.antt =====
-- The goroutines of a proxy, step by step, and what every order of their steps keeps.
use nssh.Base.{ℕ, ◌≡◌, refl, sym, subst, arith, none, some, List, [], ◌∷◌}
use nssh.Base.{Bool-cases, Option-cases, inl, inr, ◌==◌, not, bit_and, leb, length, drop}
use nssh.Base.{◌<◌, ◌+◌}
use nssh.Base.Map.{lookup, insert, Entries-lookup}
use nssh.Udp.Frame.{
  UdpFrameMeta, udp_frame_flag_fragment, udp_frame_flag_keepalive, parse_udp_frame_v2_bytes,
}
use nssh.Udp.Link.{Link}
use nssh.Udp.Proxy.{UdpProxy, UdpClientFlow}
use nssh.Udp.Reassembler.{sweep}
use nssh.Udp.Reassembler.Invariant.{IsValid, add-IsDone, sweep-IsValid}
use nssh.Udp.Send.{write_datagram}
use nssh.Udp.Flows.{refresh, remove, store_flow, dial_flow, get_or_create_flow, sweep_idle_flows}
use nssh.Udp.Flows.{udp_flow_keepalive_max, close_all, send_keepalives, pump}
use nssh.Udp.Flows.Invariant.{
  IsFlow, IsTable-insert, IsTable, refresh-IsTable, get_or_create_flow-IsTable, remove-IsTable,
}
use nssh.Udp.Flows.Timeouts.{sweep_flows-IsTable, send_keepalives-IsTable}
use nssh.Udp.Receive.{
  Received, handle_frame_v2, decode_datagram_bytes, write_local, pass_on, datagram_round,
}

-- What one goroutine does without waiting: a reader with a frame, and with the payload it got; the
-- reader of datagrams; the two sweepers; the keepalives; the pump of a flow and its end; the end of all.
-- `keeps_alive` is a sendKeepalives whose writes do not wait. Where they wait, other steps come between
-- its flows, and between a write and what follows it: `removes` behind a write that failed, else
-- `keepalive_sent`. Its goroutine alone counts up, so the limit that it has checked still holds behind the
-- write, for a flow that the table still holds; a flow that has left the table changes nothing.
pub data Step {W : Type 0} (link : Link W) : UdpProxy → UdpProxy → Type 0 where
  frame :
      (p : UdpProxy) (now : ℕ) (m : UdpFrameMeta) (b : List ℕ)
      → Step link p (handle_frame_v2 p now m b).1
  passes :
      (p : UdpProxy) (now : ℕ) (got : Received) (w : W) → Step link p (pass_on link p now got w).0
  datagram :
      (p : UdpProxy) (now : ℕ) (buf : List ℕ) (w : W)
      → Step link p (datagram_round link p now buf w).0
  sweeps : (p : UdpProxy) (now : ℕ) (w : W) → Step link p (sweep_idle_flows link p now w).0
  sweeps_fragments : (p : UdpProxy) (now : ℕ) → Step link p (record p { reasm = sweep p.reasm now })
  keeps_alive : (p : UdpProxy) (now : ℕ) (w : W) → Step link p (send_keepalives link p now w).0
  keepalive_sent :
      (p : UdpProxy) (now k : ℕ) (f : UdpClientFlow)
      → lookup k p.flows ≡ some f
      → f.keepalives < udp_flow_keepalive_max
      → Step link p (record p {
        flows = insert k (record f { keepalives = f.keepalives + 1; last_seen = now }) p.flows;
      })
  pumps :
      (p : UdpProxy) (f : UdpClientFlow) (b : List ℕ) (w : W) → Step link p (pump link p f b w).1
  removes : (p : UdpProxy) (f : UdpClientFlow) (w : W) → Step link p (remove link p f w).0
  closes : (p : UdpProxy) (w : W) → Step link p (close_all link p w).0

pub data Reach {W : Type 0} (link : Link W) : UdpProxy → UdpProxy → Type 0 where
  here : (p : UdpProxy) → Reach link p p
  next : {p q r : UdpProxy} → Step link p q → Reach link q r → Reach link p r

-- The flow table is well formed (one entry for each id, each flow under its own id, none with more than 30
-- keepalives), and so is the reassembler.
pub record IsProxy (p : UdpProxy) : Type 0 where
  pub table : IsTable p.flows
  pub fragments : IsValid p.reasm

refresh_reasm : (p : UdpProxy) (now k : ℕ) → (refresh p now k).reasm ≡ p.reasm
unfolding refresh
refresh_reasm p now k = elim (Option-cases (lookup k p.flows)) [
  | inl e ↦ rw (e, refresh) refl
  | inr (f, e) ↦ rw (e, refresh) refl
]

refresh-IsProxy : (p : UdpProxy) (now k : ℕ) → IsProxy p → IsProxy (refresh p now k)
refresh-IsProxy p now k h = record {
  table = refresh-IsTable p now k h.table;
  fragments = subst IsValid (sym (refresh_reasm p now k)) h.fragments;
}

handle_frame_v2-IsProxy :
    (p : UdpProxy) (now : ℕ) (m : UdpFrameMeta) (b : List ℕ)
    → IsProxy p
    → IsProxy (handle_frame_v2 p now m b).1
unfolding handle_frame_v2
handle_frame_v2-IsProxy p now m b h =
    elim (Bool-cases (not (bit_and m.flags udp_frame_flag_keepalive == 0))) [
      | inl alive ↦ rw alive (refresh-IsProxy p now m.flow_id h)
      | inr other ↦ elim (Bool-cases (bit_and m.flags udp_frame_flag_fragment == 0)) [
        | inl whole ↦ rw (other, whole) h
        | inr part ↦
            rw (other, part)
              (record {
                table = h.table;
                fragments = (add-IsDone p.reasm now m.flow_id m b h.fragments).valid;
              })
      ]
    ]

decode-IsProxy :
    (p : UdpProxy) (now : ℕ) (b : List ℕ) → IsProxy p → IsProxy (decode_datagram_bytes p now b).1
unfolding decode_datagram_bytes
decode-IsProxy p now b h = elim (Option-cases (parse_udp_frame_v2_bytes b)) [
  | inl e ↦ rw (e, decode_datagram_bytes) h
  | inr ((m, frag), e) ↦ rw (e, decode_datagram_bytes) (handle_frame_v2-IsProxy p now m frag h)
]

module _ {W : Type 0} (link : Link W) where
  remove_reasm : (p : UdpProxy) (f : UdpClientFlow) (w : W) → (remove link p f w).0.reasm ≡ p.reasm
  unfolding remove
  remove_reasm p f w = elim (Option-cases (lookup f.flow_id p.flows)) [
    | inl e ↦ rw (e, remove) refl
    | inr (g, e) ↦ elim (Bool-cases (g.uplink == f.uplink)) [
      | inl q ↦ rw (e, remove) (rw q refl)
      | inr q ↦ rw (e, remove) (rw q refl)
    ]
  ]

  remove-IsProxy :
      (p : UdpProxy) (f : UdpClientFlow) (w : W) → IsProxy p → IsProxy (remove link p f w).0
  remove-IsProxy p f w h = record {
    table = remove-IsTable link p f w h.table;
    fragments = subst IsValid (sym (remove_reasm p f w)) h.fragments;
  }

  store_flow_reasm :
      (p : UdpProxy) (now k uplink : ℕ) (w : W)
      → (store_flow link p now k uplink w).1.reasm ≡ p.reasm
  unfolding store_flow
  store_flow_reasm p now k uplink w = elim (Option-cases (lookup k p.flows)) [
    | inl e ↦ rw (e, store_flow) refl
    | inr (f, e) ↦ rw (e, store_flow) refl
  ]

  dial_flow_reasm :
      (p : UdpProxy) (now k : ℕ) (w : W) → (dial_flow link p now k w).1.reasm ≡ p.reasm
  unfolding dial_flow
  dial_flow_reasm p now k w = elim (Option-cases (link.dial_local w).0) [
    | inl e ↦ rw (e, dial_flow) refl
    | inr (u, e) ↦ rw (e, dial_flow) (store_flow_reasm p now k u (link.dial_local w).1)
  ]

  get_or_create_flow_reasm :
      (p : UdpProxy) (now k : ℕ) (w : W) → (get_or_create_flow link p now k w).1.reasm ≡ p.reasm
  unfolding get_or_create_flow
  get_or_create_flow_reasm p now k w = elim (Option-cases (lookup k p.flows)) [
    | inl e ↦ rw (e, get_or_create_flow) (dial_flow_reasm p now k w)
    | inr (f, e) ↦ rw (e, get_or_create_flow) (refresh_reasm p now k)
  ]

  get_or_create_flow-IsProxy :
      (p : UdpProxy) (now k : ℕ) (w : W) → IsProxy p → IsProxy (get_or_create_flow link p now k w).1
  get_or_create_flow-IsProxy p now k w h = record {
    table = get_or_create_flow-IsTable link p now k w h.table;
    fragments = subst IsValid (sym (get_or_create_flow_reasm p now k w)) h.fragments;
  }

  write_local-IsProxy :
      (p : UdpProxy) (f : UdpClientFlow) (b : List ℕ) (w : W)
      → IsProxy p
      → IsProxy (write_local link p f b w).0
  unfolding write_local
  write_local-IsProxy p f [] w h = h
  write_local-IsProxy p f (x ∷ b) w h = elim (Bool-cases (link.write_uplink f.uplink (x ∷ b) w).0) [
    | inl e ↦ rw e h
    | inr e ↦ rw e (remove-IsProxy p f (link.write_uplink f.uplink (x ∷ b) w).1 h)
  ]

  pass_on-IsProxy :
      (p : UdpProxy) (now : ℕ) (got : Received) (w : W)
      → IsProxy p
      → IsProxy (pass_on link p now got w).0
  unfolding pass_on
  pass_on-IsProxy p now none w h = h
  pass_on-IsProxy p now (some (k, b)) w h =
      let h' = get_or_create_flow-IsProxy p now k w h in
      elim (Option-cases (get_or_create_flow link p now k w).0) [
        | inl e ↦ rw (e, pass_on) h'
        | inr (f, e) ↦ rw (e, pass_on) (write_local-IsProxy _ f b _ h')
      ]

  datagram_round-IsProxy :
      (p : UdpProxy) (now : ℕ) (buf : List ℕ) (w : W)
      → IsProxy p
      → IsProxy (datagram_round link p now buf w).0
  unfolding datagram_round
  datagram_round-IsProxy p now buf w h = elim (Bool-cases (leb (length buf) 2)) [
    | inl e ↦ rw e h
    | inr e ↦ rw e (pass_on-IsProxy _ now _ w (decode-IsProxy p now (drop 2 buf) h))
  ]

  send_keepalives_reasm :
      (p : UdpProxy) (now : ℕ) (w : W) → (send_keepalives link p now w).0.reasm ≡ p.reasm
  unfolding send_keepalives
  send_keepalives_reasm p now w = elim (Bool-cases (not p.frag_enabled)) [
    | inl e ↦ simp e
    | inr e ↦ simp e
  ]

  write_datagram-IsProxy :
      (p : UdpProxy) (k : ℕ) (b : List ℕ) (w : W)
      → IsProxy p
      → IsProxy (write_datagram link p k b w).1
  unfolding write_datagram
  write_datagram-IsProxy p k b w h =
      let flows : (write_datagram link p k b w).1.flows ≡ p.flows = ground arith in
      let reasm : (write_datagram link p k b w).1.reasm ≡ p.reasm = ground arith in
      record {
        table = subst IsTable (sym flows) h.table;
        fragments = subst IsValid (sym reasm) h.fragments;
      }

  pump-IsProxy :
      (p : UdpProxy) (f : UdpClientFlow) (b : List ℕ) (w : W)
      → IsProxy p
      → IsProxy (pump link p f b w).1
  unfolding pump
  pump-IsProxy p f b w h =
      let h' = write_datagram-IsProxy p f.flow_id b w h in
      elim (Bool-cases (write_datagram link p f.flow_id b w).0) [
        | inl e ↦ simp e h'
        | inr e ↦ simp e (remove-IsProxy _ f _ h')
      ]

  pub Step-IsProxy : {p q : UdpProxy} → Step link p q → IsProxy p → IsProxy q
  unfolding sweep_idle_flows close_all
  Step-IsProxy (frame p now m b) h = handle_frame_v2-IsProxy p now m b h
  Step-IsProxy (passes p now got w) h = pass_on-IsProxy p now got w h
  Step-IsProxy (datagram p now buf w) h = datagram_round-IsProxy p now buf w h
  Step-IsProxy (sweeps p now w) h = record {
    table = sweep_flows-IsTable link p.idle_timeout now p.flows w h.table;
    fragments = h.fragments;
  }
  Step-IsProxy (sweeps_fragments p now) h = record {
    table = h.table;
    fragments = sweep-IsValid p.reasm now h.fragments;
  }
  Step-IsProxy (keeps_alive p now w) h = record {
    table = send_keepalives-IsTable link p now w h.table;
    fragments = subst IsValid (sym (send_keepalives_reasm p now w)) h.fragments;
  }
  Step-IsProxy (keepalive_sent p now k f e few) h =
      let flow = Entries-lookup IsFlow k p.flows h.table.entries e in
      record {
        table =
            IsTable-insert k _ p.flows (record { keyed = flow.keyed; capped = omega (arith, few) })
              h.table;
        fragments = h.fragments;
      }
  Step-IsProxy (pumps p f b w) h = pump-IsProxy p f b w h
  Step-IsProxy (removes p f w) h = remove-IsProxy p f w h
  Step-IsProxy (closes p w) h = record {
    table = record { one_each = tt; entries = tt };
    fragments = h.fragments;
  }

  -- The flow table of a proxy stays well formed (one entry for each id, each flow under its own
  -- id, none with more than 30 keepalives), and its reassembler stays valid, in every sequence of
  -- the steps of its goroutines: frames, payloads and datagrams from the server, both sweepers,
  -- keepalives, pumps, removals and the end.
  pub Reach-IsProxy : {p q : UdpProxy} → Reach link p q → IsProxy p → IsProxy q
  Reach-IsProxy (here p) h = h
  Reach-IsProxy (next s r) h = Reach-IsProxy r (Step-IsProxy s h)
