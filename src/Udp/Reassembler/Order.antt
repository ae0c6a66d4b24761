-- ===== src/Udp/Reassembler/Order.antt =====
-- Reassembly does not depend on the order in which the fragments arrive.
use nssh.Base.{
  false, ◌||◌, ℕ, ◌+◌, ◌-◌, ◌≤◌, ◌<◌, ◌≡◌, ◌≢◌, refl, sym, ap, ◌∙◌, arith, Option, none, some,
}
use nssh.Base.{List, [], ◌∷◌, ◌++◌, ltb, leb, length, replicate, get_elem?, get_or, All}
use nssh.Base.{get_elem?-set_ne, get_elem?-replicate}
use nssh.Base.Map.{Map, lookup, without, insert, lookup-without, lookup-insert, length-without}
use nssh.Udp.Frame.{UdpFrameMeta, udp_frame_flag_fragment}
use nssh.Udp.Reassembler.{UdpReassembler, UdpReassemblySlot}
use nssh.Udp.Reassembler.{new_slot, store_frag, finish, add_to_slot, add_at, add}
use nssh.Udp.Reassembler.{udp_reassembly_key}
use nssh.Udp.Reassembler.Pieces.{concat, Partial, Partial-replicate, Partial-set, length-Partial}
use nssh.Udp.Reassembler.Pieces.{join_frags-le-concat, join_frags-eq-concat}
use nssh.Udp.Reassembler.Slots.{received, received-set, received-replicate}
use nssh.Udp.Reassembler.Invariant.{IsCounted, store_frag-IsCounted, new_slot-IsCounted}

-- One arrival: when, and which fragment.
pub record Arrival : Type 0 where
  pub time : ℕ
  pub idx : ℕ

abbrev pub Distinct : List Arrival → Type 0
Distinct [] = Unit
Distinct (a ∷ es) = All (λ b. a.idx ≢ b.idx) es × Distinct es

-- No arrival comes later than `timeout` after the one before it.
abbrev pub Paced : ℕ → ℕ → List Arrival → Type 0
Paced timeout last [] = Unit
Paced timeout last (a ∷ es) = (a.time - last ≤ timeout) × Paced timeout a.time es

abbrev pub fragment_meta : ℕ → ℕ → ℕ → ℕ → UdpFrameMeta
fragment_meta flow_id frag_id frag_cnt frag_idx = record {
  flow_id = flow_id;
  flags = udp_frame_flag_fragment;
  frag_id = frag_id;
  frag_idx = frag_idx;
  frag_cnt = frag_cnt;
}

-- The fragments of the datagram `ps` are handed to `add` as they arrive: what each call returns,
-- and the reassembler behind the last.
unfoldable pub deliver :
    ℕ → ℕ → List (List ℕ) → UdpReassembler → List Arrival → List (Option (List ℕ)) × UdpReassembler
deliver flow_id frag_id ps r [] = ([], r)
deliver flow_id frag_id ps r (a ∷ es) =
    let (o, r') =
      add r a.time flow_id (fragment_meta flow_id frag_id (length ps) a.idx) (get_or ps a.idx []) in
    let (os, r'') = deliver flow_id frag_id ps r' es in (o ∷ os, r'')

add_to_slot_waits :
    (r : UdpReassembler) (k now i : ℕ) (p : List ℕ) (s : UdpReassemblySlot)
    → get_elem? s.frags i ≡ some none
    → add_to_slot r k now i p s ≡ finish r k (store_frag s now i p)
unfolding add_to_slot
add_to_slot_waits r k now i p s waits = rw (waits, add_to_slot)

new_slot_waits : (n now i : ℕ) → i < n → get_elem? (new_slot n now).frags i ≡ some none
unfolding new_slot
new_slot_waits n now i lt = get_elem?-replicate n none i lt

add_at_used :
    (r : UdpReassembler) (k now n i : ℕ) (p : List ℕ) (s : UdpReassemblySlot)
    → lookup k r.slots ≡ some s
    → s.frag_cnt ≡ n
    → now - s.last_seen ≤ r.timeout
    → add_at r k now n i p ≡ add_to_slot r k now i p s
unfolding add_at
add_at_used r k now n i p s there same soon = ground arith

add_at_new :
    (r : UdpReassembler) (k now n i : ℕ) (p : List ℕ)
    → lookup k r.slots ≡ none
    → length r.slots < r.max_concurrent
    → add_at r k now n i p
      ≡ add_to_slot (record r { slots = without k r.slots }) k now i p (new_slot n now)
unfolding add_at
add_at_new r k now n i p new space = ground (arith, length-without k r.slots)

module _ (flow_id frag_id : ℕ) (ps : List (List ℕ)) (few : length ps ≤ 255) where
  abbrev key : ℕ
  key = udp_reassembly_key flow_id frag_id

  abbrev arrive : UdpReassembler → Arrival → Option (List ℕ) × UdpReassembler
  arrive r a =
      add r a.time flow_id (fragment_meta flow_id frag_id (length ps) a.idx) (get_or ps a.idx [])

  idx_ok :
      (i : ℕ)
      → i < length ps
      → (ltb (length ps) 1 || (ltb 255 (length ps) || leb (length ps) i)) ≡ false
  idx_ok i lt = ground arith

  -- A fragment that its slot waits for is stored.
  arrive_next :
      (r : UdpReassembler) (s : UdpReassemblySlot) (a : Arrival)
      → lookup key r.slots ≡ some s
      → s.frag_cnt ≡ length ps
      → a.time - s.last_seen ≤ r.timeout
      → a.idx < length ps
      → get_elem? s.frags a.idx ≡ some none
      → arrive r a ≡ finish r key (store_frag s a.time a.idx (get_or ps a.idx []))
  unfolding add
  arrive_next r s a there same soon lt waits = rw (idx_ok a.idx lt) (
      add_at_used r key a.time (length ps) a.idx _ s there same soon
      ∙ add_to_slot_waits r key a.time a.idx _ s waits)

  arrive_first :
      (r : UdpReassembler) (a : Arrival)
      → lookup key r.slots ≡ none
      → length r.slots < r.max_concurrent
      → a.idx < length ps
      → arrive r a
        ≡ finish
            (record r { slots = without key r.slots })
            key
            (store_frag (new_slot (length ps) a.time) a.time a.idx (get_or ps a.idx []))
  unfolding add
  arrive_first r a new space lt = rw (idx_ok a.idx lt) (
      add_at_new r key a.time (length ps) a.idx _ new space
      ∙ add_to_slot_waits _ key a.time a.idx _ _ (new_slot_waits (length ps) a.time a.idx lt))

  abbrev Waits : UdpReassemblySlot → Arrival → Type 0
  Waits s a = (a.idx < length ps) × (get_elem? s.frags a.idx ≡ some none)

  abbrev out : List Arrival → List (Option (List ℕ))
  out es = replicate (length es) none ++ (some (concat ps) ∷ [])

  Waits-store :
      (s : UdpReassemblySlot) (a : Arrival) (es : List Arrival) (p : List ℕ)
      → All (λ b. a.idx ≢ b.idx) es
      → All (Waits s) es
      → All (Waits (store_frag s a.time a.idx p)) es
  unfolding store_frag
  Waits-store s a [] p d w = tt
  Waits-store s a (b ∷ es) p d w = (
    (w.0.0, get_elem?-set_ne s.frags a.idx b.idx (some p) d.0 ∙ w.0.1),
    Waits-store s a es p d.1 w.1,
  )

  -- The slot `s` is about to be kept; `es` are the arrivals that are left.
  record InProgress (r : UdpReassembler) (s : UdpReassemblySlot) (es : List Arrival) : Type 0 where
    in_step : IsCounted s
    partial : Partial s.frags ps
    left : received s.frags + length es ≡ length ps
    waiting : All (Waits s) es
    distinct : Distinct es
    paced : Paced r.timeout s.last_seen es
    fits : length (concat ps) ≤ r.max_datagram

  small_enough :
      (r : UdpReassembler) (s : UdpReassemblySlot) (es : List Arrival)
      → InProgress r s es
      → ltb r.max_datagram s.bytes ≡ false
  small_enough r s es h =
      ground (arith, h.fits, h.in_step.measured, join_frags-le-concat s.frags ps h.partial)

  InProgress-store :
      (r : UdpReassembler) (s : UdpReassemblySlot) (a : Arrival) (es : List Arrival)
      → InProgress r s (a ∷ es)
      → (m : Map UdpReassemblySlot)
      → InProgress (record r { slots = m }) (store_frag s a.time a.idx (get_or ps a.idx [])) es
  InProgress-store r s a es h m = record {
    in_step = store_frag-IsCounted s a.time a.idx _ h.in_step h.waiting.0.1;
    partial = unfold store_frag in Partial-set s.frags ps a.idx h.partial;
    left =
        unfold store_frag in
        omega (arith, h.left, received-set s.frags a.idx (get_or ps a.idx []) h.waiting.0.1);
    waiting = Waits-store s a es _ h.distinct.0 h.waiting.1;
    distinct = h.distinct.1;
    paced = unfold store_frag in h.paced.1;
    fits = h.fits;
  }

  cnt_eq :
      (r : UdpReassembler) (s : UdpReassemblySlot) (es : List Arrival)
      → InProgress r s es
      → s.frag_cnt ≡ length ps
  cnt_eq r s es h = sym h.in_step.sized ∙ length-Partial s.frags ps h.partial

  finish_last :
      (r : UdpReassembler) (s : UdpReassemblySlot)
      → InProgress r s []
      → finish r key s ≡ (some (concat ps), record r { slots = without key r.slots })
  unfolding finish
  finish_last r s h = ground (
    arith,
    small_enough r s [] h,
    cnt_eq r s [] h,
    h.in_step.counted,
    h.left,
    join_frags-eq-concat s.frags ps h.partial (omega (arith, h.left)),
  )

  finish_more :
      (r : UdpReassembler) (s : UdpReassemblySlot) (a : Arrival) (es : List Arrival)
      → InProgress r s (a ∷ es)
      → finish r key s ≡ (none, record r { slots = insert key s r.slots })
  unfolding finish
  finish_more r s a es h =
      ground (arith, small_enough r s (a ∷ es) h, cnt_eq r s (a ∷ es) h, h.in_step.counted, h.left)

  abbrev kept : UdpReassembler → UdpReassemblySlot → UdpReassembler
  kept r s = record r { slots = insert key s r.slots }

  next_eq :
      (r : UdpReassembler) (s : UdpReassemblySlot) (a : Arrival) (es : List Arrival)
      → InProgress r s (a ∷ es)
      → arrive (kept r s) a ≡ finish (kept r s) key (store_frag s a.time a.idx (get_or ps a.idx []))
  next_eq r s a es h =
      arrive_next (kept r s) s a (ground (arith, lookup-insert key key s r.slots))
        (cnt_eq r s (a ∷ es) h) h.paced.0 h.waiting.0.0 h.waiting.0.1

  run_from :
      (es : List Arrival) (r : UdpReassembler) (s : UdpReassemblySlot)
      → InProgress r s es
      → ((finish r key s).0 ∷ (deliver flow_id frag_id ps (finish r key s).1 es).0 ≡ out es)
        × (lookup key (deliver flow_id frag_id ps (finish r key s).1 es).1.slots ≡ none)
  unfolding deliver
  run_from [] r s h = rw (finish_last r s h) (refl, ground (arith, lookup-without key key r.slots))
  run_from (a ∷ es) r s h =
      let (outs, gone) = run_from es (kept r s) _ (InProgress-store r s a es h _) in
      rw (finish_more r s a es h, next_eq r s a es h) (ap (λ t. none ∷ t) outs, gone)

  Waits-new :
      (t : ℕ) (es : List Arrival)
      → All (λ (b : Arrival). b.idx < length ps) es
      → All (Waits (new_slot (length ps) t)) es
  Waits-new t [] h = tt
  Waits-new t (b ∷ es) h = ((h.0, new_slot_waits (length ps) t b.idx h.0), Waits-new t es h.1)

  InProgress-new :
      (r : UdpReassembler) (a : Arrival) (es : List Arrival)
      → length (concat ps) ≤ r.max_datagram
      → length (a ∷ es) ≡ length ps
      → All (λ (b : Arrival). b.idx < length ps) (a ∷ es)
      → Distinct (a ∷ es)
      → Paced r.timeout a.time es
      → InProgress r (new_slot (length ps) a.time) (a ∷ es)
  InProgress-new r a es fits all range distinct paced = record {
    in_step = new_slot-IsCounted (length ps) a.time;
    partial = unfold new_slot in Partial-replicate ps;
    left = unfold new_slot in omega (arith, received-replicate (length ps));
    waiting = Waits-new a.time (a ∷ es) range;
    distinct = distinct;
    paced = unfold new_slot in (omega arith, paced);
    fits = fits;
  }

  -- Fragments of a datagram (at most 255, within the size limit) that arrive in any order, each
  -- once and none later than the timeout after the one before it, at a reassembler with room and
  -- no slot for the datagram: the last arrival returns the datagram, those before it return
  -- nothing, and no slot of it is left.
  pub deliver_any_order :
      (r : UdpReassembler) (a : Arrival) (es : List Arrival)
      → lookup key r.slots ≡ none
      → length r.slots < r.max_concurrent
      → length (concat ps) ≤ r.max_datagram
      → length (a ∷ es) ≡ length ps
      → All (λ (b : Arrival). b.idx < length ps) (a ∷ es)
      → Distinct (a ∷ es)
      → Paced r.timeout a.time es
      → ((deliver flow_id frag_id ps r (a ∷ es)).0
          ≡ replicate (length es) none ++ (some (concat ps) ∷ []))
        × (lookup key (deliver flow_id frag_id ps r (a ∷ es)).1.slots ≡ none)
  unfolding deliver
  deliver_any_order r a es new space fits all range distinct paced =
      rw (arrive_first r a new space range.0) (
        run_from es (record r { slots = without key r.slots }) _
          (InProgress-store r (new_slot (length ps) a.time) a es
            (InProgress-new r a es fits all range distinct paced) _))
