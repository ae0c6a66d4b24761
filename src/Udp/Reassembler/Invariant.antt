-- ===== src/Udp/Reassembler/Invariant.antt =====
-- The reassembler's invariant: a bounded number of slots, each of them incomplete, in step with its
-- counters, and within the size of a datagram.
use nssh.Base.{◌||◌, ◌-◌, ℕ, suc, ◌≤◌, ◌<◌, ◌≡◌, arith, Option, none, some, inl, inr}
use nssh.Base.{List, [], ◌∷◌, ltb, leb, length, length-set, length-replicate, get_elem?}
use nssh.Base.{Bool-cases, Option-cases, ltb→lt, if◌then◌else◌}
use nssh.Base.Map.{Map, Values, Values-lookup, Values-without}
use nssh.Base.Map.{lookup, without, insert, length-without, length-without_mem}
use nssh.Udp.Frame.{UdpFrameMeta}
use nssh.Udp.Reassembler.{UdpReassembler, UdpReassemblySlot, new_udp_reassembler, join_frags}
use nssh.Udp.Reassembler.{
  usable, drop_unusable, new_slot, store_frag, finish, add_to_slot, add_at, add,
}
use nssh.Udp.Reassembler.{sweep, sweep_slots, udp_reassembly_key}
use nssh.Udp.Reassembler.Slots.{received, received-set, received-replicate, join_frags-replicate}
use nssh.Udp.Reassembler.Slots.{length-join_frags-set, get_elem?_cases}

-- The counters agree with the fragments that are there.
pub record IsCounted (s : UdpReassemblySlot) : Type 0 where
  pub sized : length s.frags ≡ s.frag_cnt
  pub counted : s.count ≡ received s.frags
  pub measured : s.bytes ≡ length (join_frags s.frags)

pub record IsSlot (max_datagram : ℕ) (s : UdpReassemblySlot) : Type 0 where
  pub in_step : IsCounted s
  pub incomplete : s.count < s.frag_cnt
  pub small : s.bytes ≤ max_datagram

pub record IsValid (r : UdpReassembler) : Type 0 where
  pub slots_ok : Values (IsSlot r.max_datagram) r.slots
  pub bounded : length r.slots ≤ r.max_concurrent

-- What `add` promises: the invariant, and a datagram that is not too long.
pub record IsDone (max_datagram : ℕ) (res : Option (List ℕ) × UdpReassembler) : Type 0 where
  pub valid : IsValid res.1
  pub small : (d : List ℕ) → res.0 ≡ some d → length d ≤ max_datagram

pub store_frag-IsCounted :
    (s : UdpReassemblySlot) (now i : ℕ) (p : List ℕ)
    → IsCounted s
    → get_elem? s.frags i ≡ some none
    → IsCounted (store_frag s now i p)
unfolding store_frag
store_frag-IsCounted s now i p h e = record {
  sized = omega (arith, length-set s.frags i (some p));
  counted = omega (arith, received-set s.frags i p e);
  measured = omega (arith, length-join_frags-set s.frags i p e);
}

pub new_slot-IsCounted : (frag_cnt now : ℕ) → IsCounted (new_slot frag_cnt now)
unfolding new_slot
new_slot-IsCounted frag_cnt now = record {
  sized = length-replicate frag_cnt none;
  counted = omega (arith, received-replicate frag_cnt);
  measured = rw (join_frags-replicate frag_cnt);
}

-- The invariant with one slot deleted leaves room for one more.
pub record HasRoom (r : UdpReassembler) (key : ℕ) : Type 0 where
  pub rest_ok : Values (IsSlot r.max_datagram) (without key r.slots)
  pub room : suc (length (without key r.slots)) ≤ r.max_concurrent

dropped-IsDone :
    (r : UdpReassembler) (key : ℕ)
    → HasRoom r key
    → IsDone r.max_datagram (none, record r { slots = without key r.slots })
dropped-IsDone r key h = record {
  valid = record { slots_ok = h.rest_ok; bounded = omega arith };
  small = λ d e. cc;
}

finish-IsDone :
    (r : UdpReassembler) (key : ℕ) (s : UdpReassemblySlot)
    → HasRoom r key
    → IsCounted s
    → IsDone r.max_datagram (finish r key s)
unfolding finish insert
finish-IsDone r key s h c = elim (Bool-cases (ltb r.max_datagram s.bytes)) [
  | inl big ↦ rw big (dropped-IsDone r key h)
  | inr fits ↦ elim (Bool-cases (ltb s.count s.frag_cnt)) [
    | inl more ↦
        rw (fits, more)
          (record {
            valid = record {
              slots_ok = (
                record { in_step = c; incomplete = ltb→lt _ _ more; small = ground arith },
                h.rest_ok,
              );
              bounded = h.room;
            };
            small = λ d e. cc;
          })
    | inr full ↦
        rw (fits, full)
          (record {
            valid = record { slots_ok = h.rest_ok; bounded = omega arith };
            small = λ d e. ground arith;
          })
  ]
]

add_to_slot-IsDone :
    (r : UdpReassembler) (key now idx : ℕ) (p : List ℕ) (s : UdpReassemblySlot)
    → HasRoom r key
    → IsCounted s
    → idx < s.frag_cnt
    → IsDone r.max_datagram (add_to_slot r key now idx p s)
unfolding add_to_slot
add_to_slot-IsDone r key now idx p s h c lt =
    elim (get_elem?_cases s.frags idx (omega (arith, c.sized))) [
      | inl waits ↦
          rw (waits, add_to_slot)
            (finish-IsDone r key _ h (store_frag-IsCounted s now idx p c waits))
      | inr (f, there) ↦ rw (there, add_to_slot) (dropped-IsDone r key h)
    ]

pub drop_unusable-some :
    (timeout now frag_cnt : ℕ) (o : Option UdpReassemblySlot) {s : UdpReassemblySlot}
    → drop_unusable timeout now frag_cnt o ≡ some s
    → (o ≡ some s) × (s.frag_cnt ≡ frag_cnt)
unfolding usable
drop_unusable-some timeout now frag_cnt o e = ground arith

HasRoom-mem :
    (r : UdpReassembler) (key : ℕ) {s : UdpReassemblySlot}
    → IsValid r
    → lookup key r.slots ≡ some s
    → HasRoom r key
HasRoom-mem r key v e = record {
  rest_ok = Values-without _ key r.slots v.slots_ok;
  room = omega (arith, length-without_mem key r.slots e);
}

-- No usable slot: the old one is gone, and a new one is made if there is room.
fresh_slot-IsDone :
    (r : UdpReassembler) (key now cnt idx : ℕ) (p : List ℕ)
    → IsValid r
    → idx < cnt
    → IsDone r.max_datagram (
        if leb r.max_concurrent (length (without key r.slots))
        then (none, record r { slots = without key r.slots })
        else add_to_slot
            (record r { slots = without key r.slots })
            key
            now
            idx
            p
            (new_slot cnt now))
fresh_slot-IsDone r key now cnt idx p v lt =
    elim (Bool-cases (leb r.max_concurrent (length (without key r.slots)))) [
      | inl full ↦ rw full (record {
        valid = record { slots_ok = rest_ok; bounded = omega (arith, fewer) };
        small = λ d e. cc;
      })
      | inr space ↦ rw space (
          add_to_slot-IsDone (record r { slots = without key r.slots }) key now idx p
            (new_slot cnt now)
            (record {
              rest_ok = Values-without _ key (without key r.slots) rest_ok;
              room = ground (arith, length-without key (without key r.slots));
            })
            (new_slot-IsCounted cnt now) (unfold new_slot in lt))
    ]
  where
    fewer : length (without key r.slots) ≤ length r.slots
    fewer = length-without key r.slots

    rest_ok : Values (IsSlot r.max_datagram) (without key r.slots)
    rest_ok = Values-without _ key r.slots v.slots_ok

add_at-IsDone :
    (r : UdpReassembler) (key now cnt idx : ℕ) (p : List ℕ)
    → IsValid r
    → idx < cnt
    → IsDone r.max_datagram (add_at r key now cnt idx p)
unfolding add_at
add_at-IsDone r key now cnt idx p v lt =
    elim (Option-cases (drop_unusable r.timeout now cnt (lookup key r.slots))) [
      | inr (s, e) ↦
          let (there, same) = drop_unusable-some r.timeout now cnt (lookup key r.slots) e in
          let ok_slot = Values-lookup _ key r.slots v.slots_ok there in
          rw (e, add_at)
            (add_to_slot-IsDone r key now idx p s (HasRoom-mem r key v there) ok_slot.in_step
              (omega arith))
      | inl e ↦ rw (e, add_at) (fresh_slot-IsDone r key now cnt idx p v lt)
    ]

-- add keeps the invariant of the reassembler (counters agree with the stored fragments, no slot
-- above the size limit, no more slots than allowed), and a datagram that it returns is within the
-- size limit.
pub add-IsDone :
    (r : UdpReassembler) (now flow_id : ℕ) (m : UdpFrameMeta) (p : List ℕ)
    → IsValid r
    → IsDone r.max_datagram (add r now flow_id m p)
unfolding add
add-IsDone r now flow_id m p v =
    elim (Bool-cases (ltb m.frag_cnt 1 || (ltb 255 m.frag_cnt || leb m.frag_cnt m.frag_idx))) [
      | inl bad ↦ rw bad (record { valid = v; small = λ d e. cc })
      | inr good ↦ rw good (
          add_at-IsDone r (udp_reassembly_key flow_id m.frag_id) now m.frag_cnt m.frag_idx p v
            (ground arith))
    ]

Values-sweep_slots :
    (max timeout now : ℕ) (m : Map UdpReassemblySlot)
    → Values (IsSlot max) m
    → Values (IsSlot max) (sweep_slots timeout now m)
      × (length (sweep_slots timeout now m) ≤ length m)
unfolding sweep_slots
Values-sweep_slots max timeout now [] h = (h, omega arith)
Values-sweep_slots max timeout now ((k, s) ∷ m) h =
    let (ok_rest, fewer) = Values-sweep_slots max timeout now m h.1 in
    elim (Bool-cases (ltb timeout (now - s.last_seen))) [
      | inl old ↦ rw old (ok_rest, omega arith)
      | inr young ↦ rw young ((h.0, ok_rest), omega arith)
    ]

-- sweep keeps the invariant of the reassembler.
pub sweep-IsValid : (r : UdpReassembler) (now : ℕ) → IsValid r → IsValid (sweep r now)
unfolding sweep
sweep-IsValid r now v =
    let (a, b) = Values-sweep_slots r.max_datagram r.timeout now r.slots v.slots_ok in
    record { slots_ok = a; bounded = omega arith }

pub new_udp_reassembler-IsValid : IsValid new_udp_reassembler
unfolding new_udp_reassembler
new_udp_reassembler-IsValid = record { slots_ok = tt; bounded = omega arith }
