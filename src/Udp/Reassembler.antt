-- ===== src/Udp/Reassembler.antt =====
-- The fragment reassembler of base_tunnel/udp_proxy.go: slots by (flow id, fragment id).
-- Times are nanoseconds as numbers; the clock reading of an operation is its argument `now`.
-- `now - last_seen` stops at 0 where Go's difference is negative, and neither is past a timeout.
pub mod Slots
pub mod Invariant
pub mod Pieces
pub mod Order
mod Runs
use nssh.Base.{ℕ, ◌+◌, ◌-◌, ◌*◌, ◌^◌, Option, none, some, Bool, ◌||◌, not}
use nssh.Base.{List, [], ◌∷◌, ◌++◌, ltb, leb, ◌==◌, if◌then◌else◌}
use nssh.Base.{length, get_elem?, set, replicate}
use nssh.Base.Map.{Map, lookup, insert, without}
use nssh.Udp.Frame.{UdpFrameMeta}

abbrev pub udp_max_datagram_size : ℕ
udp_max_datagram_size = 65507

-- 300 ms
abbrev pub udp_reassembly_timeout : ℕ
udp_reassembly_timeout = 300_000_000

abbrev pub udp_max_reassemblies_per_flow : ℕ
udp_max_reassemblies_per_flow = 16

-- `frags` has `none` where the Go slice has nil.
pub record UdpReassemblySlot : Type 0 where
  pub frag_cnt : ℕ
  pub frags : List (Option (List ℕ))
  pub count : ℕ
  pub bytes : ℕ
  pub last_seen : ℕ

pub record UdpReassembler : Type 0 where
  pub slots : Map UdpReassemblySlot
  pub max_concurrent : ℕ
  pub timeout : ℕ
  pub max_datagram : ℕ

unfoldable pub new_udp_reassembler : UdpReassembler
new_udp_reassembler = record {
  slots = [];
  max_concurrent = udp_max_reassemblies_per_flow;
  timeout = udp_reassembly_timeout;
  max_datagram = udp_max_datagram_size;
}

-- uint64(flowID)<<16 | uint64(fragID): the parts do not overlap, so the bitwise or is a sum.
unfoldable pub udp_reassembly_key : ℕ → ℕ → ℕ
udp_reassembly_key flow_id frag_id = flow_id * 2 ^ 16 + frag_id

-- The fragments in order, those that are missing left out: the loop of `append` at the end of `add`.
unfoldable pub join_frags : List (Option (List ℕ)) → List ℕ
join_frags [] = []
join_frags (none ∷ fs) = join_frags fs
join_frags (some f ∷ fs) = f ++ join_frags fs

-- The slot for the fragment: the old one, unless its fragment count differs or it has timed out.
unfoldable pub usable : ℕ → ℕ → ℕ → UdpReassemblySlot → Bool
usable timeout now frag_cnt slot =
    not (not (slot.frag_cnt == frag_cnt) || ltb timeout (now - slot.last_seen))

abbrev pub drop_unusable : ℕ → ℕ → ℕ → Option UdpReassemblySlot → Option UdpReassemblySlot
drop_unusable timeout now frag_cnt none = none
drop_unusable timeout now frag_cnt (some slot) =
    if usable timeout now frag_cnt slot then some slot else none

unfoldable pub new_slot : ℕ → ℕ → UdpReassemblySlot
new_slot frag_cnt now = record {
  frag_cnt = frag_cnt;
  frags = replicate frag_cnt none;
  count = 0;
  bytes = 0;
  last_seen = now;
}

-- slot.frags[fragIdx] = payload and the counters behind it
unfoldable pub store_frag : UdpReassemblySlot → ℕ → ℕ → List ℕ → UdpReassemblySlot
store_frag slot now frag_idx payload = record slot {
  frags = set slot.frags frag_idx (some payload);
  count = slot.count + 1;
  bytes = slot.bytes + length payload;
  last_seen = now;
}

-- After the fragment is stored: too big, not complete, or complete.
unfoldable pub finish : UdpReassembler → ℕ → UdpReassemblySlot → Option (List ℕ) × UdpReassembler
finish r key slot =
    if ltb r.max_datagram slot.bytes
    then (none, record r { slots = without key r.slots })
    else if ltb slot.count slot.frag_cnt
    then (none, record r { slots = insert key slot r.slots })
    else (some (join_frags slot.frags), record r { slots = without key r.slots })

-- A slot is there: a second fragment with the same index drops it.
unfoldable pub add_to_slot :
    UdpReassembler → ℕ → ℕ → ℕ → List ℕ → UdpReassemblySlot → Option (List ℕ) × UdpReassembler
unfolding store_frag finish
add_to_slot r key now frag_idx payload slot = elim (get_elem? slot.frags frag_idx) [
  | some (some old) ↦ (none, record r { slots = without key r.slots })
  | _ ↦ finish r key (store_frag slot now frag_idx payload)
]

-- The part of `add` behind the check of the indices. An unusable slot is deleted before the number
-- of slots is compared with the limit.
unfoldable pub add_at : UdpReassembler → ℕ → ℕ → ℕ → ℕ → List ℕ → Option (List ℕ) × UdpReassembler
unfolding usable new_slot
add_at r key now frag_cnt frag_idx payload =
    elim (drop_unusable r.timeout now frag_cnt (lookup key r.slots)) [
      | some slot ↦ add_to_slot r key now frag_idx payload slot
      | none ↦
          let r' : UdpReassembler = record r { slots = without key r.slots } in
          if leb r'.max_concurrent (length r'.slots)
          then (none, r')
          else add_to_slot r' key now frag_idx payload (new_slot frag_cnt now)
    ]

unfoldable pub add :
    UdpReassembler → ℕ → ℕ → UdpFrameMeta → List ℕ → Option (List ℕ) × UdpReassembler
add r now flow_id meta payload =
    if ltb meta.frag_cnt 1 || (ltb 255 meta.frag_cnt || leb meta.frag_cnt meta.frag_idx)
    then (none, r)
    else add_at r (udp_reassembly_key flow_id meta.frag_id) now meta.frag_cnt meta.frag_idx payload

-- sweep: every slot that has timed out is deleted.
unfoldable pub sweep_slots : ℕ → ℕ → Map UdpReassemblySlot → Map UdpReassemblySlot
sweep_slots timeout now [] = []
sweep_slots timeout now ((k, slot) ∷ m) =
    let rest = sweep_slots timeout now m in
    if ltb timeout (now - slot.last_seen) then rest else (k, slot) ∷ rest

unfoldable pub sweep : UdpReassembler → ℕ → UdpReassembler
unfolding sweep_slots
sweep r now = record r { slots = sweep_slots r.timeout now r.slots }
