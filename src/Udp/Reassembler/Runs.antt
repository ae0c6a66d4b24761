-- ===== src/Udp/Reassembler/Runs.antt =====
-- Runs of the reassembler at concrete fragments.
use nssh.Base.{ℕ, List, [], ◌∷◌}
use nssh.Udp.Reassembler.{new_udp_reassembler, add}
use nssh.Udp.Reassembler.Invariant.{IsDone, add-IsDone}
use nssh.Udp.Reassembler.Invariant.{new_udp_reassembler-IsValid}
use nssh.Udp.Reassembler.Order.{Arrival, fragment_meta}

add-IsDone_example :
    IsDone new_udp_reassembler.max_datagram
      (add new_udp_reassembler 5 9 (fragment_meta 9 1 3 2) (4 ∷ 5 ∷ []))
add-IsDone_example =
    add-IsDone new_udp_reassembler 5 9 (fragment_meta 9 1 3 2) (4 ∷ 5 ∷ [])
      new_udp_reassembler-IsValid

abbrev three_pieces : List (List ℕ)
three_pieces = (1 ∷ 2 ∷ []) ∷ (3 ∷ []) ∷ (4 ∷ 5 ∷ []) ∷ []

abbrev first_arrival : Arrival
first_arrival = record { time = 10; idx = 2 }

abbrev later_arrivals : List Arrival
later_arrivals = record { time = 20; idx = 0 } ∷ record { time = 15; idx = 1 } ∷ []
