-- ===== src/Udp/Receive/Runs.antt =====
-- A run from the sender to the receiver.
use nssh.Base.{◌≡◌, refl, arith, none, some, List, [], ◌∷◌}
use nssh.Udp.Reassembler.Order.{Arrival}
use nssh.Base.Map.{lookup}
use nssh.Udp.Reassembler.{new_udp_reassembler}
use nssh.Udp.Send.Plan.{plan, fragment_frames, chunks}
use nssh.Udp.Receive.EndToEnd.{receive, receive_any_order}
use nssh.Udp.Sample.{sample_proxy}

abbrev first_arrival : Arrival
first_arrival = record { time = 10; idx = 2 }

abbrev later_arrivals : List Arrival
later_arrivals = record { time = 20; idx = 0 } ∷ record { time = 15; idx = 1 } ∷ []

receive_any_order_example :
    (receive
      (plan (sample_proxy 2) 9 (1 ∷ 2 ∷ 3 ∷ 4 ∷ 5 ∷ []))
      (sample_proxy 8)
      (first_arrival ∷ later_arrivals)).0
    ≡ none ∷ none ∷ some (9, 1 ∷ 2 ∷ 3 ∷ 4 ∷ 5 ∷ []) ∷ []
unfolding plan new_udp_reassembler lookup fragment_frames chunks
receive_any_order_example =
    receive_any_order (sample_proxy 2) (sample_proxy 8) 9 (1 ∷ 2 ∷ 3 ∷ 4 ∷ 5 ∷ []) first_arrival
      later_arrivals (omega arith)
      (record { positive = omega arith; long = omega arith; fits = omega arith; few = omega arith })
      (record { limit = refl; new = refl; room = omega arith }) refl
      (omega arith, (omega arith, (omega arith, tt)))
      (
        ((λ e. omega (arith, e)), ((λ e. omega (arith, e)), tt)),
        (((λ e. omega (arith, e)), tt), (tt, tt)),
      )
      (omega arith, (omega arith, tt))
