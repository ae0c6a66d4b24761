-- ===== src/Udp/Send/Runs.antt =====
-- Runs of the sender at concrete datagrams.
use nssh.Base.{ℕ, zero, suc, ◌≡◌, refl, arith, List, [], ◌∷◌}
use nssh.Udp.Reassembler.Pieces.{concat}
use nssh.Udp.Send.{write_datagram}
use nssh.Udp.Send.Plan.{plan, send_all, outcome, write_datagram-eq-plan}
use nssh.Udp.Send.Pieces.{payloads, IsFrame, write_datagram_complete}
use nssh.Udp.Frame.{UdpFrameMeta}
use nssh.Base.{All}
use nssh.Udp.Sample.{recorder, sample_proxy}

abbrev five_bytes : List ℕ
five_bytes = 1 ∷ 2 ∷ 3 ∷ 4 ∷ 5 ∷ []

abbrev long_payload : ℕ → List ℕ
long_payload zero = []
long_payload (suc n) = 0 ∷ long_payload n

write_datagram-eq-plan_example :
    outcome (write_datagram recorder (sample_proxy 2) 9 five_bytes [])
    ≡ send_all recorder (sample_proxy 2) (plan (sample_proxy 2) 9 five_bytes) []
write_datagram-eq-plan_example =
    write_datagram-eq-plan recorder (sample_proxy 2) 9 five_bytes [] refl

write_datagram_complete_example :
    (fs : List (UdpFrameMeta × List ℕ)) × (outcome
        (write_datagram recorder (sample_proxy 2) 9 five_bytes [])
      ≡ send_all recorder (sample_proxy 2) fs [])
    × (concat (payloads fs) ≡ five_bytes)
    × All (IsFrame 2) fs
write_datagram_complete_example =
    write_datagram_complete recorder (sample_proxy 2) 9 five_bytes [] refl (omega arith)
      (omega arith) (omega arith)
