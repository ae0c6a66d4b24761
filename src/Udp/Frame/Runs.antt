-- ===== src/Udp/Frame/Runs.antt =====
-- Runs of the codecs of udp_proxy.go at concrete frames.
use nssh.Base.{◌≡◌, refl, arith, [], ◌∷◌, ◌++◌}
use nssh.Wire.{ok, put_uint32, put_uint16}
use nssh.Udp.Frame.{UdpFrameMeta}
use nssh.Udp.Frame.{encode_udp_frame_v2, read_udp_frame_v2}
use nssh.Udp.Frame.RoundTrip.{read_udp_frame_v2-encode_udp_frame_v2}

abbrev fragment : UdpFrameMeta
fragment = record { flow_id = 0x01020304; flags = 1; frag_id = 0x0a0b; frag_idx = 2; frag_cnt = 5 }

encode_fragment :
    encode_udp_frame_v2 fragment (7 ∷ 8 ∷ [])
    ≡ 1 ∷ 2 ∷ 3 ∷ 4 ∷ 1 ∷ 0x0a ∷ 0x0b ∷ 2 ∷ 5 ∷ 0 ∷ 2 ∷ 7 ∷ 8 ∷ []
unfolding encode_udp_frame_v2 put_uint32 put_uint16
encode_fragment = refl

read_udp_frame_v2-encode_udp_frame_v2_example :
    read_udp_frame_v2 (encode_udp_frame_v2 fragment (7 ∷ 8 ∷ []) ++ (9 ∷ []))
    ≡ ok (fragment, 7 ∷ 8 ∷ [], 9 ∷ [])
read_udp_frame_v2-encode_udp_frame_v2_example =
    read_udp_frame_v2-encode_udp_frame_v2 fragment (7 ∷ 8 ∷ []) (9 ∷ []) (omega arith) (omega arith)
