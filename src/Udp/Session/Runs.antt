-- ===== src/Udp/Session/Runs.antt =====
-- A run of the negotiation: a server that accepts with four channels and fragments of 1300 bytes.
use nssh.Base.{ℕ, ◌≡◌, refl, none, some, true, List, [], ◌∷◌}
use nssh.Base.Int.{pos}
use nssh.Udp.Session.{Client, UdpForwardSession, session, setup_udp_forward, negotiate}
use nssh.Base.{suc, false}
use nssh.Wire.{uint32_at, uint16_at}
use nssh.Udp.Session.{handle_reply, start_session, clamp_shards}
use nssh.Udp.Session.{open_channels, base_session, read_extension, read_shards, read_datagram_caps}
use nssh.Udp.Session.Bounds.{IsSession, IsSetUp, negotiate-IsSession, setup_udp_forward-IsSetUp}

-- Port 5353, channel mode, all capabilities, packets of 1400, fragments of 1300, four channels.
abbrev reply : List ℕ
reply = 0 ∷ 0 ∷ 20 ∷ 233 ∷ 1 ∷ 0x0f ∷ 5 ∷ 120 ∷ 5 ∷ 20 ∷ 4 ∷ []

-- The state counts the channels that are open.
abbrev willing : Client ℕ
willing = record {
  send_request = λ b n. (some (true, reply), n);
  open_channel = λ b n. (true, suc n);
  close_channel = λ i n. n;
}

negotiate-IsSession_example : IsSession (negotiate (pos 0) (some true) reply)
negotiate-IsSession_example = negotiate-IsSession (pos 0) (some true) reply

abbrev agreed : UdpForwardSession
agreed = record {
  chs = 0 ∷ 1 ∷ 2 ∷ 3 ∷ [];
  actual_port = 5353;
  shard_count = 4;
  max_packet_size = 1400;
  frag_enabled = true;
  frag_payload_max = 1300;
  datagram = false;
}

agreed_run : (setup_udp_forward willing 5353 (pos 0) none 0).0 ≡ session agreed
unfolding setup_udp_forward handle_reply start_session open_channels negotiate base_session
    read_extension read_shards read_datagram_caps clamp_shards uint32_at uint16_at
agreed_run = refl

setup_udp_forward-IsSetUp_example : IsSetUp agreed
setup_udp_forward-IsSetUp_example =
    setup_udp_forward-IsSetUp willing 5353 (pos 0) none agreed 0 agreed_run
