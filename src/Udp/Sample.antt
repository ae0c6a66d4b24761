-- ===== src/Udp/Sample.antt =====
-- Concrete proxies, links and clients for the runs.
use nssh.Base.{ℕ, true, false, some, List, [], ◌∷◌}
use nssh.Base.Int.{pos}
use nssh.Udp.Link.{Link}
use nssh.Udp.Proxy.{UdpProxy, UdpClientFlow}
use nssh.Udp.Reassembler.{new_udp_reassembler}

-- A link whose state lists what has been written; every write and every dial succeeds.
abbrev pub recorder : Link (List (List ℕ))
recorder = record {
  write_channel = λ c b w. (true, b ∷ w);
  send_datagram = λ b w. (true, b ∷ w);
  dial_local = λ w. (some 7, w);
  write_uplink = λ u b w. (true, b ∷ w);
  close_uplink = λ u w. w;
}

-- A v2 proxy on one channel with fragments of at most `max` bytes.
abbrev pub sample_proxy : ℕ → UdpProxy
sample_proxy max = record {
  shards = 0;
  datagram = false;
  port = 5353;
  idle_timeout = 300;
  max_packet_size = pos 1400;
  frag_enabled = true;
  frag_payload_max = max;
  next_frag_id = 0;
  reasm = new_udp_reassembler;
  flows = [];
}

abbrev pub sample_flow : UdpClientFlow
sample_flow = record { flow_id = 9; uplink = 7; last_seen = 100; keepalives = 2 }

-- The same with one flow.
abbrev pub busy_proxy : UdpProxy
busy_proxy = record (sample_proxy 2) { flows = (9, sample_flow) ∷ [] }
