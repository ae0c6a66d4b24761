-- ===== src/Tunnel/Connect/Sample.antt =====
-- A server that accepts everything and has no QUIC.
use nssh.Base.{ℕ, ◌+◌, true, false, none, some, [], ◌∷◌}
use nssh.Tunnel.Requests.{reply}
use nssh.Tunnel.Connect.{Outside, Tunnel}
use nssh.Tunnel.Connect.Loop.{Outcome, running, returned}

abbrev pub server : Outside ℕ
server = record {
  now = λ n. n;
  read_key = λ path n. (none, n + 1);
  network = record { dial_tcp = λ a n. (true, n + 1); dial_quic = λ a t n. (false, n + 1) };
  handshake = λ auth n. (true, n + 1);
  is_quic_stream = λ n. false;
  supports_datagrams = λ n. false;
  data_plane_enabled = true;
  open_data_plane = λ n. (false, n);
  ssh = record {
    send_request = λ r n. (reply true [], n + 1);
    register = λ n. (true, n);
    nonce = λ n. (none, n);
  };
  udp = record {
    send_request = λ payload n. (some (true, 0 ∷ 0 ∷ 0 ∷ 30 ∷ 1 ∷ []), n + 1);
    open_channel = λ extra n. (true, n + 1);
    close_channel = λ i n. n;
  };
}

-- The state that an outcome carries.
abbrev pub left_over : {W : Type 0} → Outcome W → Tunnel W
left_over (running s t) = t
left_over (returned e t) = t
