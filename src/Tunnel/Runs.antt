-- ===== src/Tunnel/Runs.antt =====
-- Runs of the self-check: a failure, an answer and two failures; and a reply that is accepted.
use nssh.Tunnel.Accept.{
  Incoming, Observed, accept_channel, is_handled, accept_channel_keeps_handled,
}
use nssh.Base.Int.{pos}
use nssh.Base.{ℕ, ◌≡◌, refl, arith, Bool, true, some, none, false, List, [], ◌∷◌, ◌++◌}
use nssh.Tunnel.{Ping, answered, failed, parse_udp_ping_reply}
use nssh.Tunnel.Origin.{read_origin, open_data, read_origin-open_data}
use nssh.Daemon.Sample.{strings}

abbrev four_pings : List Ping
four_pings = failed ∷ answered ∷ failed ∷ failed ∷ []

abbrev nonce : List ℕ
nonce = 1 ∷ 2 ∷ 3 ∷ 4 ∷ 5 ∷ 6 ∷ 7 ∷ 8 ∷ 9 ∷ 10 ∷ 11 ∷ 12 ∷ 13 ∷ 14 ∷ 15 ∷ 16 ∷ []

abbrev healthy_reply : List ℕ
healthy_reply = nonce ++ (0 ∷ 0 ∷ 0 ∷ 7 ∷ 0x01 ∷ [])

accepted : parse_udp_ping_reply strings nonce healthy_reply "both" ≡ none
unfolding parse_udp_ping_reply
accepted = refl

read_origin-open_data_example :
    read_origin (open_data (b'a' ∷ []) 80 (b'h' ∷ b'i' ∷ []) 50000 [])
    ≡ (b'h' ∷ b'i' ∷ [], some 50000)
read_origin-open_data_example =
    read_origin-open_data (b'a' ∷ []) 80 (b'h' ∷ b'i' ∷ []) 50000 [] (omega arith) (omega arith)
      (omega arith)

-- Whether the local connection is open. The channel cannot be accepted, and then not rejected either.
abbrev sockets : Incoming Bool
sockets = record {
  dial_local = λ a w. (true, true);
  accept = λ w. (false, w);
  reject = λ r w. (false, w);
  close_local = λ w. false;
}

sockets_observed : Observed Bool sockets
sockets_observed = record {
  local_open = λ w. w;
  dials = λ a w. refl;
  keeps = λ w. refl;
  keeps_rejected = λ r w. refl;
  closes = λ w. refl;
}

accept_channel_keeps_handled_example :
    let r = accept_channel sockets strings "localhost" (pos 80) [] false in
    sockets_observed.local_open r.1 ≡ is_handled r.0
accept_channel_keeps_handled_example =
    accept_channel_keeps_handled sockets sockets_observed strings "localhost" (pos 80) [] false
