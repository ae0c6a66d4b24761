-- ===== src/Tunnel/Connect/Stages.antt =====
-- What holds behind each stage of ConnectAndTunnel, and where one ends the function.
use nssh.Base.{◌≡◌, refl, Bool, true, false, Option, none, some, ◌&&◌, ◌||◌, not}
use nssh.Base.{Bool-cases, inl, inr}
use nssh.Base.Text.{String, str_eq}
use nssh.Config.{Config}
use nssh.Stats.{set_status, record_failure}
use nssh.Base.{ℕ, List}
use nssh.Base.Int.{ℤ, to_uint32}
use nssh.Tunnel.Requests.{
  ForwardError, SshClient, Reply, reply, request_error, timed_out, forward_reply, forward_verdict,
}
use nssh.Tunnel.Requests.{declare_tcp_forward, send_forward_request_with_timeout}
use nssh.Tunnel.Connect.{is_accepted, tcp_answer, is_accepted_udp, udp_answer}
use nssh.Udp.Session.{Client, UdpForwardSession, request_payload, on_reply, setup_udp_forward}
use nssh.Tunnel.Connect.{
  Outside, Tunnel, TunnelError, Stage, fails, closes, load_key, key_result, shake_hands,
}
use nssh.Tunnel.Connect.{negotiate_if, use_compression, start_data_plane, forward, forward_tcp}
use nssh.Tunnel.Connect.{forward_udp, tcp_result, udp_result, ◌>=>◌, auth_methods, handshake_failed}
use nssh.Tunnel.Connect.{
  key_not_read, key_not_parsed, negotiation_timeout, tcp_not_forwarded, udp_not_forwarded,
}
use nssh.Udp.Session.{Setup, session, failed}

-- The server has accepted what the protocol asks for.
abbrev pub is_forwarded : {W : Type 0} → Config → Tunnel W → Bool
is_forwarded c t =
    (str_eq c.proto "udp" || t.tcp_accepted)
    && (not (str_eq c.proto "udp" || str_eq c.proto "both") || t.udp_accepted)

-- OnTunnelEstablished has been called, with all forwards accepted.
abbrev pub IsUp : {W : Type 0} → Config → Tunnel W → Type 0
IsUp c t = (t.established ≡ true) × (is_forwarded c t ≡ true)

-- The status is "offline", the client is closed if there ever was one, and OnTunnelEstablished has not
-- been called without the forwards.
abbrev pub IsDown : {W : Type 0} → Config → Tunnel W → Type 0
IsDown c t =
    (t.stats.connection_status ≡ "offline")
    × ((not t.shaken || t.client_closed) ≡ true)
    × ((not t.established || is_forwarded c t) ≡ true)

-- The stage goes on with `P`, or it ends the function.
abbrev pub After : {W : Type 0} → Config → (Tunnel W → Type 0) → Stage W → Type 0
After c P (none, t) = P t
After c P (some e, t) = IsDown c t

abbrev pub IsBefore : {W : Type 0} → Tunnel W → Type 0
IsBefore t = (t.shaken ≡ false) × (t.established ≡ false)

abbrev pub IsPending : {W : Type 0} → Tunnel W → Type 0
IsPending t = t.established ≡ false

-- The code goes on only with an answer that accepts.
verdict-accepted :
    (port : ℤ) (r : Reply) → forward_verdict port (forward_reply r) ≡ none → is_accepted r ≡ true
unfolding forward_reply
verdict-accepted port (reply true resp) e = refl
verdict-accepted port (reply false resp) e = cc
verdict-accepted port request_error e = cc
verdict-accepted port timed_out e = cc

declare_tcp_forward-accepted :
    {W : Type 0} (ssh : SshClient W) (port : ℤ) (w : W)
    → (declare_tcp_forward ssh port w).0 ≡ none
    → tcp_answer ssh port w ≡ true
unfolding declare_tcp_forward send_forward_request_with_timeout
declare_tcp_forward-accepted ssh port w e = elim (Bool-cases (ssh.register w).0) [
  | inl up ↦ verdict-accepted port _ (rw up at e)
  | inr down ↦ cc (rw down at e)
]

on_reply-accepted :
    {W : Type 0} (udp : Client W) (max : ℤ) (dc : Option Bool) (r : Option (Bool × List ℕ)) (w : W)
    (s : UdpForwardSession)
    → (on_reply udp max dc r w).0 ≡ session s
    → is_accepted_udp r ≡ true
unfolding on_reply
on_reply-accepted udp max dc none w s e = cc
on_reply-accepted udp max dc (some (true, resp)) w s e = refl
on_reply-accepted udp max dc (some (false, resp)) w s e = cc

setup_udp_forward-accepted :
    {W : Type 0} (udp : Client W) (port : ℕ) (max : ℤ) (dc : Option Bool) (w : W)
    (s : UdpForwardSession)
    → (setup_udp_forward udp port max dc w).0 ≡ session s
    → udp_answer udp port dc w ≡ true
unfolding setup_udp_forward
setup_udp_forward-accepted udp port max dc w s e =
    let (answer, w') = udp.send_request (request_payload port dc) w in
    on_reply-accepted udp max dc answer w' s e

module _ {W : Type 0} (out : Outside W) (c : Config) where
  pub After-then :
      (P Q : Tunnel W → Type 0) (k : Tunnel W → Stage W) (x : Stage W)
      → After c P x
      → ((t : Tunnel W) → P t → After c Q (k t))
      → After c Q (x >=> k)
  After-then P Q k (none, t) h step = step t h
  After-then P Q k (some e, t) h step = h

  pub fails-IsDown :
      (e : TunnelError) (P : Tunnel W → Type 0) (t : Tunnel W)
      → (not t.shaken || t.client_closed) ≡ true
      → t.established ≡ false
      → After c P (fails out e t)
  unfolding fails record_failure set_status
  fails-IsDown e P t left pending = (refl, left, simp pending)

  closes-IsDown :
      (e : TunnelError) (P : Tunnel W → Type 0) (t : Tunnel W)
      → IsPending t
      → After c P (closes out e t)
  unfolding closes
  closes-IsDown e P t pending =
      fails-IsDown e P (record t { client_closed = true; transport_closed = true })
        (elim (Bool-cases t.shaken) [ inl s ↦ simp s | inr s ↦ simp s ]) pending

  pub no_client : (t : Tunnel W) → IsBefore t → (not t.shaken || t.client_closed) ≡ true
  no_client t h = simp h.0

  key_result-After :
      (o : Option Bool) (t : Tunnel W) → IsBefore t → After c IsBefore (key_result out o t)
  unfolding key_result
  key_result-After none t h = fails-IsDown key_not_read IsBefore t (no_client t h) h.1
  key_result-After (some true) t h = h
  key_result-After (some false) t h = fails-IsDown key_not_parsed IsBefore t (no_client t h) h.1

  pub load_key-After : (t : Tunnel W) → IsBefore t → After c IsBefore (load_key out c t)
  unfolding load_key
  load_key-After t h = elim (Bool-cases (str_eq c.ssh_key_path "")) [
    | inl e ↦ rw e h
    | inr e ↦ rw e (key_result-After _ _ h)
  ]

  pub shake_hands-After : (t : Tunnel W) → IsBefore t → After c IsPending (shake_hands out c t)
  unfolding shake_hands
  shake_hands-After t h = elim (Bool-cases (out.handshake (auth_methods c) t.world).0) [
    | inl e ↦ rw e h.1
    | inr e ↦ rw e (
        fails-IsDown handshake_failed IsPending
          (record t { transport_closed = true; world = (out.handshake (auth_methods c) t.world).1 })
          (no_client t h) h.1)
  ]

  use_compression-After :
      (a : Bool × Bool) (t : Tunnel W) → IsPending t → After c IsPending (use_compression out a t)
  unfolding use_compression
  use_compression-After (enabled, true) t h = h
  use_compression-After (enabled, false) t h =
      fails-IsDown negotiation_timeout IsPending (record t { client_closed = true })
        (elim (Bool-cases t.shaken) [ inl s ↦ simp s | inr s ↦ simp s ]) h

  pub negotiate_if-After : (t : Tunnel W) → IsPending t → After c IsPending (negotiate_if out c t)
  unfolding negotiate_if
  negotiate_if-After t h = elim (Bool-cases c.compress) [
    | inl e ↦ simp e (use_compression-After _ _ h)
    | inr e ↦ simp e h
  ]

  pub start_data_plane-After :
      (used : String) (t : Tunnel W) → IsPending t → After c IsPending (start_data_plane out used t)
  unfolding start_data_plane
  start_data_plane-After used t h =
      elim (Bool-cases
        (str_eq used "quic" && (out.data_plane_enabled && out.is_quic_stream t.world))) [
          | inl e ↦ rw e h
          | inr e ↦ rw e h
        ]

  abbrev HasTcp : Tunnel W → Type 0
  HasTcp t = IsPending t × (t.tcp_accepted ≡ true)

  tcp_result-After :
      (e : Option ForwardError) (t : Tunnel W)
      → IsPending t
      → (e ≡ none → t.tcp_accepted ≡ true)
      → After c HasTcp (tcp_result out e t)
  unfolding tcp_result
  tcp_result-After none t h accepted = (h, accepted refl)
  tcp_result-After (some e) t h accepted = closes-IsDown (tcp_not_forwarded e) HasTcp t h

  forward_tcp-After : (t : Tunnel W) → IsPending t → After c HasTcp (forward_tcp out c t)
  unfolding forward_tcp
  forward_tcp-After t h =
      tcp_result-After _ _ h (declare_tcp_forward-accepted out.ssh c.remote_port t.world)

  -- The forward of UDP leaves that of TCP alone.
  abbrev HasUdp : Bool → Tunnel W → Type 0
  HasUdp tcp t = IsPending t × (t.udp_accepted ≡ true) × (t.tcp_accepted ≡ tcp)

  udp_result-After :
      (tcp : Bool) (r : Setup) (t : Tunnel W)
      → IsPending t
      → t.tcp_accepted ≡ tcp
      → ((s : UdpForwardSession) → r ≡ session s → t.udp_accepted ≡ true)
      → After c (HasUdp tcp) (udp_result out r t)
  unfolding udp_result
  udp_result-After tcp (session s) t h k accepted = (h, accepted s refl, k)
  udp_result-After tcp (failed e) t h k accepted =
      closes-IsDown (udp_not_forwarded e) (HasUdp tcp) t h

  forward_udp-After :
      (tcp : Bool) (dc : Option Bool) (t : Tunnel W)
      → IsPending t
      → t.tcp_accepted ≡ tcp
      → After c (HasUdp tcp) (forward_udp out c dc t)
  unfolding forward_udp
  forward_udp-After tcp dc t h k = udp_result-After tcp _ _ h k (
      setup_udp_forward-accepted out.udp (to_uint32 c.remote_port) c.udp_max_packet_size dc t.world)

  abbrev pub IsReady : Tunnel W → Type 0
  IsReady t = IsPending t × (is_forwarded c t ≡ true)

  After-weaken :
      (P Q : Tunnel W → Type 0) (x : Stage W)
      → After c P x
      → ((t : Tunnel W) → P t → Q t)
      → After c Q x
  After-weaken P Q (none, t) h k = k t h
  After-weaken P Q (some e, t) h k = h

  pub forward-After :
      (dc : Option Bool) (t : Tunnel W) → IsPending t → After c IsReady (forward out c dc t)
  unfolding forward
  forward-After dc t h = elim (Bool-cases (str_eq c.proto "udp")) [
    | inl udp ↦ rw udp (
        After-weaken (HasUdp t.tcp_accepted) IsReady _
          (forward_udp-After t.tcp_accepted dc t h refl) (λ t' r. (r.0, simp (udp, r.1))))
    | inr not_udp ↦ elim (Bool-cases (str_eq c.proto "both")) [
      | inl both ↦
          rw (not_udp, both)
            (After-weaken (HasUdp true) IsReady _
              (After-then HasTcp (HasUdp true) (forward_udp out c dc) _ (forward_tcp-After t h)
                (λ t' r. forward_udp-After true dc t' r.0 r.1))
              (λ t' r. (r.0, simp (r.1, r.2, not_udp, both))))
      | inr only_tcp ↦
          rw (not_udp, only_tcp)
            (After-weaken HasTcp IsReady _ (forward_tcp-After t h)
              (λ t' r. (r.0, simp (r.1, not_udp, only_tcp))))
    ]
  ]
