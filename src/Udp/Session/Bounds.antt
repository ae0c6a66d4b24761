-- ===== src/Udp/Session/Bounds.antt =====
-- What the negotiation guarantees, whatever the server replies.
use nssh.Base.{
  ℕ, zero, suc, ◌+◌, ◌%◌, ◌≤◌, ◌<◌, ◌≡◌, refl, sym, subst, ap, ◌∙◌, arith, Bool, true, false,
}
use nssh.Base.{Option, none, some, List, [], ◌∷◌, ◌++◌, length, append_assoc, append-nil}
use nssh.Base.{Bool-cases, inl, inr, ltb, not, ◌==◌}
use nssh.Base.Int.{ℤ}
use nssh.Wire.{put_uint32, uint32_at, byte_at}
use nssh.Udp.Reassembler.{udp_max_datagram_size}
use nssh.Udp.Session.{UdpForwardSession, base_session, read_extension, read_shards}
use nssh.Udp.Session.{read_datagram_caps, negotiate, Client, session}
use nssh.Udp.Session.{open_channels, start_session, handle_reply, on_reply, setup_udp_forward}
use nssh.Udp.Session.{udp_mode_channel, request_payload}
use nssh.Udp.Session.{udp_max_shard_count, udp_datagram_frame_payload_max}

pub record IsSession (s : UdpForwardSession) : Type 0 where
  pub some_shard : 1 ≤ s.shard_count
  pub few_shards : s.shard_count ≤ udp_max_shard_count
  pub packet_pos : 0 < s.max_packet_size
  pub frag_pos : s.frag_enabled ≡ true → 0 < s.frag_payload_max
  pub frag_le : s.frag_payload_max ≤ udp_max_datagram_size
  pub datagram_frag : s.datagram ≡ true → s.frag_enabled ≡ true
  pub datagram_le : s.datagram ≡ true → s.frag_payload_max ≤ udp_datagram_frame_payload_max

base_session-IsSession : (config_max : ℤ) (port : ℕ) → IsSession (base_session config_max port)
unfolding base_session
base_session-IsSession config_max port = ground arith

read_extension-IsSession :
    (resp : List ℕ) (s : UdpForwardSession)
    → s.datagram ≡ false
    → IsSession s
    → IsSession (read_extension resp s) × ((read_extension resp s).datagram ≡ false)
unfolding read_extension
read_extension-IsSession resp s d h = ground arith

read_shards-IsSession :
    (resp : List ℕ) (s : UdpForwardSession)
    → s.datagram ≡ false
    → IsSession s
    → IsSession (read_shards resp s) × ((read_shards resp s).datagram ≡ false)
unfolding read_shards
read_shards-IsSession resp s d h = ground arith

read_datagram_caps-IsSession :
    (dc : Option Bool) (resp : List ℕ) (s : UdpForwardSession)
    → s.datagram ≡ false
    → IsSession s
    → IsSession (read_datagram_caps dc resp s)
unfolding read_datagram_caps
read_datagram_caps-IsSession dc resp s d h = ground arith

base_no_datagram : (config_max : ℤ) (port : ℕ) → (base_session config_max port).datagram ≡ false
unfolding base_session
base_no_datagram config_max port = refl

-- Whatever the reply, the negotiated session has 1 to 32 channels, a positive packet size,
-- fragments of 1 to 65507 bytes where they are enabled, and for datagrams fragments of at most
-- 1136 bytes.
pub negotiate-IsSession :
    (config_max : ℤ) (dc : Option Bool) (resp : List ℕ) → IsSession (negotiate config_max dc resp)
unfolding negotiate
negotiate-IsSession config_max dc resp =
    let port = uint32_at resp 0 in
    let (e, d) =
      read_extension-IsSession resp (base_session config_max port)
        (base_no_datagram config_max port) (base_session-IsSession config_max port) in
    let (f, d') = read_shards-IsSession resp _ d e in read_datagram_caps-IsSession dc resp _ d' f

negotiate_no_channel :
    (config_max : ℤ) (dc : Option Bool) (resp : List ℕ) → (negotiate config_max dc resp).chs ≡ []
unfolding negotiate
negotiate_no_channel config_max dc resp =
    keeps_datagram
      (read_shards resp (read_extension resp (base_session config_max (uint32_at resp 0))))
    ∙ keeps_shards (read_extension resp (base_session config_max (uint32_at resp 0)))
    ∙ keeps_extension (base_session config_max (uint32_at resp 0))
    ∙ unfold base_session in refl
  where
    keeps_datagram : (s : UdpForwardSession) → (read_datagram_caps dc resp s).chs ≡ s.chs
    keeps_datagram s = ground arith

    keeps_shards : (s : UdpForwardSession) → (read_shards resp s).chs ≡ s.chs
    keeps_shards s = ground arith

    keeps_extension : (s : UdpForwardSession) → (read_extension resp s).chs ≡ s.chs
    keeps_extension s = ground arith

session-injective : {s t : UdpForwardSession} → session s ≡ session t → s ≡ t
session-injective e = cc

-- The shard indices from `i` on.
abbrev pub indices : ℕ → ℕ → List ℕ
indices i zero = []
indices i (suc n) = i ∷ indices (i + 1) n

-- What a session that setupUDPForward returns is like: usable numbers, and either a datagram
-- data plane with no channel, or every channel that was negotiated, in order.
pub record IsSetUp (t : UdpForwardSession) : Type 0 where
  pub negotiated : IsSession t
  pub by_datagram : t.datagram ≡ true → t.chs ≡ []
  pub by_channels : t.datagram ≡ false → t.chs ≡ indices 0 t.shard_count

module _ {W : Type 0} (client : Client W) where
  open_channels-session :
      (s t : UdpForwardSession) (rounds i : ℕ) (opened : List ℕ) (w : W)
      → (open_channels client s rounds i opened w).0 ≡ session t
      → t ≡ record s { chs = opened ++ indices i rounds }
  unfolding open_channels
  open_channels-session s t zero i opened w e = cc (append-nil opened)
  open_channels-session s t (suc rounds) i opened w e =
      elim (Bool-cases (client.open_channel (put_uint32 s.actual_port ++ (i % 256 ∷ [])) w).0) [
        | inl yes_open ↦
            open_channels-session s t rounds (i + 1) (opened ++ (i ∷ [])) _
              (rw (yes_open, open_channels) at e)
            ∙ ap (λ c. record s { chs = c }) (append_assoc opened (i ∷ []) (indices (i + 1) rounds))
        | inr not_open ↦ cc (rw (not_open, open_channels) at e)
      ]

  start_session-IsSetUp :
      (s t : UdpForwardSession) (w : W)
      → s.chs ≡ []
      → IsSession s
      → (start_session client s w).0 ≡ session t
      → IsSetUp t
  unfolding start_session
  start_session-IsSetUp s t w none_yet h e = elim (Bool-cases s.datagram) [
    | inl yes_dg ↦
        subst IsSetUp (session-injective (sym (dg_eq yes_dg) ∙ e))
          (record { negotiated = h; by_datagram = λ d. none_yet; by_channels = λ d. cc })
    | inr not_dg ↦
        subst IsSetUp
          (sym (open_channels-session s t s.shard_count 0 [] w (sym (ch_eq not_dg) ∙ e)))
          (record {
            negotiated = record {
              some_shard = h.some_shard;
              few_shards = h.few_shards;
              packet_pos = h.packet_pos;
              frag_pos = h.frag_pos;
              frag_le = h.frag_le;
              datagram_frag = h.datagram_frag;
              datagram_le = h.datagram_le;
            };
            by_datagram = λ d. cc;
            by_channels = λ d. refl;
          })
  ]
    where
      dg_eq : s.datagram ≡ true → (start_session client s w).0 ≡ session s
      dg_eq d = simp d

      ch_eq :
          s.datagram ≡ false
          → (start_session client s w).0 ≡ (open_channels client s s.shard_count 0 [] w).0
      ch_eq d = simp d

  handle_reply-IsSetUp :
      (config_max : ℤ) (dc : Option Bool) (resp : List ℕ) (t : UdpForwardSession) (w : W)
      → (handle_reply client config_max dc resp w).0 ≡ session t
      → IsSetUp t
  unfolding handle_reply
  handle_reply-IsSetUp config_max dc resp t w e = elim (Bool-cases (ltb (length resp) 5)) [
    | inl short ↦ cc (rw short at e)
    | inr enough ↦ elim (Bool-cases (not (byte_at resp 4 == udp_mode_channel))) [
      | inl other ↦ cc (rw (enough, other) at e)
      | inr channel ↦
          start_session-IsSetUp (negotiate config_max dc resp) t w
            (negotiate_no_channel config_max dc resp) (negotiate-IsSession config_max dc resp)
            (rw (enough, channel) at e)
    ]
  ]

  on_reply-IsSetUp :
      (config_max : ℤ) (dc : Option Bool) (reply : Option (Bool × List ℕ)) (t : UdpForwardSession)
      (w : W)
      → (on_reply client config_max dc reply w).0 ≡ session t
      → IsSetUp t
  on_reply-IsSetUp config_max dc none t w e = unfold on_reply in cc
  on_reply-IsSetUp config_max dc (some (false, resp)) t w e = unfold on_reply in cc
  on_reply-IsSetUp config_max dc (some (true, resp)) t w e =
      handle_reply-IsSetUp config_max dc resp t w (unfold on_reply in e)

  -- Every session that setupUDPForward returns has its numbers in range; with a datagram data
  -- plane it has no channel, and otherwise all the channels that were negotiated, in order.
  pub setup_udp_forward-IsSetUp :
      (remote_port : ℕ) (config_max : ℤ) (dc : Option Bool) (t : UdpForwardSession) (w : W)
      → (setup_udp_forward client remote_port config_max dc w).0 ≡ session t
      → IsSetUp t
  unfolding setup_udp_forward
  setup_udp_forward-IsSetUp remote_port config_max dc t w e =
      let replied = client.send_request (request_payload remote_port dc) w in
      on_reply-IsSetUp config_max dc replied.0 t replied.1 e
