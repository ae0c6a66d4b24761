-- ===== src/Tunnel/Connect/Ends.antt =====
-- How ConnectAndTunnel ends, and what holds while it runs.
use nssh.Base.{◌≡◌, refl, ap, Bool, true, false, Option, none, some, List, [], ◌∷◌}
use nssh.Base.{Bool-cases, inl, inr}
use nssh.Base.Text.{String}
use nssh.Base.Table.{Table}
use nssh.Config.{Config, Stdlib}
use nssh.Stats.{Stats, set_status, record_disconnection}
use nssh.Transport.{Dialed, TransportCacheEntry}
use nssh.Tunnel.{Beat, SelfCheck, alive, lost, unhealthy}
use nssh.Tunnel.Connect.{Outside, Tunnel, TunnelError, Stage}
use nssh.Tunnel.Connect.{negotiate_if, start_data_plane, udp_datagram, forward}
use nssh.Tunnel.Connect.{dial_failed}
use nssh.Tunnel.Connect.Loop.{
  Wakeup, cancelled, closed, tick, Outcome, running, returned, and_serve, fresh_tunnel,
}
use nssh.Tunnel.Connect.Loop.{
  dial, establish, dial_result, connect, disconnects, beat_result, serve, connect_and_tunnel,
}
use nssh.Tunnel.Connect.{heartbeat_failed, udp_ping_failed, connection_closed}
use nssh.Tunnel.Connect.Stages.{
  IsUp, IsDown, After, IsBefore, IsPending, IsReady, After-then, no_client,
}
use nssh.Tunnel.Connect.Stages.{
  fails-IsDown, load_key-After, shake_hands-After, negotiate_if-After, start_data_plane-After,
  forward-After,
}

abbrev pub IsOutcome : {W : Type 0} → Config → Outcome W → Type 0
IsOutcome c (running s t) = IsUp c t
IsOutcome c (returned e t) = IsDown c t

module _ {W : Type 0} (out : Outside W) (std : Stdlib) (c : Config) where
  establish-After :
      (used : String) (t : Tunnel W) → IsBefore t → After c (IsUp c) (establish out std c used t)
  unfolding establish
  establish-After used t h =
      let a = shake_hands-After out c t h in
      let b =
        After-then out c IsPending IsPending (negotiate_if out c) _ a (negotiate_if-After out c) in
      let d =
        After-then out c IsPending IsPending (start_data_plane out used) _ b
          (start_data_plane-After out c used) in
      let f =
        After-then out c IsPending (IsReady out c)
          (λ t'. forward out c (udp_datagram out used t') t') _ d
          (λ t'. forward-After out c (udp_datagram out used t') t') in
      After-then out c (IsReady out c) (IsUp c) (λ t'. (none, record t' { established = true })) _ f
        (λ t' r. (refl, r.1))

  dial_result-After :
      (d : Dialed W) (t : Tunnel W) → IsBefore t → After c (IsUp c) (dial_result out std c d t)
  unfolding dial_result
  dial_result-After d t h =
      let t' = record t { cache = d.cache; world = d.network } in
      elim (Bool-cases d.connected) [
        | inl e ↦ rw e (establish-After d.used t' h)
        | inr e ↦ rw e (fails-IsDown out c dial_failed (IsUp c) t' (no_client out c t h) h.1)
      ]

  connect-After : (t : Tunnel W) → IsBefore t → After c (IsUp c) (connect out std c t)
  unfolding connect
  connect-After t h =
      After-then out c IsBefore (IsUp c) (λ t'. dial_result out std c (dial out std c t') t') _
        (load_key-After out c t h) (λ t'. dial_result-After (dial out std c t') t')

  disconnects-IsOutcome :
      (e : Option TunnelError) (t : Tunnel W) → IsUp c t → IsOutcome c (disconnects out std c e t)
  unfolding disconnects record_disconnection set_status
  disconnects-IsOutcome e t h =
      (refl, elim (Bool-cases t.shaken) [ inl s ↦ simp s | inr s ↦ simp s ], simp (h.0, h.1))

  beat_result-IsOutcome :
      (b : Beat) (t : Tunnel W) (k : SelfCheck → Tunnel W → Outcome W)
      → IsUp c t
      → ((s : SelfCheck) → IsOutcome c (k s t))
      → IsOutcome c (beat_result out std c b t k)
  unfolding beat_result
  beat_result-IsOutcome (alive s) t k h p = p s
  beat_result-IsOutcome lost t k h p = disconnects-IsOutcome (some heartbeat_failed) t h
  beat_result-IsOutcome (unhealthy n) t k h p = disconnects-IsOutcome (some (udp_ping_failed n)) t h

  serve-IsOutcome :
      (ws : List Wakeup) (s : SelfCheck) (t : Tunnel W)
      → IsUp c t
      → IsOutcome c (serve out std c ws s t)
  unfolding serve
  serve-IsOutcome [] s t h = h
  serve-IsOutcome (cancelled ∷ ws) s t h = disconnects-IsOutcome none t h
  serve-IsOutcome (closed with_error ∷ ws) s t h =
      disconnects-IsOutcome (some (connection_closed with_error)) t h
  serve-IsOutcome (tick ∷ ws) s t h =
      beat_result-IsOutcome _ _ (serve out std c ws) h (λ s'. serve-IsOutcome ws s' _ h)

  and_serve-IsOutcome :
      (x : Stage W) (ws : List Wakeup) (s : SelfCheck)
      → After c (IsUp c) x
      → IsOutcome c (and_serve x (serve out std c ws s))
  and_serve-IsOutcome (none, t) ws s h = serve-IsOutcome ws s t h
  and_serve-IsOutcome (some e, t) ws s h = h

  -- While ConnectAndTunnel waits, OnTunnelEstablished has been called and the server has accepted
  -- every forward that the protocol asks for; when it has returned, the status is "offline", the
  -- client is closed if the handshake was done, and OnTunnelEstablished has not been called
  -- without those forwards.
  pub connect_and_tunnel-IsOutcome :
      (ws : List Wakeup) (stats : Stats) (cache : Table TransportCacheEntry) (w : W)
      → IsOutcome c (connect_and_tunnel out std c ws stats cache w)
  unfolding connect_and_tunnel
  connect_and_tunnel-IsOutcome ws stats cache w =
      and_serve-IsOutcome (connect out std c (fresh_tunnel stats cache w)) ws _
        (connect-After (fresh_tunnel stats cache w) (refl, refl))

abbrev is_nil : {W : Type 0} → Outcome W → Bool
is_nil (running s t) = false
is_nil (returned none t) = true
is_nil (returned (some e) t) = false

-- The user has cancelled at some time.
abbrev pub user_cancelled : List Wakeup → Bool
user_cancelled [] = false
user_cancelled (cancelled ∷ ws) = true
user_cancelled (closed with_error ∷ ws) = user_cancelled ws
user_cancelled (tick ∷ ws) = user_cancelled ws

module _ {W : Type 0} (out : Outside W) (std : Stdlib) (c : Config) where
  beat_result_nil :
      (b : Beat) (t : Tunnel W) (k : SelfCheck → Tunnel W → Outcome W) (yes_or_no : Bool)
      → ((s : SelfCheck) → is_nil (k s t) ≡ true → yes_or_no ≡ true)
      → is_nil (beat_result out std c b t k) ≡ true
      → yes_or_no ≡ true
  unfolding beat_result disconnects
  beat_result_nil (alive s) t k b h e = h s e
  beat_result_nil lost t k b h e = cc
  beat_result_nil (unhealthy n) t k b h e = cc

  serve_nil :
      (ws : List Wakeup) (s : SelfCheck) (t : Tunnel W)
      → is_nil (serve out std c ws s t) ≡ true
      → user_cancelled ws ≡ true
  unfolding serve disconnects
  serve_nil [] s t e = cc
  serve_nil (cancelled ∷ ws) s t e = refl
  serve_nil (closed with_error ∷ ws) s t e = cc
  serve_nil (tick ∷ ws) s t e =
      beat_result_nil _ _ (serve out std c ws) (user_cancelled ws) (λ s'. serve_nil ws s' _) e

  and_serve_nil :
      (x : Stage W) (ws : List Wakeup) (s : SelfCheck)
      → is_nil (and_serve x (serve out std c ws s)) ≡ true
      → user_cancelled ws ≡ true
  and_serve_nil (none, t) ws s e = serve_nil ws s t e
  and_serve_nil (some err, t) ws s e = cc

  -- ConnectAndTunnel returns nil only if the user has cancelled.
  pub connect_and_tunnel_nil :
      (ws : List Wakeup) (stats : Stats) (cache : Table TransportCacheEntry) (w : W) (t : Tunnel W)
      → connect_and_tunnel out std c ws stats cache w ≡ returned none t
      → user_cancelled ws ≡ true
  unfolding connect_and_tunnel
  connect_and_tunnel_nil ws stats cache w t e =
      and_serve_nil (connect out std c (fresh_tunnel stats cache w)) ws _ (ap is_nil e)
