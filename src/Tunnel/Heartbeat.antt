-- ===== src/Tunnel/Heartbeat.antt =====
-- When the self-check closes a tunnel.
use nssh.Base.{ℕ, ◌≡◌, refl, arith, Bool, true, false, none, some}
use nssh.Base.{List, [], ◌∷◌, ◌&&◌, ◌||◌, not, if◌then◌else◌}
use mathlib.Core.Bool.{false≢true}
use nssh.Tunnel.{Ping, answered, unsupported, failed, SelfCheck, alive, self_check}
use nssh.Base.{length, take, ltb, ◌≤◌}
use nssh.Base.Text.{String}
use nssh.Config.{Stdlib}
use nssh.Wire.{byte_at}
use nssh.Tunnel.{parse_udp_ping_reply, bytes_equal, carries_udp, malformed_reply, nonce_mismatch}
use nssh.Tunnel.{check_flags, has_flag, udp_flag_shared_entry_healthy}
use nssh.Tunnel.{udp_flag_config_unknown, udp_flag_config_changed}

-- The enabled self-check over the results of its pings: whether the tunnel is still open behind them.
unfoldable pub survives : SelfCheck → List Ping → Bool
unfolding self_check
survives s [] = true
survives s (answered ∷ ps) = elim (self_check answered s) [ alive s' ↦ survives s' ps | _ ↦ false ]
survives s (unsupported ∷ ps) = true
survives s (failed ∷ ps) = elim (self_check failed s) [ alive s' ↦ survives s' ps | _ ↦ false ]

abbrev pub is_failed : Ping → Bool
is_failed answered = false
is_failed unsupported = false
is_failed failed = true

abbrev pub is_supported : Ping → Bool
is_supported answered = true
is_supported unsupported = false
is_supported failed = true

abbrev pub all_supported : List Ping → Bool
all_supported [] = true
all_supported (p ∷ ps) = is_supported p && all_supported ps

abbrev pub starts_failed : List Ping → Bool
starts_failed [] = false
starts_failed (p ∷ ps) = is_failed p

-- Two failures in a row, somewhere.
abbrev pub two_in_a_row : List Ping → Bool
two_in_a_row [] = false
two_in_a_row (p ∷ ps) = (is_failed p && starts_failed ps) || two_in_a_row ps

-- Failures so far: none or one.
abbrev checking : ℕ → SelfCheck
checking n = record { disabled = false; failures = n }

survives_after :
    (ps : List Ping)
    → all_supported ps ≡ true
    → (survives (checking 0) ps ≡ not (two_in_a_row ps))
      × (survives (checking 1) ps ≡ not (starts_failed ps || two_in_a_row ps))
unfolding survives self_check
survives_after [] h = (refl, refl)
survives_after (answered ∷ ps) h = ((survives_after ps h).0, (survives_after ps h).0)
survives_after (unsupported ∷ ps) h = absurd (false≢true h)
survives_after (failed ∷ ps) h = ((survives_after ps h).1, refl)

-- With a server that knows the ping, the self-check closes a fresh tunnel exactly if two pings in
-- a row fail.
pub survives-eq-two_in_a_row :
    (ps : List Ping)
    → all_supported ps ≡ true
    → survives (record { disabled = false; failures = 0 }) ps ≡ not (two_in_a_row ps)
survives-eq-two_in_a_row ps h = (survives_after ps h).0

-- A ping reply that is accepted has at least 21 bytes and echoes the nonce, reports the shared
-- entry as healthy if the tunnel carries UDP, and does not report a change of a configuration
-- that is known.
pub parse_udp_ping_reply_sound :
    (std : Stdlib) (nonce resp : List ℕ) (proto : String)
    → parse_udp_ping_reply std nonce resp proto ≡ none
    → (21 ≤ length resp)
      × (bytes_equal (take 16 resp) nonce ≡ true)
      × (carries_udp std proto ≡ true
          → has_flag (byte_at resp 20) udp_flag_shared_entry_healthy ≡ true)
      × (has_flag (byte_at resp 20) udp_flag_config_unknown ≡ false
          → has_flag (byte_at resp 20) udp_flag_config_changed ≡ false)
unfolding parse_udp_ping_reply
parse_udp_ping_reply_sound std nonce resp proto h =
    sound (length resp) (bytes_equal (take 16 resp) nonce) (carries_udp std proto) (byte_at resp 20)
      h
  where
    sound :
        (n : ℕ) (echo udp : Bool) (flags : ℕ)
        → (if ltb n 21
            then some (malformed_reply n)
            else if not echo
            then some nonce_mismatch
            else check_flags udp flags)
          ≡ none
        → (21 ≤ n)
          × (echo ≡ true)
          × (udp ≡ true → has_flag flags udp_flag_shared_entry_healthy ≡ true)
          × (has_flag flags udp_flag_config_unknown ≡ false
              → has_flag flags udp_flag_config_changed ≡ false)
    sound n echo udp flags h = unfold check_flags in ground arith
