-- ===== src/Transport/Fallback.antt =====
-- What mode auto reaches, and what it remembers.
use nssh.Base.{ℕ, ◌+◌, ◌<◌, ◌≡◌, refl, ap, ◌∙◌, true, false, Option, none, some}
use nssh.Base.{ltb, Bool-cases, inl, inr, lt→ltb}
use nssh.Base.Text.{String, str_eq}
use nssh.Base.Table.{Table, find, put, find-put}
use text.Mathlib.TextPositions.{eq_refl}
use nssh.Config.{Config, Stdlib, normalize_transport}
use nssh.Transport.{TransportCacheEntry, Network, probe, known_quic, dial_auto, dial_transport}
use nssh.Transport.{quic_probe_timeout, quic_dial_timeout, quic_retry_probe_interval, dialed}

module _ {W : Type 0} (net : Network W) where
  probe_reaches :
      (addr : String) (now : ℕ) (cache : Table TransportCacheEntry) (w : W)
      → ((v : W) → (net.dial_tcp addr v).0 ≡ true)
      → (probe net addr now cache w).connected ≡ true
  unfolding probe
  probe_reaches addr now cache w tcp =
      elim (Bool-cases (net.dial_quic addr quic_probe_timeout w).0) [
        | inl q ↦ rw q refl
        | inr q ↦ rw q (tcp _)
      ]

  known_quic_reaches :
      (addr : String) (cache : Table TransportCacheEntry) (w : W)
      → ((v : W) → (net.dial_tcp addr v).0 ≡ true)
      → (known_quic net addr cache w).connected ≡ true
  unfolding known_quic
  known_quic_reaches addr cache w tcp =
      elim (Bool-cases (net.dial_quic addr quic_dial_timeout w).0) [
        | inl q ↦ rw q refl
        | inr q ↦ rw q (tcp _)
      ]

  dial_auto_reaches :
      (addr : String) (now : ℕ) (cache : Table TransportCacheEntry) (o : Option TransportCacheEntry)
      (w : W)
      → ((v : W) → (net.dial_tcp addr v).0 ≡ true)
      → (dial_auto net addr now cache o w).connected ≡ true
  unfolding dial_auto
  dial_auto_reaches addr now cache none w tcp = probe_reaches addr now cache w tcp
  dial_auto_reaches addr now cache (some e) w tcp = elim (Bool-cases (str_eq e.mode "quic")) [
    | inl q ↦ simp q (known_quic_reaches addr cache w tcp)
    | inr q ↦ elim (Bool-cases (ltb now e.retry_quic_at)) [
      | inl early ↦ simp (q, early) (tcp w)
      | inr late ↦ simp (q, late) (probe_reaches addr now cache w tcp)
    ]
  ]

  -- A server that accepts TCP is reached in mode auto, whatever the cache holds and whatever QUIC
  -- does.
  pub dial_transport_reaches :
      (std : Stdlib) (c : Config) (addr : String) (now : ℕ) (cache : Table TransportCacheEntry)
      (w : W)
      → normalize_transport std c.transport ≡ "auto"
      → ((v : W) → (net.dial_tcp addr v).0 ≡ true)
      → (dial_transport net std c addr now cache w).connected ≡ true
  unfolding dial_transport
  dial_transport_reaches std c addr now cache w auto tcp =
      rw auto (dial_auto_reaches addr now cache (find addr cache) w tcp)

  -- After a probe that QUIC did not answer, on an address that the cache did not hold, mode auto
  -- dials TCP and nothing else for five minutes, and leaves the cache as it is.
  pub dial_transport_remembers :
      (std : Stdlib) (c : Config) (addr : String) (now later : ℕ)
      (cache : Table TransportCacheEntry) (w v : W)
      → normalize_transport std c.transport ≡ "auto"
      → find addr cache ≡ none
      → (net.dial_quic addr quic_probe_timeout w).0 ≡ false
      → later < now + quic_retry_probe_interval
      → dial_transport net std c addr later (dial_transport net std c addr now cache w).cache v
        ≡ dialed "tcp" (dial_transport net std c addr now cache w).cache (net.dial_tcp addr v)
  unfolding dial_transport
  dial_transport_remembers std c addr now later cache w v auto new silent soon =
      rw auto (ap (λ o. dial_auto net addr later stored o v) found ∙ only_tcp)
    where
      entry : TransportCacheEntry
      entry = record { mode = "tcp"; retry_quic_at = now + quic_retry_probe_interval }

      stored : Table TransportCacheEntry
      stored = (dial_auto net addr now cache (find addr cache) w).cache

      stored_is : stored ≡ put addr entry cache
      stored_is =
          ap (λ o. (dial_auto net addr now cache o w).cache) new
          ∙ (unfold dial_auto probe in rw silent refl)

      found : find addr stored ≡ some entry
      found = ap (find addr) stored_is ∙ find-put addr addr entry cache ∙ rw (eq_refl addr) refl

      only_tcp :
          dial_auto net addr later stored (some entry) v ≡ dialed "tcp" stored (net.dial_tcp addr v)
      only_tcp = unfold dial_auto in rw (lt→ltb later (now + quic_retry_probe_interval) soon) refl
