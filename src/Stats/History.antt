-- ===== src/Stats/History.antt =====
-- What the statistics say of the events that were recorded.
use nssh.Base.{ℕ, ◌+◌, ◌-◌, ◌%◌, ◌^◌, ◌≡◌, refl, ap, ◌∙◌, arith, Bool, true, false, not, ◌&&◌}
use nssh.Base.{List, [], ◌∷◌, ltb, if◌then◌else◌, inl, inr, Bool-cases}
use nssh.Base.Text.{String, str_eq}
use nssh.Config.{Config}
use nssh.Stats.{
  Stats, new_stats_manager, set_status, record_connection, record_failure, record_disconnection,
}
use nssh.Stats.{add_bytes_transferred, exits, max_offline, add_int64}

-- One call of the manager, and the time at which it is made.
pub data Event : Type 0 where
  connected failed disconnected : ℕ → Event
  transferred : ℕ → Event

abbrev pub apply : Event → Stats → Stats
apply (connected now) s = record_connection now s
apply (failed now) s = record_failure now s
apply (disconnected now) s = record_disconnection now s
apply (transferred n) s = add_bytes_transferred n s

-- The latest event comes first.
abbrev pub apply_all : List Event → Stats → Stats
apply_all [] s = s
apply_all (e ∷ es) s = apply e (apply_all es s)

-- The history without its statistics: connections, failures, bytes, and whether the tunnel was up last.
abbrev pub connections : List Event → ℕ
connections [] = 0
connections (connected t ∷ es) = connections es + 1
connections (failed t ∷ es) = connections es
connections (disconnected t ∷ es) = connections es
connections (transferred n ∷ es) = connections es

abbrev pub failures : List Event → ℕ
failures [] = 0
failures (connected t ∷ es) = failures es
failures (failed t ∷ es) = failures es + 1
failures (disconnected t ∷ es) = failures es
failures (transferred n ∷ es) = failures es

abbrev pub bytes : List Event → ℕ
bytes [] = 0
bytes (connected t ∷ es) = bytes es
bytes (failed t ∷ es) = bytes es
bytes (disconnected t ∷ es) = bytes es
bytes (transferred n ∷ es) = bytes es + n

abbrev pub is_up : List Event → Bool
is_up [] = false
is_up (connected t ∷ es) = true
is_up (failed t ∷ es) = false
is_up (disconnected t ∷ es) = false
is_up (transferred n ∷ es) = is_up es

-- When the current status began: the time of the last event that changed it.
abbrev pub since : ℕ → List Event → ℕ
since start [] = start
since start (connected t ∷ es) = if is_up es then since start es else t
since start (failed t ∷ es) = if is_up es then t else since start es
since start (disconnected t ∷ es) = if is_up es then t else since start es
since start (transferred n ∷ es) = since start es

abbrev pub status_name : Bool → String
status_name true = "online"
status_name false = "offline"

pub record Reports (start : ℕ) (es : List Event) (s : Stats) : Type 0 where
  pub connection_total : s.connection_count ≡ connections es % 2 ^ 64
  pub failure_total : s.failure_count ≡ failures es % 2 ^ 64
  pub byte_total : s.bytes_transferred ≡ bytes es % 2 ^ 64
  pub status : s.connection_status ≡ status_name (is_up es)
  pub changed_at : s.last_status_change_time ≡ since start es

module _ (start : ℕ) (es : List Event) (s : Stats) (h : Reports start es s) where
  count_one : (a n k : ℕ) → a ≡ n % 2 ^ 64 → add_int64 a k ≡ (n + k) % 2 ^ 64
  count_one a n k e = omega arith

  changed : (b : Bool) → is_up es ≡ b → s.connection_status ≡ status_name b
  changed b e = h.status ∙ ap status_name e

  Reports-connected : (t : ℕ) → Reports start (connected t ∷ es) (record_connection t s)
  unfolding record_connection set_status
  Reports-connected t = record {
    connection_total = count_one s.connection_count (connections es) 1 h.connection_total;
    failure_total = h.failure_total;
    byte_total = h.byte_total;
    status = refl;
    changed_at = elim (Bool-cases (is_up es)) [
      | inl up ↦ simp (changed true up, h.changed_at, up)
      | inr down ↦ simp (changed false down, down)
    ];
  }

  changed_offline :
      (t : ℕ)
      → (if str_eq s.connection_status "offline" then s.last_status_change_time else t)
        ≡ (if is_up es then t else since start es)
  changed_offline t = elim (Bool-cases (is_up es)) [
    | inl up ↦ simp (changed true up, up)
    | inr down ↦ simp (changed false down, h.changed_at, down)
  ]

  Reports-failed : (t : ℕ) → Reports start (failed t ∷ es) (record_failure t s)
  unfolding record_failure set_status
  Reports-failed t = record {
    connection_total = h.connection_total;
    failure_total = count_one s.failure_count (failures es) 1 h.failure_total;
    byte_total = h.byte_total;
    status = refl;
    changed_at = changed_offline t;
  }

  Reports-disconnected : (t : ℕ) → Reports start (disconnected t ∷ es) (record_disconnection t s)
  unfolding record_disconnection set_status
  Reports-disconnected t = record {
    connection_total = h.connection_total;
    failure_total = h.failure_total;
    byte_total = h.byte_total;
    status = refl;
    changed_at = changed_offline t;
  }

  Reports-transferred : (n : ℕ) → Reports start (transferred n ∷ es) (add_bytes_transferred n s)
  unfolding add_bytes_transferred
  Reports-transferred n = record {
    connection_total = h.connection_total;
    failure_total = h.failure_total;
    byte_total = count_one s.bytes_transferred (bytes es) n h.byte_total;
    status = h.status;
    changed_at = h.changed_at;
  }

-- The manager, from its creation on, reports the history of its calls: the numbers of
-- connections, failures and bytes modulo 2^64, the status that the last connection, failure or
-- disconnection leaves, and when the current status began.
pub apply_all-Reports :
    (c : Config) (start : ℕ) (es : List Event)
    → Reports start es (apply_all es (new_stats_manager c start))
unfolding new_stats_manager
apply_all-Reports c start [] = record {
  connection_total = refl;
  failure_total = refl;
  byte_total = refl;
  status = refl;
  changed_at = refl;
}
apply_all-Reports c start (connected t ∷ es) =
    Reports-connected start es _ (apply_all-Reports c start es) t
apply_all-Reports c start (failed t ∷ es) =
    Reports-failed start es _ (apply_all-Reports c start es) t
apply_all-Reports c start (disconnected t ∷ es) =
    Reports-disconnected start es _ (apply_all-Reports c start es) t
apply_all-Reports c start (transferred n ∷ es) =
    Reports-transferred start es _ (apply_all-Reports c start es) n

-- PrintStatus ends the process exactly if the last event left the tunnel down and it has been
-- down for more than seven days.
pub exits-apply_all :
    (c : Config) (start now : ℕ) (es : List Event)
    → exits now (apply_all es (new_stats_manager c start))
      ≡ (not (is_up es) && ltb max_offline (now - since start es))
unfolding exits
exits-apply_all c start now es =
    let h = apply_all-Reports c start es in
    elim (Bool-cases (is_up es)) [
      | inl up ↦ simp (h.status, up)
      | inr down ↦ simp (h.status, h.changed_at, down)
    ]
