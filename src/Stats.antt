-- ===== src/Stats.antt =====
-- The statistics of a worker (base_core/stats.go): counters, and the status with the time it last
-- changed. An int64 is its 64 bits, as a number below 2^64; a time is a number of nanoseconds, and 0 is
-- the zero time. What is only there to be printed (uptime, memory) is left out.
pub mod History
mod Runs
use nssh.Base.{ℕ, ◌+◌, ◌-◌, ◌%◌, ◌^◌, Bool, true, false, not, ◌&&◌, ltb, if◌then◌else◌}
use nssh.Base.Int.{ℤ}
use nssh.Base.Text.{String, str_eq}
use nssh.Config.{Config}

pub record Stats : Type 0 where
  pub username : String
  pub server_host : String
  pub server_port : ℤ
  pub local_host : String
  pub local_port : ℤ
  pub start_time : ℕ
  pub connection_count : ℕ
  pub failure_count : ℕ
  pub last_connect_time : ℕ
  pub bytes_transferred : ℕ
  pub connection_status : String
  pub last_status_change_time : ℕ

abbrev pub add_int64 : ℕ → ℕ → ℕ
add_int64 a b = (a + b) % 2 ^ 64

unfoldable pub new_stats_manager : Config → ℕ → Stats
new_stats_manager c now = record {
  username = c.username;
  server_host = c.server_host;
  server_port = c.server_port;
  local_host = c.local_host;
  local_port = c.local_port;
  start_time = now;
  connection_count = 0;
  failure_count = 0;
  last_connect_time = 0;
  bytes_transferred = 0;
  connection_status = "offline";
  last_status_change_time = now;
}

-- The status, and the time of the change if it is one; where it is none, the source leaves out the
-- assignment of the status that is there already.
unfoldable pub set_status : String → ℕ → Stats → Stats
set_status status now s = record s {
  connection_status = status;
  last_status_change_time =
      if str_eq s.connection_status status then s.last_status_change_time else now;
}

unfoldable pub record_connection : ℕ → Stats → Stats
unfolding set_status
record_connection now s =
    set_status "online" now
      (record s { connection_count = add_int64 s.connection_count 1; last_connect_time = now })

unfoldable pub record_failure : ℕ → Stats → Stats
unfolding set_status
record_failure now s =
    set_status "offline" now (record s { failure_count = add_int64 s.failure_count 1 })

unfoldable pub record_disconnection : ℕ → Stats → Stats
unfolding set_status
record_disconnection now s = set_status "offline" now s

unfoldable pub add_bytes_transferred : ℕ → Stats → Stats
add_bytes_transferred bytes s = record s { bytes_transferred = add_int64 s.bytes_transferred bytes }

-- 7 * 24 * 60 * time.Minute
abbrev pub max_offline : ℕ
max_offline = 604_800_000_000_000

-- Whether PrintStatus ends the process.
unfoldable pub exits : ℕ → Stats → Bool
exits now s =
    str_eq s.connection_status "offline" && ltb max_offline (now - s.last_status_change_time)
