-- ===== src/Daemon/Target.antt =====
-- `TargetSpec` and `parseTargetSpec` (daemon/daemon.go): the target of a command.
pub mod RoundTrip
mod Runs
use nssh.Base.{Option, none, some, Bool, true, false, if◌then◌else◌}
use nssh.Base.Int.{ℤ, pos}
use nssh.Base.Text.{String, str_eq, split_at}
use nssh.Config.{Stdlib}

pub record TargetSpec : Type 0 where
  pub username : String
  pub server : String
  pub server_port : ℤ
  pub remote_port : ℤ
  pub mode : String

unfoldable pub number_or_zero : Stdlib → String → ℤ
number_or_zero std s = let (n, is_number) = std.atoi s in if is_number then n else pos 0

-- The ports behind the host: the second part of SplitN(.., ":", 3), and the third if there is one.
unfoldable pub with_ports : Stdlib → String → String → String × Option String → TargetSpec
unfolding number_or_zero
with_ports std username host (port, none) = record {
  username = username;
  server = host;
  server_port = number_or_zero std port;
  remote_port = pos 0;
  mode = "single";
}
with_ports std username host (port, some remote) = record {
  username = username;
  server = host;
  server_port = number_or_zero std port;
  remote_port = number_or_zero std remote;
  mode = "single";
}

abbrev pub whole_user : String → String → String → TargetSpec
whole_user username server mode = record {
  username = username;
  server = server;
  server_port = pos 0;
  remote_port = pos 0;
  mode = mode;
}

unfoldable pub with_host : Stdlib → String → String → String × Option String → TargetSpec
unfolding with_ports
with_host std username rest (host, none) = whole_user username rest "single"
with_host std username rest (host, some more) = with_ports std username host (split_at b':' more)

unfoldable pub with_server : Stdlib → String × Option String → TargetSpec
unfolding with_host
with_server std (username, none) = whole_user username "" "single"
with_server std (username, some rest) =
    if str_eq rest "all"
    then whole_user username "" "all"
    else with_host std username rest (split_at b':' rest)

unfoldable pub parse_target_spec : Stdlib → String → TargetSpec
unfolding with_server
parse_target_spec std target = with_server std (split_at b'@' target)
