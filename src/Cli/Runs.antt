-- ===== src/Cli/Runs.antt =====
-- Runs of the command line.
use nssh.Base.{◌≡◌, refl, some, [], ◌∷◌}
use nssh.Base.Int.{pos}
use nssh.Base.Text.{String, ◌<>◌}
use nssh.Config.Load.{Env, default_config}
use nssh.Daemon.Worker.{WorkerInfo, new_worker}
use nssh.Daemon.Sample.{strings, sample_config}
use nssh.Cli.{cli_config}
use nssh.Cli.Args.{IsNameable, reverse_text, cli_config_named}

abbrev clean : Env
clean = record { getenv = λ k. ""; scan_int = λ s. some (pos 0) }

here-IsNameable : IsNameable strings "ann" "10.0.0.1" "localhost" (pos 30) (pos 80)
unfolding nssh.Base.Text.lacks
here-IsNameable = record {
  user_plain = refl;
  some_user = refl;
  host_plain = refl;
  some_host = refl;
  local_plain = refl;
  remote_number = refl;
  local_number = refl;
  remote_back = refl;
  local_back = refl;
}

cli_config_named_example :
    cli_config strings clean "dev"
      (record {
        reverse_tunnel = reverse_text strings (pos 30) "localhost" (pos 80);
        port = pos 22;
        password = "pw";
        ssh_key = "";
        reconnect_delay = pos 30;
      })
      (pos 0)
      (("ann" <> ("@" <> "10.0.0.1")) ∷ [])
    ≡ some (record (default_config strings clean "dev") {
      username = "ann";
      server_host = "10.0.0.1";
      server_port = pos 22;
      password = "pw";
      local_host = "localhost";
      local_port = pos 80;
      remote_port = pos 30;
      reconnect_delay = pos 30;
      max_lifetime = pos 0;
    })
cli_config_named_example =
    cli_config_named strings clean "dev" "ann" "10.0.0.1" "localhost" "pw" "" (pos 30) (pos 80)
      (pos 22) (pos 30) (pos 0) here-IsNameable refl refl refl

abbrev ann : WorkerInfo
ann = new_worker strings 5 0 sample_config
