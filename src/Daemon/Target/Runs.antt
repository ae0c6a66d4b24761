-- ===== src/Daemon/Target/Runs.antt =====
-- A run of the target grammar.
use nssh.Base.{◌≡◌, refl}
use nssh.Base.Int.{pos}
use nssh.Base.Text.{lacks}
use nssh.Daemon.Worker.{generate_process_key}
use nssh.Daemon.Target.{parse_target_spec, TargetSpec}
use nssh.Daemon.Target.RoundTrip.{parse_target_spec-generate_process_key}
use nssh.Daemon.Sample.{strings}

abbrev ann_there : TargetSpec
ann_there = record {
  username = "ann";
  server = "10.0.0.1";
  server_port = pos 22;
  remote_port = pos 80;
  mode = "single";
}

parse_target_spec-generate_process_key_example :
    parse_target_spec strings (generate_process_key strings "ann" "10.0.0.1" (pos 22) (pos 80))
    ≡ ann_there
unfolding lacks
parse_target_spec-generate_process_key_example =
    parse_target_spec-generate_process_key strings "ann" "10.0.0.1" (pos 22) (pos 80) refl refl refl
      refl refl
