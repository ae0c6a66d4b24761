-- ===== src/Daemon/Params/Runs.antt =====
-- Runs of the start parameters.
use nssh.Base.{◌≡◌, refl, none}
use nssh.Daemon.Params.{validate_config}
use nssh.Daemon.Params.{server_host_error, local_host_ok}
use nssh.Daemon.Sample.{strings, sample_config}

sample_is_valid : validate_config strings sample_config ≡ none
unfolding validate_config server_host_error local_host_ok
sample_is_valid = refl
