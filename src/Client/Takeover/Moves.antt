-- ===== src/Client/Takeover/Moves.antt =====
-- Each exported worker is started once, with the configuration that Cli gives it.
use nssh.Base.{ℕ, suc, ◌+◌, ◌≡◌, ap, ◌∙◌, arith, List, [], ◌∷◌, map, length}
use nssh.Base.Text.{String}
use nssh.Config.{Config, Stdlib}
use nssh.Daemon.Worker.{WorkerInfo}
use nssh.Cli.{takeover_config}
use nssh.Client.{World}
use nssh.Client.Takeover.{exported_worker, send_start_command, migrate_each, migrate_pause}

module _ {W : Type 0} (std : Stdlib) (world : World W) where
  -- One start after the other, whatever the daemon answers.
  unfoldable pub start_each : List Config → W → W
  start_each [] w = w
  start_each (c ∷ cs) w =
      start_each cs (world.sleep migrate_pause (send_start_command std world c w).1)

  -- The loop of a takeover sends one start for each exported worker, in order, with the
  -- configuration of takeover_config, and counts every one as migrated, whatever the daemon
  -- answers.
  pub migrate_each-eq-start_each :
      (print_time : ℕ → String) (ws : List WorkerInfo) (done : ℕ) (w : W)
      → migrate_each std world (map (exported_worker print_time) ws) done w
        ≡ (done + length ws, start_each (map takeover_config ws) w)
  unfolding migrate_each start_each exported_worker takeover_config
  migrate_each-eq-start_each print_time [] done w = ground arith
  migrate_each-eq-start_each print_time (v ∷ ws) done w =
      migrate_each-eq-start_each print_time ws (suc done) _
      ∙ ap (λ n. (n, start_each (map takeover_config (v ∷ ws)) w)) (omega arith)
