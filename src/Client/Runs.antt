-- ===== src/Client/Runs.antt =====
-- Runs of the client against a daemon with one worker, which stops a quarter of a second after it was
-- asked. The world is its clock.
use nssh.Base.{ℕ, ◌+◌, ◌-◌, ◌≡◌, refl, arith, true, none, some, [], ◌∷◌, map, ltb, if◌then◌else◌}
use nssh.Base.Int.{pos}
use nssh.Daemon.Worker.{WorkerInfo, new_worker}
use nssh.Daemon.Sample.{strings, sample_config}
use nssh.Base.{false, List, All}
use nssh.Stats.{new_stats_manager}
use nssh.Tunnel.Connect.Sample.{server}
use nssh.Tunnel.Connect.Loop.{tick, closed, cancelled}
use nssh.Client.Foreground.{Round, Event, run_client}
use nssh.Client.Listing.{Row, widths_for, least_widths}
use nssh.Client.Listing.Columns.{IsLimited, Fits, widths_for-Fits}
use nssh.Cli.{takeover_config}
use nssh.Client.{number, text, array, object, nil, item, Fields, end, field, at_key}
use nssh.Client.{Response, running, not_exist, World}
use nssh.Client.Restart.{restart_all_processes, restart_complete}
use nssh.Client.Restart.Each.{no_more, worker, restart_ids, restart_all_processes-eq-restart_ids}
use nssh.Client.Stop.{Stopped, stopped, stop_daemon}
use nssh.Client.Stop.Waits.{IsGone, IsClock, stop_daemon_done}
use nssh.Client.Takeover.{exported_worker, migrate_each}
use nssh.Client.Takeover.Moves.{start_each, migrate_each-eq-start_each}

abbrev ann : Fields
ann = field "id" (text "ann@10.0.0.1:22:30") (field "server_port" (number (pos 22)) end)

abbrev listing : Fields
listing = field "processes" (array (item (object ann) nil)) end

abbrev success : Response
success = record { success = true; body = object listing; error = "" }

abbrev world : World ℕ
world = record {
  send = λ cmd ps w. (some "ok", w);
  parse = λ line. some success;
  status = λ w. (if ltb w 250_000_000 then running else not_exist, w);
  now = λ w. w;
  sleep = λ t w. w + t;
  pid_file = λ w. none;
  terminate = λ pid w. (true, w);
}

clock : IsClock world
clock = record { looks = λ w. omega arith; sleeps = λ t w. omega arith }

restart_all_processes-eq-restart_ids_example : restart_all_processes world 5 ≡ (
  restart_complete
      (restart_ids world ("ann@10.0.0.1:22:30" ∷ []) 5).0
      (1 - (restart_ids world ("ann@10.0.0.1:22:30" ∷ []) 5).0),
  (restart_ids world ("ann@10.0.0.1:22:30" ∷ []) 5).1,
)
unfolding at_key
restart_all_processes-eq-restart_ids_example =
    restart_all_processes-eq-restart_ids world "ok" success 5 refl refl refl refl refl
      (worker refl refl no_more)

stop_daemon_done_example :
    (r : Stopped) × ((stop_daemon world 51 0).0 ≡ some r)
    × (r ≡ stopped → IsGone world (stop_daemon world 51 0).1)
stop_daemon_done_example = stop_daemon_done world clock 0

abbrev old_worker : WorkerInfo
old_worker = new_worker strings 5 0 sample_config

migrate_each-eq-start_each_example :
    migrate_each strings world (map (exported_worker (λ t. "now")) (old_worker ∷ [])) 0 7
    ≡ (1, start_each strings world (map takeover_config (old_worker ∷ [])) 7)
migrate_each-eq-start_each_example =
    migrate_each-eq-start_each strings world (λ t. "now") (old_worker ∷ []) 0 7

abbrev lost_once : List Round
lost_once =
    record { done = false; wakeups = tick ∷ closed true ∷ []; done_waiting = false }
    ∷ record { done = false; wakeups = cancelled ∷ []; done_waiting = false }
    ∷ record { done = true; wakeups = []; done_waiting = false }
    ∷ []

abbrev lost_once_events : List Event
lost_once_events =
    run_client server strings sample_config lost_once (new_stats_manager sample_config 1) [] 5

abbrev short_row : Row
short_row = record {
  remote_port = "30";
  proto = "both";
  local = "localhost:80";
  username = "ann";
  remote_server = "10.0.0.1:22";
  status = "online";
}

abbrev long_row : Row
long_row = record short_row { username = "somebody-with-a-long-name"; status = "reconnecting" }

widths_for-Fits_example :
    IsLimited (widths_for (short_row ∷ long_row ∷ []) least_widths)
    × All (Fits (widths_for (short_row ∷ long_row ∷ []) least_widths)) (short_row ∷ long_row ∷ [])
widths_for-Fits_example = widths_for-Fits (short_row ∷ long_row ∷ [])
