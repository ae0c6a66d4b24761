-- ===== src/Client/Takeover.antt =====
-- The client of a takeover (main.go): the workers that the old daemon exports (daemon/daemon.go) are
-- started again in a new one.
pub mod Moves
use nssh.Base.{ℕ, suc, Bool, Option, none, some, List, [], ◌∷◌, length, if◌then◌else◌, ◌||◌}
use nssh.Base.Int.{ℤ, pos}
use nssh.Base.Text.{String, str_eq}
use nssh.Config.{Config, Stdlib}
use nssh.Daemon.Worker.{WorkerInfo}
use nssh.Daemon.Params.{build_start_params}
use nssh.Daemon.Dispatch.{cmd_start, cmd_takeover}
use nssh.Client.{Json, number, text, array, object, Items, nil, item, Fields, end, field, at_key}
use nssh.Client.{as_object, as_number, as_items, text_or_empty, Response, DaemonStatus, World, ask}
use nssh.Client.{Printed, printed, parsed}
use nssh.Client.Stop.{is_running}

-- One entry of the export; `print_time` is the JSON of a time.
unfoldable pub exported_worker : (ℕ → String) → WorkerInfo → Fields
exported_worker print_time w = field "username" (text w.username) (
    field "server_host" (text w.server_host) (
      field "server_port" (number w.server_port) (
        field "local_host" (text w.local_host) (
          field "local_port" (number w.local_port) (
            field "remote_port" (number w.remote_port) (
              field "password" (text w.password) (
                field "ssh_key" (text w.ssh_key_path)
                  (field "start_time" (text (print_time w.start_time)) end))))))))

-- f, _ := v.(float64); int(f)
abbrev number_or_zero : Json → ℤ
number_or_zero (number z) = z
number_or_zero j = pos 0

-- The configuration that an entry becomes: what is not copied has the zero value of its type.
unfoldable pub imported_config : Fields → Config
unfolding at_key
imported_config m = record {
  server_host = text_or_empty (at_key "server_host" m);
  server_port = number_or_zero (at_key "server_port" m);
  username = text_or_empty (at_key "username" m);
  password = text_or_empty (at_key "password" m);
  ssh_key_path = "";
  local_host = text_or_empty (at_key "local_host" m);
  local_port = number_or_zero (at_key "local_port" m);
  remote_port = number_or_zero (at_key "remote_port" m);
  reconnect_delay = pos 0;
  max_offline_count = pos 0;
  max_lifetime = pos 0;
  transport = "";
  proto = "";
  compress = nssh.Base.false;
  udp_socket_buffer = pos 0;
  udp_max_packet_size = pos 0;
  udp_flow_idle_timeout = pos 0;
  version = "";
}

-- The entries that are objects.
unfoldable pub worker_list : Items → List Fields
worker_list nil = []
worker_list (item (object m) xs) = m ∷ worker_list xs
worker_list (item j xs) = worker_list xs

-- What a takeover does to the machine besides: it kills the old daemon, removes its socket, and starts a
-- daemon. `sort` is sort.Slice by "start_time".
pub record Machine (W : Type 0) : Type 0 where
  pub world : World W
  pub sort : List Fields → List Fields
  pub kill : ℤ → W → W
  pub remove_socket : W → W
  pub start_daemon : W → W

pub data Takeover : Type 0 where
  takeover_fatal takeover_cancelled assertion_failed : Takeover
  migrated : ℕ → ℕ → Takeover

-- "y" or "yes" behind the question; `input` is trimmed and in lower case.
unfoldable pub confirmed : Bool → String → Bool
confirmed force input = force || (str_eq input "y" || str_eq input "yes")

-- 500, 2000 and 200 * time.Millisecond
abbrev kill_pause : ℕ
kill_pause = 500_000_000

abbrev start_pause : ℕ
start_pause = 2_000_000_000

abbrev pub migrate_pause : ℕ
migrate_pause = 200_000_000

module _ {W : Type 0} (std : Stdlib) where
  -- sendStartCommand: its outcome is printed and returned to nobody.
  unfoldable pub send_start_command : World W → Config → W → Printed × W
  unfolding ask build_start_params
  send_start_command world c w =
      let (r, w') = ask world cmd_start (build_start_params std c) w in (printed cmd_start r, w')

  unfoldable pub migrate_each : World W → List Fields → ℕ → W → ℕ × W
  unfolding send_start_command imported_config
  migrate_each world [] done w = (done, w)
  migrate_each world (m ∷ ms) done w =
      migrate_each world ms (suc done)
        (world.sleep migrate_pause (send_start_command world (imported_config m) w).1)

  module _ (machine : Machine W) where
    open machine use {world, sort, kill, remove_socket, start_daemon}

    abbrev count_migrated : ℕ → ℕ × W → Takeover × W
    count_migrated total (done, w) = (migrated done total, w)

    abbrev start_if_down : DaemonStatus × W → W
    start_if_down (st, w) = if is_running st then w else world.sleep start_pause (start_daemon w)

    unfoldable pub migrate : ℤ → List Fields → W → Takeover × W
    unfolding migrate_each
    migrate old_pid ms w =
        let down = remove_socket (world.sleep kill_pause (kill old_pid w)) in
        count_migrated (length ms) (migrate_each world ms 0 (start_if_down (world.status down)))

    abbrev items_or_nil : Option Items → Items
    items_or_nil none = nil
    items_or_nil (some xs) = xs

    abbrev with_pid : Bool → String → Option ℤ → Items → W → Takeover × W
    with_pid force input none xs w = (assertion_failed, w)
    with_pid force input (some pid) xs w =
        if confirmed force input
        then migrate pid (sort (worker_list xs)) w
        else (takeover_cancelled, w)

    abbrev with_export : Bool → String → Option Fields → W → Takeover × W
    with_export force input none w = (takeover_fatal, w)
    with_export force input (some m) w =
        with_pid force input (as_number (at_key "pid" m))
          (items_or_nil (as_items (at_key "workers" m))) w

    abbrev with_response : Bool → String → Option Response → W → Takeover × W
    with_response force input none w = (takeover_fatal, w)
    with_response force input (some r) w =
        if r.success then with_export force input (as_object r.body) w else (takeover_fatal, w)

    -- `input` is the answer to the question, which is asked unless `force` is set.
    unfoldable pub client_takeover : Bool → String → W → Takeover × W
    unfolding confirmed migrate worker_list at_key ask
    client_takeover force input w =
        let (st, w') = world.status w in
        let (r, w'') = ask world cmd_takeover [] w' in
        if is_running st then with_response force input r w'' else (takeover_fatal, w')
