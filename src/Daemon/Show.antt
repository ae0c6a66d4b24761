-- ===== src/Daemon/Show.antt =====
-- "get command" (daemon/daemon.go): the command lines that would start the selected workers again.
pub mod Exact
use nssh.Base.{Bool, true, false, Option, none, some, List, [], ◌∷◌, ◌||◌, if◌then◌else◌}
use nssh.Base.Text.{String, ◌<>◌, str_eq}
use nssh.Base.Table.{Table}
use nssh.Config.{Stdlib, normalize_proto}
use nssh.Daemon.Worker.{WorkerInfo}
use nssh.Daemon.Target.{TargetSpec, parse_target_spec}
use nssh.Daemon.State.{Daemon}
use nssh.Daemon.Select.{
  Failure, worker_not_found, multiple_workers, no_processes, select, select_all,
}
use nssh.Daemon.Commands.{values}

-- The Data of one command.
pub record Command : Type 0 where
  pub username : String
  pub command : String
  pub id : String
  pub proto : String

pub data Shown : Type 0 where
  refused : Failure → Shown
  one : Command → Shown
  all : List Command → Shown

-- " -i key", where there is a key
abbrev key_option : WorkerInfo → String
key_option w = if str_eq w.ssh_key_path "" then "" else " -i " <> w.ssh_key_path

-- " --proto p", for a worker that carries UDP
abbrev proto_option : String → String
proto_option proto = if str_eq proto "udp" || str_eq proto "both" then " --proto " <> proto else ""

-- "nssh -R %d:%s:%d %s@%s -p %d --passwd %s[ -i %s] --daemon[ --proto %s]"
unfoldable pub command_line : Stdlib → WorkerInfo → String
command_line std w =
    "nssh -R "
    <> (std.itoa w.remote_port
        <> (":"
            <> (w.local_host
                <> (":"
                    <> (std.itoa w.local_port
                        <> (" "
                            <> (w.username
                                <> ("@"
                                    <> (w.server_host
                                        <> (" -p "
                                            <> (std.itoa w.server_port
                                                <> (" --passwd "
                                                    <> (w.password
                                                        <> (key_option w
                                                            <> (" --daemon"
                                                            <> proto_option (
                                                            normalize_proto std
                                                            w.proto))))))))))))))))

unfoldable pub format_command : Stdlib → WorkerInfo → Command
unfolding command_line
format_command std w = record {
  username = w.username;
  command = command_line std w;
  id = w.id;
  proto = normalize_proto std w.proto;
}

unfoldable pub format_each : Stdlib → List WorkerInfo → List Command
unfolding format_command
format_each std [] = []
format_each std (w ∷ ws) = format_command std w ∷ format_each std ws

unfoldable pub format_all_commands : Stdlib → TargetSpec → Table WorkerInfo → Shown
unfolding format_each
format_all_commands std spec [] = refused (no_processes spec.username spec.server spec.server_port)
format_all_commands std spec (e ∷ es) = all (format_each std (values (e ∷ es)))

unfoldable pub show_selected : Stdlib → TargetSpec → List WorkerInfo → Shown
unfolding format_command
show_selected std spec [] = refused (worker_not_found spec)
show_selected std spec (w ∷ []) = one (format_command std w)
show_selected std spec (w ∷ v ∷ ws) =
    if str_eq spec.server ""
    then refused (multiple_workers (w ∷ v ∷ ws))
    else one (format_command std w)

unfoldable pub handle_get_command : Stdlib → String → Daemon → Shown
unfolding format_all_commands show_selected
handle_get_command std target d =
    let spec = parse_target_spec std target in
    if str_eq spec.mode "all"
    then format_all_commands std spec
        (select_all spec.username spec.server spec.server_port d.workers)
    else show_selected std spec (select spec d.workers)
