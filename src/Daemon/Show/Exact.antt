-- ===== src/Daemon/Show/Exact.antt =====
-- The command of one worker.
use nssh.Base.{◌≡◌, refl, some}
use nssh.Base.Table.{find}
use nssh.Config.{Stdlib}
use nssh.Daemon.Worker.{WorkerInfo, worker_key}
use nssh.Daemon.Target.RoundTrip.{parse_target_spec-generate_process_key}
use nssh.Daemon.State.{Daemon}
use nssh.Daemon.Select.Exact.{IsNamed, IsKeyed, select-found}
use nssh.Daemon.Show.{one, format_command, show_selected, handle_get_command}

-- With the key of a worker as its target, "get command" shows the command of that worker, in a
-- keyed table and for a worker whose fields the target can name.
pub handle_get_command-shows :
    (std : Stdlib) (w : WorkerInfo) (d : Daemon)
    → IsNamed std w
    → IsKeyed std d.workers
    → find (worker_key std w) d.workers ≡ some w
    → handle_get_command std (worker_key std w) d ≡ one (format_command std w)
unfolding handle_get_command show_selected
handle_get_command-shows std w d n t there =
    rw
      (
        parse_target_spec-generate_process_key std w.username w.server_host w.server_port
            w.remote_port n.user n.host n.plain n.port_back n.remote_back,
        select-found std w d.workers n t there,
      )
      refl
