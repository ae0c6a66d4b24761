-- ===== src/Client/Listing.antt =====
-- printProcessList (main.go): the rows of the table, and how wide its columns are.
pub mod Columns
use nssh.Base.{ℕ, suc, ◌+◌, Bool, Option, none, some, List, [], ◌∷◌, ltb, if◌then◌else◌}
use Prim.Native.String.{len}
use nssh.Base.Int.{ℤ}
use nssh.Base.Text.{String, str_eq, ◌<>◌}
use nssh.Config.{Stdlib}
use nssh.Cli.{display_proto}
use nssh.Client.{
  Json, text, Items, nil, item, Fields, at_key, as_object, as_items, as_number, text_or_empty,
}

pub record Row : Type 0 where
  pub remote_port : String
  pub proto : String
  pub local : String
  pub username : String
  pub remote_server : String
  pub status : String

pub record Widths : Type 0 where
  pub local_width : ℕ
  pub remote_port_width : ℕ
  pub proto_width : ℕ
  pub user_width : ℕ
  pub remote_server_width : ℕ
  pub status_width : ℕ

abbrev pub least_widths : Widths
least_widths = record {
  local_width = 20;
  remote_port_width = 8;
  proto_width = 5;
  user_width = 10;
  remote_server_width = 20;
  status_width = 8;
}

-- A column grows with its text, and some columns up to a limit.
abbrev pub widen : ℕ → ℕ → ℕ
widen width n = if ltb width n then n else width

abbrev pub widen_to : ℕ → ℕ → ℕ → ℕ
widen_to limit width n = if ltb limit (widen width n) then limit else widen width n

unfoldable pub widen_for : Row → Widths → Widths
widen_for r w = record {
  local_width = widen_to 40 w.local_width (len r.local);
  remote_port_width = widen w.remote_port_width (len r.remote_port);
  proto_width = widen w.proto_width (len r.proto);
  user_width = widen_to 20 w.user_width (len r.username);
  remote_server_width = widen_to 30 w.remote_server_width (len r.remote_server);
  status_width = widen w.status_width (len r.status);
}

unfoldable pub widths_for : List Row → Widths → Widths
unfolding widen_for
widths_for [] w = w
widths_for (r ∷ rs) w = widths_for rs (widen_for r w)

abbrev as_text : Json → Option String
as_text (text s) = some s
as_text j = none

abbrev row_with : Stdlib → Fields → Option ℤ → Option ℤ → Option ℤ → Option Row
row_with std m (some server) (some local) (some remote) = some (record {
  remote_port = std.itoa remote;
  proto = display_proto std (as_text (at_key "proto" m));
  local = text_or_empty (at_key "local_host" m) <> (":" <> std.itoa local);
  username = text_or_empty (at_key "username" m);
  remote_server = text_or_empty (at_key "server_host" m) <> (":" <> std.itoa server);
  status = text_or_empty (at_key "status" m);
})
row_with std m server local remote = none

-- `none` is the panic at a port that is no number.
unfoldable pub row_of : Stdlib → Fields → Option Row
unfolding at_key display_proto
row_of std m =
    row_with std m (as_number (at_key "server_port" m)) (as_number (at_key "local_port" m))
      (as_number (at_key "remote_port" m))

-- The rows with their numbers; an entry that is no object has a number and no row.
abbrev numbered : ℕ → Option Row → Option (List (ℕ × Row)) → Option (List (ℕ × Row))
numbered i (some r) (some rows) = some ((i, r) ∷ rows)
numbered i (some r) none = none
numbered i none rows = none

abbrev row_at : Stdlib → ℕ → Option Fields → Option (List (ℕ × Row)) → Option (List (ℕ × Row))
row_at std i none rows = rows
row_at std i (some m) rows = numbered i (row_of std m) rows

unfoldable pub rows_from : Stdlib → ℕ → Items → Option (List (ℕ × Row))
unfolding row_of
rows_from std i nil = some []
rows_from std i (item p ps) = row_at std i (as_object p) (rows_from std (suc i) ps)

abbrev pub bare : List (ℕ × Row) → List Row
bare [] = []
bare ((i, r) ∷ rows) = r ∷ bare rows

pub data Listing : Type 0 where
  no_processes assertion_failed : Listing
  none_running : String → ℤ → Listing
  table : String → ℤ → Widths → List (ℕ × Row) → Listing

abbrev version_text : String → String
version_text v = if str_eq v "" then "unknown" else v

abbrev tabled : String → ℤ → Option (List (ℕ × Row)) → Listing
tabled v pid none = assertion_failed
tabled v pid (some rows) = table v pid (widths_for (bare rows) least_widths) rows

abbrev list_entries : Stdlib → (Items → Items) → String → ℤ → Option Items → Listing
list_entries std sort v pid none = none_running v pid
list_entries std sort v pid (some nil) = none_running v pid
list_entries std sort v pid (some (item p ps)) = tabled v pid (rows_from std 1 (sort (item p ps)))

abbrev with_daemon_pid : Stdlib → (Items → Items) → Fields → Option ℤ → Listing
with_daemon_pid std sort m none = assertion_failed
with_daemon_pid std sort m (some pid) =
    list_entries std sort (version_text (text_or_empty (at_key "daemon_version" m))) pid
      (as_items (at_key "processes" m))

abbrev list_object : Stdlib → (Items → Items) → Option Fields → Listing
list_object std sort none = no_processes
list_object std sort (some m) = with_daemon_pid std sort m (as_number (at_key "daemon_pid" m))

-- `sort` is sort.Slice by "start_time".
unfoldable pub print_process_list : Stdlib → (Items → Items) → Json → Listing
unfolding rows_from widths_for at_key
print_process_list std sort j = list_object std sort (as_object j)
