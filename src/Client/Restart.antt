-- ===== src/Client/Restart.antt =====
-- restartAllProcesses (main.go): the list of the daemon, and a restart for each of its entries.
pub mod Each
use nssh.Base.{ℕ, ◌+◌, Bool, false, Option, none, some, [], ◌∷◌, if◌then◌else◌}
use nssh.Base.Int.{ℤ}
use nssh.Base.Text.{String}
use nssh.Daemon.Dispatch.{cmd_list, cmd_restart}
use nssh.Client.{Json, Items, nil, item, Fields, at_key, as_object, as_items, as_number}
use nssh.Client.{text_or_empty, Response, World, ask}

-- How the command ends: a message, the two counts, or the panic of a type assertion.
pub data Restarted : Type 0 where
  list_failed no_processes nothing_to_restart assertion_failed : Restarted
  restart_complete : ℕ → ℕ → Restarted

abbrev pub is_success : Option Response → Bool
is_success none = false
is_success (some r) = r.success

-- A pair of counts; `none` is the panic.
abbrev pub Counting : Type 0 → Type 0
Counting W = ℕ → ℕ → W → Option (ℕ × ℕ) × W

abbrev complete : Option (ℕ × ℕ) → Restarted
complete none = assertion_failed
complete (some (ok, bad)) = restart_complete ok bad

module _ {W : Type 0} (world : World W) where
  unfoldable pub restart_one : String → W → Bool × W
  unfolding ask
  restart_one id w =
      let (r, w') = ask world cmd_restart (("username", id) ∷ []) w in (is_success r, w')

  -- The entry's port is read for the message only.
  abbrev pub restart_numbered : Option ℤ → String → Counting W → Counting W
  restart_numbered none id rest ok bad w = (none, w)
  restart_numbered (some port) id rest ok bad w =
      let (done, w') = restart_one id w in
      rest (if done then ok + 1 else ok) (if done then bad else bad + 1) w'

  -- An entry that is no object is passed over.
  abbrev pub restart_entry : Option Fields → Counting W → Counting W
  restart_entry none rest = rest
  restart_entry (some m) rest =
      restart_numbered (as_number (at_key "server_port" m)) (text_or_empty (at_key "id" m)) rest

  unfoldable pub restart_each : Items → Counting W
  unfolding restart_one at_key
  restart_each nil ok bad w = (some (ok, bad), w)
  restart_each (item p ps) ok bad w = restart_entry (as_object p) (restart_each ps) ok bad w

  abbrev restart_listed : Option Items → W → Restarted × W
  restart_listed none w = (nothing_to_restart, w)
  restart_listed (some nil) w = (nothing_to_restart, w)
  restart_listed (some (item p ps)) w =
      let (counts, w') = restart_each (item p ps) 0 0 w in (complete counts, w')

  abbrev restart_in : Option Fields → W → Restarted × W
  restart_in none w = (no_processes, w)
  restart_in (some m) w = restart_listed (as_items (at_key "processes" m)) w

  abbrev restart_answered : Option Response → W → Restarted × W
  restart_answered none w = (list_failed, w)
  restart_answered (some r) w =
      if r.success then restart_in (as_object r.body) w else (list_failed, w)

  unfoldable pub restart_all_processes : W → Restarted × W
  unfolding restart_each ask
  restart_all_processes w = let (r, w') = ask world cmd_list [] w in restart_answered r w'
