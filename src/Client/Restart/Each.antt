-- ===== src/Client/Restart/Each.antt =====
-- Every worker of the daemon's list is restarted once, in the order of the list.
use nssh.Base.{
  ℕ, suc, ◌+◌, ◌-◌, ◌≤◌, ◌≡◌, ◌∙◌, arith, Bool, true, false, Option, some, List, [], ◌∷◌, length,
  if◌then◌else◌,
}
use nssh.Base.Int.{ℤ}
use nssh.Base.Text.{String}
use nssh.Client.{
  Json, Items, nil, item, Fields, at_key, object, array, number, text, World, Response, ask,
}
use nssh.Daemon.Dispatch.{cmd_list}
use nssh.Client.Restart.{restart_one, restart_each, restart_all_processes, restart_complete}

-- The list has an object for each of the ids, with a port that is a number.
pub data Lists : Items → List String → Type 0 where
  no_more : Lists nil []
  worker :
      {m : Fields} {id : String} {port : ℤ} {xs : Items} {ids : List String}
      → at_key "id" m ≡ text id
      → at_key "server_port" m ≡ number port
      → Lists xs ids
      → Lists (item (object m) xs) (id ∷ ids)

module _ {W : Type 0} (world : World W) where
  -- One restart after the other, and how many succeed.
  unfoldable pub restart_ids : List String → W → ℕ × W
  restart_ids [] w = (0, w)
  restart_ids (id ∷ ids) w =
      let (done, w') = restart_one world id w in
      let (n, w'') = restart_ids ids w' in (if done then n + 1 else n, w'')

  restart_ids-le : (ids : List String) (w : W) → (restart_ids ids w).0 ≤ length ids
  unfolding restart_ids
  restart_ids-le [] w = omega arith
  restart_ids-le (id ∷ ids) w = ground (arith, restart_ids-le ids (restart_one world id w).1)

  counted :
      (b : Bool) (ok bad n k : ℕ) (w : W)
      → n ≤ k
      → ◌≡◌ {A = Option (ℕ × ℕ) × W}
          (some ((if b then ok + 1 else ok) + n, (if b then bad else bad + 1) + (k - n)), w)
          (some (ok + (if b then n + 1 else n), bad + (suc k - (if b then n + 1 else n))), w)
  counted true ok bad n k w h = ground arith
  counted false ok bad n k w h = ground arith

  restart_each_ids :
      {xs : Items} {ids : List String} (ok bad : ℕ) (w : W)
      → Lists xs ids
      → restart_each world xs ok bad w ≡ (
        some (ok + (restart_ids ids w).0, bad + (length ids - (restart_ids ids w).0)),
        (restart_ids ids w).1,
      )
  unfolding restart_each restart_ids
  restart_each_ids ok bad w no_more = ground arith
  restart_each_ids ok bad w (worker {id = id} {ids = ids} named port rest) =
      rw (named, port)
        (restart_each_ids _ _ (restart_one world id w).1 rest
          ∙ counted (restart_one world id w).0 ok bad (restart_ids ids (restart_one world id w).1).0
              (length ids) (restart_ids ids (restart_one world id w).1).1
              (restart_ids-le ids (restart_one world id w).1))

  -- The restart of all processes asks for one restart for each id of the list, in the order of
  -- the list, and its counts are the restarts that succeeded and the others, if the daemon
  -- answers with a list that is not empty and in which each entry has a port.
  pub restart_all_processes-eq-restart_ids :
      {m : Fields} {p : Json} {ps : Items} {id : String} {ids : List String} (line : String)
      (r : Response) (w : W)
      → (world.send cmd_list [] w).0 ≡ some line
      → world.parse line ≡ some r
      → r.success ≡ true
      → r.body ≡ object m
      → at_key "processes" m ≡ array (item p ps)
      → Lists (item p ps) (id ∷ ids)
      → let after = (world.send cmd_list [] w).1 in
        let n = (restart_ids (id ∷ ids) after).0 in
        restart_all_processes world w
        ≡ (restart_complete n (suc (length ids) - n), (restart_ids (id ∷ ids) after).1)
  unfolding restart_all_processes ask
  restart_all_processes-eq-restart_ids {m} line r w sent parses ok body listed names =
      rw (sent, parses, ok, body, listed, restart_each_ids 0 0 (world.send cmd_list [] w).1 names)
        (ground arith)
