-- ===== src/Daemon/Commands/Keyed.antt =====
-- The commands keep the table keyed, and stopping all workers leaves none running.
use nssh.Base.{ℕ, ◌<◌, ◌≡◌, refl, sym, ap, ◌∙◌, subst, true, Option, none, some, List, [], ◌∷◌}
use nssh.Base.{if◌then◌else◌, Bool-cases, Option-cases, inl, inr}
use mathlib.Core.Option
use nssh.Base.Text.{String, str_eq}
use nssh.Base.Table.{Table, find, put, delete, AllEntries-find, AllEntries-put}
use nssh.Base.Table.{OneEach-put, find-delete}
use text.Mathlib.TextPositions.{eq_refl}
use nssh.Config.{Config, Stdlib}
use nssh.Daemon.Worker.{WorkerInfo, worker_key, config_key, new_worker}
use nssh.Daemon.Params.{Params, param}
use nssh.Daemon.State.{Daemon, cancel_handle, start_worker}
use nssh.Daemon.State.Owned.{IsOwned, Holds, member, member-cancel_handle, cancel_handle_self}
use nssh.Daemon.State.Owned.{cancel_found_keeps, cancel_handle_keeps}
use nssh.Daemon.Select.Exact.{IsKeyed}
use nssh.Daemon.Commands.{
  refresh_worker, register_status, registered_worker, registered_as, register_key, status_param,
  heard_from,
}
use nssh.Daemon.Commands.{
  handle_register, values, cancel_all, delete_all, stop_listed, stop_all, handle_stop_all,
}

put-IsKeyed :
    (std : Stdlib) (k : String) (w : WorkerInfo) (m : Table WorkerInfo)
    → k ≡ worker_key std w
    → IsKeyed std m
    → IsKeyed std (put k w m)
put-IsKeyed std k w m e t = record {
  one_each = OneEach-put k w m t.one_each;
  keys = AllEntries-put (λ j v. j ≡ worker_key std v) k w m e t.keys;
}

-- startWorker keeps the table keyed.
pub start_worker-IsKeyed :
    (std : Stdlib) (now : ℕ) (c : Config) (d : Daemon)
    → IsKeyed std d.workers
    → IsKeyed std (start_worker std now c d).workers
unfolding start_worker new_worker
start_worker-IsKeyed std now c d t =
    put-IsKeyed std (config_key std c) (new_worker std now d.started c) _ refl
      (subst (IsKeyed std) (sym (cancel_found_keeps (find (config_key std c) d.workers) d).0) t)

register_status_keeps :
    (std : Stdlib) (now : ℕ) (s time : String) (w : WorkerInfo)
    → worker_key std (register_status std now s time w) ≡ worker_key std w
unfolding register_status
register_status_keeps std now s time w = elim (Bool-cases (str_eq time "")) [
  | inl e ↦ rw e (with_status_keeps now)
  | inr e ↦ elim (Option-cases (std.parse_time time)) [
    | inl p ↦ simp (e, p)
    | inr (t, p) ↦ simp (e, p) (with_status_keeps t)
  ]
]
  where
    with_status_keeps :
        (t : ℕ)
        → worker_key std
            (if str_eq w.status s then w else record w { status = s; status_change_time = some t })
          ≡ worker_key std w
    with_status_keeps t = elim (Bool-cases (str_eq w.status s)) [ inl e ↦ simp e | inr e ↦ simp e ]

registered_as_key :
    (std : Stdlib) (now : ℕ) (ps : Params) (o : Option WorkerInfo)
    → ((w : WorkerInfo) → o ≡ some w → register_key std ps ≡ worker_key std w)
    → register_key std ps ≡ worker_key std (registered_as std now ps o)
unfolding refresh_worker registered_worker
registered_as_key std now ps none h = refl
registered_as_key std now ps (some w) h =
    h w refl
    ∙ sym (
        register_status_keeps std now (status_param ps) (param ps "last_status_change_time")
          (heard_from std now ps w))

-- A registration or heartbeat keeps the table keyed: one worker for each key, each under the key
-- of its fields.
pub handle_register-IsKeyed :
    (std : Stdlib) (now : ℕ) (ps : Params) (d : Daemon)
    → IsKeyed std d.workers
    → IsKeyed std (handle_register std now ps d).1.workers
unfolding handle_register
handle_register-IsKeyed std now ps d t = elim (Bool-cases (str_eq (param ps "username") "")) [
  | inl e ↦ rw e t
  | inr e ↦ rw e (
      put-IsKeyed std (register_key std ps) _ d.workers
        (registered_as_key std now ps (find (register_key std ps) d.workers) (λ w f.
          AllEntries-find (λ j v. j ≡ worker_key std v) (register_key std ps) d.workers t.keys f))
        t)
]

find-delete_all :
    (es m : Table WorkerInfo) (j : String)
    → (find j es ≡ none → find j m ≡ none)
    → find j (delete_all es m) ≡ none
unfolding delete_all find
find-delete_all [] m j h = h refl
find-delete_all ((k, w) ∷ es) m j h = find-delete_all es (delete k m) j (λ e.
    elim (Bool-cases (str_eq k j)) [
      | inl same ↦ find-delete k j m ∙ rw same refl
      | inr other ↦ find-delete k j m ∙ rw other (h (rw other e))
    ])

no_entry : (m : Table WorkerInfo) → ((j : String) → find j m ≡ none) → m ≡ []
unfolding find
no_entry [] h = refl
no_entry ((k, w) ∷ m) h = absurd (some≢none (rw (eq_refl k) at (h k)))
  where
    some≢none : some w ≡ none → ⊥
    some≢none e = cc

member-cancel_all :
    (ws : List WorkerInfo) (d : Daemon) (h : ℕ)
    → member h d.cancelled ≡ true
    → member h (cancel_all ws d).cancelled ≡ true
unfolding cancel_all
member-cancel_all [] d h e = e
member-cancel_all (w ∷ ws) d h e =
    member-cancel_all ws (cancel_handle w.cancel d) h (member-cancel_handle w.cancel d h e)

member-cancel_all-found :
    (m : Table WorkerInfo) (d : Daemon) (h : ℕ)
    → Holds m h
    → member h (cancel_all (values m) d).cancelled ≡ true
unfolding cancel_all values find
member-cancel_all-found [] d h (k, w, e, c) = absurd (none≢some e)
  where
    none≢some : none ≡ some w → ⊥
    none≢some e = cc
member-cancel_all-found ((i, v) ∷ m) d h (k, w, e, c) = elim (Bool-cases (str_eq i k)) [
  | inl same ↦ member-cancel_all (values m) (cancel_handle v.cancel d) h (
      cancel_handle_self v.cancel d h
        (ap (λ u. u.cancel) (Option.some-injective v w (rw same at e)) ∙ c))
  | inr other ↦ member-cancel_all-found m (cancel_handle v.cancel d) h (k, w, rw other at e, c)
]

cancel_all_keeps : (ws : List WorkerInfo) (d : Daemon) → (cancel_all ws d).workers ≡ d.workers
unfolding cancel_all
cancel_all_keeps [] d = refl
cancel_all_keeps (w ∷ ws) d =
    cancel_all_keeps ws (cancel_handle w.cancel d) ∙ (cancel_handle_keeps w.cancel d).0

all_cancelled :
    (d : Daemon) (h : ℕ)
    → IsOwned d
    → h < d.started
    → member h (cancel_all (values d.workers) d).cancelled ≡ true
all_cancelled d h v lt = elim (v.owned h lt) [
  | inl gone ↦ member-cancel_all (values d.workers) d h gone
  | inr held ↦ member-cancel_all-found d.workers d h held
]

-- Stopping all workers empties the table and cancels every goroutine that was ever started, if
-- none was lost before.
pub handle_stop_all-cancels :
    (now : ℕ) (d : Daemon) (h : ℕ)
    → IsOwned d
    → h < d.started
    → ((handle_stop_all now d).1.workers ≡ [])
      × (member h (handle_stop_all now d).1.cancelled ≡ true)
unfolding handle_stop_all stop_listed find
handle_stop_all-cancels now d h v lt = stopped d.workers refl
  where
    nothing_held : Holds [] h → ⊥
    nothing_held (k, w, e, c) = none≢some e
      where
        none≢some : none ≡ some w → ⊥
        none≢some e = cc

    left :
        (m : Table WorkerInfo) → d.workers ≡ m → delete_all m (cancel_all (values m) d).workers ≡ []
    left m e =
        no_entry _
          λ j. find-delete_all m _ j λ f. ap (find j) (cancel_all_keeps (values m) d ∙ e) ∙ f

    stopped :
        (m : Table WorkerInfo)
        → d.workers ≡ m
        → ((stop_all now m d).1.workers ≡ []) × (member h (stop_all now m d).1.cancelled ≡ true)
    stopped [] e = (
      e,
      elim (v.owned h lt) [
        | inl gone ↦ gone
        | inr held ↦ absurd (nothing_held (subst (λ m. Holds m h) e held))
      ],
    )
    stopped (x ∷ xs) e = (
      left (x ∷ xs) e,
      subst (λ m. member h (cancel_all (values m) d).cancelled ≡ true) e (all_cancelled d h v lt),
    )
