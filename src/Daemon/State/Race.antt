-- ===== src/Daemon/State/Race.antt =====
-- The steps of stopWorker with another command between them.
use nssh.Base.{ℕ, suc, ◌<◌, ◌≡◌, ◌≢◌, refl, sym, ap, ◌∙◌, subst, arith, false, Option, none, some}
use nssh.Base.{inl, inr, Bool-cases, ◌==◌}
use nssh.Base.{==_iff}
use mathlib.Core.Bool.{false≢true}
use nssh.Base.Text.{String, str_eq}
use nssh.Base.Table.{Table, find, put, find-put, find-delete}
use nssh.Config.{Config, Stdlib}
use nssh.Daemon.Worker.{WorkerInfo, config_key, new_worker}
use nssh.Daemon.State.{
  Daemon, cancel_worker, cancel_handle, cancel_found, delete_worker, start_worker,
}
use nssh.Daemon.State.Owned.{IsOwned, member, cancel_found_keeps, cancel_handle_keeps}

-- The number that the next goroutine gets has not been used.
pub record IsFresh (d : Daemon) : Type 0 where
  pub not_cancelled : member d.started d.cancelled ≡ false
  pub not_held :
      (k : String) (w : WorkerInfo) → find k d.workers ≡ some w → w.cancel ≢ some d.started

not_member-cancel_handle :
    (o : Option ℕ) (d : Daemon) (h : ℕ)
    → o ≢ some h
    → member h d.cancelled ≡ false
    → member h (cancel_handle o d).cancelled ≡ false
unfolding cancel_handle
not_member-cancel_handle none d h n e = e
not_member-cancel_handle (some i) d h n e = elim (Bool-cases (i == h)) [
  | inl same ↦ absurd (n (ap some ((==_iff i h).0 same)))
  | inr other ↦ rw (other, e) refl
]

-- When a start under the same key comes between the two parts of stopWorker, for a worker of the
-- table and with an unused number for the new goroutine, a goroutine is lost: not every one that
-- was started is cancelled or held by a worker of the table.
pub stop_start_race :
    (std : Stdlib) (now : ℕ) (c : Config) (w : WorkerInfo) (d : Daemon)
    → IsFresh d
    → find (config_key std c) d.workers ≡ some w
    → ¬ IsOwned (delete_worker now (config_key std c) (start_worker std now c (cancel_worker w d)))
unfolding delete_worker start_worker
stop_start_race std now c w d fresh there v = elim (v.owned d.started started_more) [
  | inl gone ↦ absurd (false≢true (sym alive ∙ gone))
  | inr (k, u, e, held) ↦ elim (Bool-cases (str_eq key k)) [
    | inl same ↦ absurd (none≢some (sym (find-delete key k table ∙ rw same refl) ∙ e))
    | inr other ↦ absurd (
        fresh.not_held k u
          (sym (
              find-delete key k table
              ∙ rw other (find-put key k made cancelled.workers ∙ rw other (ap (find k) kept)))
            ∙ e)
          held)
  ]
]
  where
    key : String
    key = config_key std c

    released : Daemon
    released = cancel_worker w d

    cancelled : Daemon
    cancelled = cancel_found (find key released.workers) released

    made : WorkerInfo
    made = new_worker std now released.started c

    table : Table WorkerInfo
    table = put key made cancelled.workers

    kept : cancelled.workers ≡ d.workers
    kept =
        (cancel_found_keeps (find key released.workers) released).0
        ∙ (cancel_handle_keeps w.cancel d).0

    started_more : d.started < suc released.started
    started_more = omega (arith, (cancel_handle_keeps w.cancel d).1)

    not_w : w.cancel ≢ some d.started
    not_w = fresh.not_held key w there

    found : find key released.workers ≡ some w
    found = ap (find key) (cancel_handle_keeps w.cancel d).0 ∙ there

    alive : member d.started cancelled.cancelled ≡ false
    alive =
        subst (λ o. member d.started (cancel_found o released).cancelled ≡ false) (sym found)
          (unfold cancel_found in
            not_member-cancel_handle w.cancel released d.started not_w
              (not_member-cancel_handle w.cancel d d.started not_w fresh.not_cancelled))

    none≢some : {u : WorkerInfo} → none ≡ some u → ⊥
    none≢some e = cc
