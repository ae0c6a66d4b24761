-- ===== src/Daemon/State/Owned.antt =====
-- No goroutine of a worker is lost: as long as it has not been cancelled, the table can cancel it.
use nssh.Base.{ℕ, ◌<◌, ◌≡◌, refl, sym, ap, ◌∙◌, subst, arith, Bool, true, false, Option, none, some}
use nssh.Base.{List, [], ◌∷◌, ◌⊎◌, inl, inr, Bool-cases, ◌==◌, ◌||◌}
use mathlib.Core.Option
use nssh.Base.{==_iff}
use nssh.Base.Text.{String, str_eq}
use nssh.Base.Table.{Table, find, delete, put, find-put, find-delete}
use text.Mathlib.TextEquality.{eq_iff}
use text.Mathlib.TextPositions.{eq_refl}
use nssh.Config.{Config, Stdlib}
use nssh.Daemon.Worker.{WorkerInfo, config_key, new_worker}
use nssh.Daemon.State.{
  Daemon, cancel_worker, cancel_handle, cancel_found, delete_worker, start_worker, stop_worker,
}

abbrev pub member : ℕ → List ℕ → Bool
member h [] = false
member h (i ∷ is) = i == h || member h is

-- The table holds a worker with the goroutine `h`.
abbrev pub Holds : Table WorkerInfo → ℕ → Type 0
Holds m h = (k : String) × (w : WorkerInfo) × (find k m ≡ some w) × (w.cancel ≡ some h)

pub record IsOwned (d : Daemon) : Type 0 where
  pub owned : (h : ℕ) → h < d.started → (member h d.cancelled ≡ true) ⊎ Holds d.workers h

-- A table that keeps every entry except the one under `key`.
abbrev Keeps : String → Table WorkerInfo → Table WorkerInfo → Type 0
Keeps key m m' =
    (k : String) (w : WorkerInfo) → str_eq key k ≡ false → find k m ≡ some w → find k m' ≡ some w

pub member-cancel_handle :
    (o : Option ℕ) (d : Daemon) (h : ℕ)
    → member h d.cancelled ≡ true
    → member h (cancel_handle o d).cancelled ≡ true
unfolding cancel_handle
member-cancel_handle none d h e = e
member-cancel_handle (some i) d h e = ground arith

member-cancel_found :
    (o : Option WorkerInfo) (d : Daemon) (h : ℕ)
    → member h d.cancelled ≡ true
    → member h (cancel_found o d).cancelled ≡ true
unfolding cancel_found
member-cancel_found none d h e = e
member-cancel_found (some w) d h e = member-cancel_handle w.cancel d h e

pub cancel_handle_self :
    (o : Option ℕ) (d : Daemon) (h : ℕ) → o ≡ some h → member h (cancel_handle o d).cancelled ≡ true
unfolding cancel_handle
cancel_handle_self none d h c = cc
cancel_handle_self (some i) d h c = ground (arith, Option.some-injective i h c)

cancel_found_self :
    (w : WorkerInfo) (d : Daemon) (h : ℕ)
    → w.cancel ≡ some h
    → member h (cancel_found (some w) d).cancelled ≡ true
unfolding cancel_found
cancel_found_self w d h c = cancel_handle_self w.cancel d h c

released :
    (key : String) (d : Daemon) (m : Table WorkerInfo)
    → IsOwned d
    → Keeps key d.workers m
    → (h : ℕ) → h < d.started
    → (member h (cancel_found (find key d.workers) d).cancelled ≡ true) ⊎ Holds m h
released key d m v keeps h lt = elim (v.owned h lt) [
  | inl gone ↦ inl (member-cancel_found (find key d.workers) d h gone)
  | inr (k, w, e, c) ↦ elim (Bool-cases (str_eq key k)) [
    | inl same ↦ inl (
        subst (λ o. member h (cancel_found o d).cancelled ≡ true)
          (sym (ap (λ j. find j d.workers) ((eq_iff key k).0 same) ∙ e))
          (cancel_found_self w d h c))
    | inr other ↦ inr (k, w, keeps k w other e, c)
  ]
]

Keeps-delete : (key : String) (m : Table WorkerInfo) → Keeps key m (delete key m)
Keeps-delete key m k w other e = find-delete key k m ∙ rw other e

Keeps-put : (key : String) (v : WorkerInfo) (m : Table WorkerInfo) → Keeps key m (put key v m)
Keeps-put key v m k w other e = find-put key k v m ∙ rw other e

pub cancel_handle_keeps :
    (o : Option ℕ) (d : Daemon)
    → ((cancel_handle o d).workers ≡ d.workers) × ((cancel_handle o d).started ≡ d.started)
unfolding cancel_handle
cancel_handle_keeps none d = (refl, refl)
cancel_handle_keeps (some i) d = (refl, refl)

pub cancel_found_keeps :
    (o : Option WorkerInfo) (d : Daemon)
    → ((cancel_found o d).workers ≡ d.workers) × ((cancel_found o d).started ≡ d.started)
unfolding cancel_found
cancel_found_keeps none d = (refl, refl)
cancel_found_keeps (some w) d = cancel_handle_keeps w.cancel d

-- startWorker loses no goroutine: every one that was started is cancelled or is held by a worker
-- of the table, also where one stands under the same key.
pub start_worker-IsOwned :
    (std : Stdlib) (now : ℕ) (c : Config) (d : Daemon)
    → IsOwned d
    → IsOwned (start_worker std now c d)
unfolding start_worker
start_worker-IsOwned std now c d v = record {
  owned = λ h lt. elim (Bool-cases (h == d.started)) [
    | inl new ↦ inr (
      key,
      w,
      find-put key key w _ ∙ rw (eq_refl key) refl,
      unfold new_worker in ap some (sym ((==_iff h d.started).0 new)),
    )
    | inr old ↦ kept h (ground arith)
  ];
}
  where
    key : String
    key = config_key std c

    w : WorkerInfo
    w = new_worker std now d.started c

    d' : Daemon
    d' = cancel_found (find key d.workers) d

    kept : (h : ℕ) → h < d.started → (member h d'.cancelled ≡ true) ⊎ Holds (put key w d'.workers) h
    kept h lt =
        released key d (put key w d'.workers) v
          (subst (λ m. Keeps key d.workers (put key w m))
            (sym (cancel_found_keeps (find key d.workers) d).0) (Keeps-put key w d.workers))
          h lt

-- stopWorker loses no goroutine, if the worker is the one under the key.
pub stop_worker-IsOwned :
    (now : ℕ) (w : WorkerInfo) (key : String) (d : Daemon)
    → IsOwned d
    → find key d.workers ≡ some w
    → IsOwned (stop_worker now w key d)
unfolding stop_worker delete_worker
stop_worker-IsOwned now w key d v there = record {
  owned = λ h lt. gone h (subst (λ n. h < n) (keeps.1) lt);
}
  where
    d' : Daemon
    d' = cancel_worker w d

    is_found : cancel_found (find key d.workers) d ≡ d'
    is_found = rw there (unfold cancel_found in refl)

    keeps : (d'.workers ≡ d.workers) × (d'.started ≡ d.started)
    keeps =
        subst (λ e. (e.workers ≡ d.workers) × (e.started ≡ d.started)) is_found
          (cancel_found_keeps (find key d.workers) d)

    gone :
        (h : ℕ) → h < d.started → (member h d'.cancelled ≡ true) ⊎ Holds (delete key d'.workers) h
    gone h lt =
        subst (λ e. (member h e.cancelled ≡ true) ⊎ Holds (delete key d'.workers) h) is_found
          (released key d (delete key d'.workers) v
            (subst (λ m. Keeps key d.workers (delete key m)) (sym keeps.0)
              (Keeps-delete key d.workers))
            h lt)
