-- ===== src/Daemon/Select/Exact.antt =====
-- A target that is a worker's key selects that worker alone.
use nssh.Base.{ℕ, ◌≡◌, refl, sym, ◌∙◌, subst, arith, Bool, true, false, none, some, [], ◌∷◌}
use nssh.Base.{◌&&◌, ◌||◌, if◌then◌else◌, Bool-cases, inl, inr}
use nssh.Base.Int.{ℤ, pos, int_eq, int_eq_sound, int_eq_refl}
use nssh.Base.Text.{String, str_eq, lacks}
use nssh.Base.Table.{Table, find, AllEntries, OneEach}
use mathlib.Core.Option
use text.Mathlib.TextEquality.{eq_iff}
use text.Mathlib.TextPositions.{eq_refl}
use nssh.Config.{Stdlib}
use nssh.Daemon.Worker.{WorkerInfo, worker_key, generate_process_key}
use nssh.Daemon.Target.{TargetSpec}
use nssh.Daemon.Target.RoundTrip.{parse_target_spec-generate_process_key}
use nssh.Daemon.State.{Daemon, stop_worker}
use nssh.Daemon.Select.{acted, matches, select, act_on, perform_action, handle_process_action}

-- Each worker stands under the key of its fields, and each key has one worker.
pub record IsKeyed (std : Stdlib) (m : Table WorkerInfo) : Type 0 where
  pub one_each : OneEach m
  pub keys : AllEntries (λ k w. k ≡ worker_key std w) m

abbrev pub exact : WorkerInfo → TargetSpec
exact w = record {
  username = w.username;
  server = w.server_host;
  server_port = w.server_port;
  remote_port = w.remote_port;
  mode = "single";
}

-- A worker whose fields the target grammar can name.
pub record IsNamed (std : Stdlib) (w : WorkerInfo) : Type 0 where
  pub user : lacks b'@' w.username ≡ true
  pub host : lacks b':' w.server_host ≡ true
  pub some_host : str_eq w.server_host "" ≡ false
  pub some_port : int_eq w.server_port (pos 0) ≡ false
  pub some_remote : int_eq w.remote_port (pos 0) ≡ false
  pub plain : lacks b':' (std.itoa w.server_port) ≡ true
  pub port_back : std.atoi (std.itoa w.server_port) ≡ (w.server_port, true)
  pub remote_back : std.atoi (std.itoa w.remote_port) ≡ (w.remote_port, true)

tests :
    (u e a p0 p r0 r : Bool)
    → (u && ((e || (a && (p0 || p))) && (r0 || r))) ≡ true
    → e ≡ false
    → p0 ≡ false
    → r0 ≡ false
    → (u ≡ true) × (a ≡ true) × (p ≡ true) × (r ≡ true)
tests u e a p0 p r0 r h ee pp rr = ground arith

tests_back :
    (u e a p0 p r0 r : Bool)
    → u ≡ true
    → a ≡ true
    → p ≡ true
    → r ≡ true
    → (u && ((e || (a && (p0 || p))) && (r0 || r))) ≡ true
tests_back u e a p0 p r0 r hu ha hp hr = ground arith

matches-exact :
    (std : Stdlib) (w v : WorkerInfo)
    → IsNamed std w
    → matches (exact w) v ≡ true
    → worker_key std v ≡ worker_key std w
unfolding matches
matches-exact std w v n h =
    let (u, a, p, r) =
      tests (str_eq v.username w.username) (str_eq w.server_host "")
        (str_eq v.server_host w.server_host) (int_eq w.server_port (pos 0))
        (int_eq v.server_port w.server_port) (int_eq w.remote_port (pos 0))
        (int_eq v.remote_port w.remote_port) h n.some_host n.some_port n.some_remote in
    same_key v.username w.username v.server_host w.server_host v.server_port w.server_port
      v.remote_port w.remote_port ((eq_iff v.username w.username).0 u)
      ((eq_iff v.server_host w.server_host).0 a) (int_eq_sound v.server_port w.server_port p)
      (int_eq_sound v.remote_port w.remote_port r)
  where
    same_key :
        (u u' h h' : String) (p p' r r' : ℤ)
        → u ≡ u'
        → h ≡ h'
        → p ≡ p'
        → r ≡ r'
        → generate_process_key std u h p r ≡ generate_process_key std u' h' p' r'
    same_key u u' h h' p p' r r' a b c d = cc

matches_self : (w : WorkerInfo) → matches (exact w) w ≡ true
unfolding matches
matches_self w =
    tests_back (str_eq w.username w.username) (str_eq w.server_host "")
      (str_eq w.server_host w.server_host) (int_eq w.server_port (pos 0))
      (int_eq w.server_port w.server_port) (int_eq w.remote_port (pos 0))
      (int_eq w.remote_port w.remote_port) (eq_refl w.username) (eq_refl w.server_host)
      (int_eq_refl w.server_port) (int_eq_refl w.remote_port)

-- A worker that stands under another key than that of `w` does not match.
no_match :
    (std : Stdlib) (w v : WorkerInfo) (k : String)
    → IsNamed std w
    → k ≡ worker_key std v
    → str_eq k (worker_key std w) ≡ false
    → matches (exact w) v ≡ false
no_match std w v k n key other = elim (Bool-cases (matches (exact w) v)) [
  | inr differs ↦ differs
  | inl m ↦
      absurd (
        true≢false
          (sym ((eq_iff k (worker_key std w)).1 (key ∙ matches-exact std w v n m)) ∙ other))
]
  where
    true≢false : true ≡ false → ⊥
    true≢false e = cc

none≢some : {v : WorkerInfo} → some v ≡ none → ⊥
none≢some e = cc

select-none :
    (std : Stdlib) (w : WorkerInfo) (m : Table WorkerInfo)
    → IsNamed std w
    → AllEntries (λ k v. k ≡ worker_key std v) m
    → find (worker_key std w) m ≡ none
    → select (exact w) m ≡ []
unfolding select find
select-none std w [] n keys h = refl
select-none std w ((k, v) ∷ m) n keys h = elim (Bool-cases (str_eq k (worker_key std w))) [
  | inl same ↦ absurd (none≢some (rw same at h))
  | inr other ↦
      rw (no_match std w v k n keys.0 other) (select-none std w m n keys.1 (rw other at h))
]

pub select-found :
    (std : Stdlib) (w : WorkerInfo) (m : Table WorkerInfo)
    → IsNamed std w
    → IsKeyed std m
    → find (worker_key std w) m ≡ some w
    → select (exact w) m ≡ w ∷ []
unfolding select find
select-found std w [] n t h = absurd (none≢some (sym h))
select-found std w ((k, v) ∷ m) n t h = elim (Bool-cases (str_eq k (worker_key std w))) [
  | inl same ↦
      let v_is_w = Option.some-injective v w (rw same at h) in
      let gone = subst (λ j. find j m ≡ none) ((eq_iff k (worker_key std w)).0 same) t.one_each.0 in
      subst
        (λ u. (if matches (exact w) u then u ∷ select (exact w) m else select (exact w) m) ≡ w ∷ [])
        (sym v_is_w) (rw (matches_self w, select-none std w m n t.keys.1 gone) refl)
  | inr other ↦
      rw (no_match std w v k n t.keys.0 other) (
        select-found std w m n (record { one_each = t.one_each.1; keys = t.keys.1 })
          (rw other at h))
]

-- "stop" with the key of a worker as its target stops that worker and no other, in a keyed table,
-- for a worker whose fields the target can name.
pub handle_process_action-stops :
    (std : Stdlib) (now later : ℕ) (w : WorkerInfo) (d : Daemon)
    → IsNamed std w
    → IsKeyed std d.workers
    → find (worker_key std w) d.workers ≡ some w
    → handle_process_action std now later (worker_key std w) "stop" d
      ≡ (acted w.username w.id "stopped", stop_worker now w (worker_key std w) d)
unfolding handle_process_action act_on perform_action
handle_process_action-stops std now later w d n t there =
    rw
      (
        parse_target_spec-generate_process_key std w.username w.server_host w.server_port
            w.remote_port n.user n.host n.plain n.port_back n.remote_back,
        select-found std w d.workers n t there,
      )
      refl
