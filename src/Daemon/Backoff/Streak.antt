-- ===== src/Daemon/Backoff/Streak.antt =====
-- The back-off after rejections, and what its counter counts.
use nssh.Base.{ℕ, ◌+◌, ◌*◌, ◌≤◌, ◌<◌, ◌≡◌, refl, ◌∙◌, arith, false, Option, none, some}
use nssh.Base.{List, [], ◌∷◌}
use nssh.Config.{Config}
use nssh.Daemon.Worker.{WorkerInfo}
use nssh.Daemon.Supervisor.{second}
use nssh.Daemon.Backoff.{
  bind_reject_backoff, Outcome, closed, rejected, broken, Attempt, next_streak, run_worker,
  after_attempt,
}

-- With jitter below a second, the back-off is at least 3 and less than 31 seconds, that of a
-- longer streak is at most a second shorter, and from the fourth rejection on it is at least 30
-- seconds.
pub bind_reject_backoff_bounds :
    (streak streak' jitter jitter' : ℕ)
    → jitter < second
    → jitter' < second
    → (3 * second ≤ bind_reject_backoff streak jitter)
      × (bind_reject_backoff streak jitter < 31 * second)
      × (streak ≤ streak'
          → bind_reject_backoff streak jitter < bind_reject_backoff streak' jitter' + second)
      × (4 ≤ streak → 30 * second ≤ bind_reject_backoff streak jitter)
unfolding bind_reject_backoff
bind_reject_backoff_bounds streak streak' jitter jitter' a b =
    (ground arith, ground arith, (λ h. ground arith), (λ h. ground arith))

abbrev one_if_rejected : Outcome → ℕ
one_if_rejected rejected = 1
one_if_rejected _ = 0

abbrev pub count_rejected : List Attempt → ℕ
count_rejected [] = 0
count_rejected (a ∷ rest) = one_if_rejected a.outcome + count_rejected rest

abbrev with_closed : Outcome → List Attempt → Option (List Attempt) → Option (List Attempt)
with_closed o rest (some l) = some l
with_closed closed rest none = some rest
with_closed rejected rest none = none
with_closed broken rest none = none

-- The attempts behind the last one that closed without an error, if there is one.
abbrev pub since_closed : List Attempt → Option (List Attempt)
since_closed [] = none
since_closed (a ∷ rest) = with_closed a.outcome rest (since_closed rest)

abbrev pub streak_after : ℕ → List Attempt → Option (List Attempt) → ℕ
streak_after n attempts none = n + count_rejected attempts
streak_after n attempts (some l) = count_rejected l

one_more :
    (a : Attempt) (rest : List Attempt) (n : ℕ) (o : Outcome) (s : Option (List Attempt))
    → a.outcome ≡ o
    → streak_after (next_streak o n) rest s ≡ streak_after n (a ∷ rest) (with_closed o rest s)
one_more a rest n o (some l) e = refl
one_more a rest n closed none e = omega arith
one_more a rest n rejected none e = rw e (omega arith)
one_more a rest n broken none e = rw e (omega arith)

-- The counter of rejections of a worker counts those since the last attempt that ended without an
-- error, or adds all of them where there is none; a tunnel that was established and then broke
-- does not reset it.
pub run_worker-counts :
    (c : Config) (attempts : List Attempt) (w : WorkerInfo)
    → (run_worker c attempts w).1.bind_reject_streak
      ≡ streak_after w.bind_reject_streak attempts (since_closed attempts)
unfolding run_worker
run_worker-counts c [] w = omega arith
run_worker-counts c (a ∷ rest) w =
    run_worker-counts c rest (after_attempt c a.ended false a.outcome a.jitter w).1
    ∙ one_more a rest w.bind_reject_streak a.outcome (since_closed rest) refl
