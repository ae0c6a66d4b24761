-- ===== src/Log/Limits.antt =====
-- The logger under every sequence of calls: how many pushes run at a time, and that the two filters
-- agree.
use nssh.Base.{ℕ, ◌≡◌, ◌≤◌, refl, arith, Bool, true, Bool-cases, inl, inr}
use nssh.Base.{leb, ◌==◌}
use nssh.Base.{sym, ap, ◌∙◌}
use nssh.Base.Int.{ℤ, pos, pos_part, int_ltb}
use nssh.Base.Text.{String}
use nssh.Log.{CustomLogger, new_custom_logger, log_message, offer_push, push_ends, stop_logger}
use nssh.Log.{set_level, enable_loki_at, written}
use nssh.Log.{level_to_zerolog_level, rank, loki_chan_size, fatal_level}

-- A line is logged or the logger is stopped, without a panic; a push ends; the settings change.
pub data Step : CustomLogger → CustomLogger → Type 0 where
  logs :
      (level : ℕ) (shown pushed : Bool) (l l' : CustomLogger)
      → log_message level l ≡ written shown pushed l'
      → Step l l'
  push_over : (l : CustomLogger) → Step l (push_ends l)
  levels : (level : ℤ) (l : CustomLogger) → Step l (set_level level l)
  loki : (url job : String) (l : CustomLogger) → Step l (enable_loki_at url job l)
  stops :
      (shown pushed : Bool) (l l' : CustomLogger)
      → stop_logger l ≡ written shown pushed l'
      → Step l l'

pub data Reach : CustomLogger → CustomLogger → Type 0 where
  here : (l : CustomLogger) → Reach l l
  next : {l m n : CustomLogger} → Step l m → Reach m n → Reach l n

-- At most two pushes run, and a line of one of the five levels that passes the logger's level passes
-- zerolog's too, where the logger's level is not negative.
pub record IsLogger (l : CustomLogger) : Type 0 where
  pub few : l.pushes ≤ loki_chan_size
  pub shows :
      (current level : ℕ)
      → l.current_level ≡ pos current
      → level ≤ fatal_level
      → current ≤ level
      → leb (rank l.global_level) level ≡ true

rank-le :
    (current level : ℕ)
    → level ≤ fatal_level
    → current ≤ level
    → leb (rank (level_to_zerolog_level (pos current))) level ≡ true
unfolding level_to_zerolog_level
rank-le current level known above = ground arith

loggers-IsLogger :
    {l : CustomLogger} (l' : CustomLogger)
    → IsLogger l
    → l'.pushes ≤ loki_chan_size
    → l'.current_level ≡ l.current_level
    → l'.global_level ≡ l.global_level
    → IsLogger l'
loggers-IsLogger l' i few current global = record {
  few = few;
  shows = λ c level e known above. rw global (i.shows c level (sym current ∙ e) known above);
}

offer_push-few :
    (shown : Bool) (level : ℕ) (l : CustomLogger) {b p : Bool} {l' : CustomLogger}
    → offer_push shown level l ≡ written b p l'
    → l.pushes ≤ loki_chan_size
    → (l'.pushes ≤ loki_chan_size)
      × (l'.current_level ≡ l.current_level)
      × (l'.global_level ≡ l.global_level)
unfolding offer_push
offer_push-few shown level l e few = (ground arith, ground arith, ground arith)

log_message-few :
    (level : ℕ) (l : CustomLogger) {b p : Bool} {l' : CustomLogger}
    → log_message level l ≡ written b p l'
    → l.pushes ≤ loki_chan_size
    → (l'.pushes ≤ loki_chan_size)
      × (l'.current_level ≡ l.current_level)
      × (l'.global_level ≡ l.global_level)
unfolding log_message
log_message-few level l e few = elim (Bool-cases (int_ltb (pos level) l.current_level)) [
  | inl low ↦ cc (rw low at e)
  | inr high ↦ elim (Bool-cases (level == fatal_level)) [
    | inl fatal ↦ cc (rw (high, fatal) at e)
    | inr other ↦ offer_push-few _ level l (rw (high, other) at e) few
  ]
]

Step-IsLogger : {l m : CustomLogger} → Step l m → IsLogger l → IsLogger m
unfolding push_ends set_level enable_loki_at stop_logger
Step-IsLogger (logs level shown pushed l l' e) i =
    let (few, current, global) = log_message-few level l e i.few in
    loggers-IsLogger l' i few current global
Step-IsLogger (push_over l) i = loggers-IsLogger (push_ends l) i (omega (arith, i.few)) refl refl
Step-IsLogger (levels level l) i = record {
  few = i.few;
  shows = λ c k e known above. rw e (rank-le c k known above);
}
Step-IsLogger (loki url job l) i = record { few = i.few; shows = i.shows }
Step-IsLogger (stops shown pushed l l' e) i =
    loggers-IsLogger l' i (ground (arith, i.few)) (ground arith) (ground arith)

keeps_reaching : {l m : CustomLogger} → Reach l m → IsLogger l → IsLogger m
keeps_reaching (here l) i = i
keeps_reaching (next st r) i = keeps_reaching r (Step-IsLogger st i)

-- Whatever is logged and set, at most two pushes to Loki run at a time, and zerolog drops no line
-- of the five levels that the level of the logger lets through, where that level is not negative.
pub Reach-IsLogger : {l : CustomLogger} → Reach new_custom_logger l → IsLogger l
unfolding new_custom_logger level_to_zerolog_level
Reach-IsLogger r = keeps_reaching r (record {
  few = omega arith;
  shows = λ c k e known above. rank-le 1 k known (omega (arith, ap pos_part e, above));
})
