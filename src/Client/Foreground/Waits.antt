-- ===== src/Client/Foreground/Waits.antt =====
-- The client does not reconnect without a pause.
use nssh.Base.Int.{pos_part}
use nssh.Base.{leb, ◌*◌, if◌then◌else◌}
use nssh.Base.{ℕ, suc, ◌+◌, ◌≡◌, true}
use nssh.Base.{List, [], ◌∷◌}
use nssh.Base.Table.{Table}
use nssh.Config.{Config}
use nssh.Stats.{Stats}
use nssh.Tunnel.Connect.Ends.{user_cancelled}
use nssh.Client.Foreground.{Round, Event, attempted, waited, client_returned}

abbrev pub attempts : List Event → ℕ
attempts [] = 0
attempts (attempted e ∷ es) = suc (attempts es)
attempts (waited d ∷ es) = attempts es
attempts (client_returned ∷ es) = attempts es

-- The reconnect delay in nanoseconds.
abbrev pub reconnect_pause : Config → ℕ
reconnect_pause c = pos_part c.reconnect_delay * 1_000_000_000

-- The waits of at least that long.
abbrev pub waits : ℕ → List Event → ℕ
waits pause [] = 0
waits pause (attempted e ∷ es) = waits pause es
waits pause (waited d ∷ es) = (if leb pause d then 1 else 0) + waits pause es
waits pause (client_returned ∷ es) = waits pause es

-- The context stays done: a round behind a cancellation finds it done.
abbrev pub StaysDone : List Round → Type 0
StaysDone [] = Unit {0}
StaysDone (r ∷ []) = Unit {0}
StaysDone (r ∷ s ∷ rs) = (user_cancelled r.wakeups ≡ true → s.done ≡ true) × StaysDone (s ∷ rs)
