-- ===== src/Socket/Start/Race.antt =====
-- Two processes that begin at the same time, with a dead socket file and with none.
use nssh.Base.{ℕ, ◌≡◌}
use nssh.Base.{List, [], ◌∷◌}
use nssh.Socket.Start.{File, Stage}
use nssh.Socket.Start.{System, advance}

-- The processes that make their calls, in this order.
abbrev in_order : List ℕ → System → System
in_order [] s = s
in_order (p ∷ ps) s = in_order ps (advance p s)

-- The file, and where two processes stand.
record At (p q : ℕ) (file : File) (a b : Stage) (s : System) : Type 0 where
  on_disk : s.file ≡ file
  first : s.stage p ≡ a
  second : s.stage q ≡ b
