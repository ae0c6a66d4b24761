-- ===== src/Socket/Start.antt =====
-- StartServer of several processes that start at the same time (daemon/transport_unix.go): each call
-- of the system is a step, and the steps of the processes interleave.
pub mod Single
pub mod Race
use nssh.Base.{ℕ, ◌≡◌, Bool, true, false, ◌==◌, if◌then◌else◌}

-- The file of the socket: absent, left behind by a process that has ended, named by a process that has
-- called bind(2) but not yet listen(2), or that of a process that listens.
pub data File : Type 0 where
  absent dead : File
  named bound : ℕ → File

-- Where a process stands in StartServer: before os.Stat, before net.Dial, before os.Remove, before the
-- bind(2) and before the listen(2) of net.Listen; it listens, or has returned an error.
pub data Stage : Type 0 where
  begun found stale clear binding listening failed : Stage

pub record System : Type 0 where
  pub file : File
  pub stage : ℕ → Stage

-- os.Stat(SocketPath)
unfoldable pub stat : File → Stage
stat absent = clear
stat dead = found
stat (named q) = found
stat (bound q) = found

-- net.Dial: connect(2) is refused where nobody listens.
unfoldable pub dial : File → Stage
dial absent = stale
dial dead = stale
dial (named q) = stale
dial (bound q) = failed

-- The bind(2) of net.Listen: the path has to be free.
unfoldable pub bind : ℕ → File → File × Stage
bind p absent = (named p, binding)
bind p dead = (dead, failed)
bind p (named q) = (named q, failed)
bind p (bound q) = (bound q, failed)

-- Its listen(2), which does not look at the path: that may be another's by now.
unfoldable pub listen : ℕ → File → File
listen p absent = absent
listen p dead = dead
listen p (named q) = if p == q then bound q else named q
listen p (bound q) = bound q

-- The file of a process that gives up before its listen(2): Go closes the socket and leaves the file.
unfoldable pub abandon : ℕ → File → File
abandon p absent = absent
abandon p dead = dead
abandon p (named q) = if p == q then dead else named q
abandon p (bound q) = bound q

-- The next call of process `p`.
unfoldable pub call : ℕ → File → Stage → File × Stage
unfolding stat dial bind listen
call p file begun = (file, stat file)
call p file found = (file, dial file)
call p file stale = (absent, clear)
call p file clear = bind p file
call p file binding = (listen p file, listening)
call p file listening = (file, listening)
call p file failed = (file, failed)

abbrev pub update : (ℕ → Stage) → ℕ → Stage → ℕ → Stage
update stage p st q = if p == q then st else stage q

unfoldable pub advance : ℕ → System → System
unfolding call
advance p s =
    let (file, st) = call p s.file (s.stage p) in
    record { file = file; stage = update s.stage p st }

abbrev pub move : ℕ → Stage → System → System
move p st s = record s { stage = update s.stage p st }

-- Any process makes its next call, or that call fails for a reason of its own (EACCES, EAGAIN, EMFILE).
pub data Step : System → System → Type 0 where
  calls : (p : ℕ) (s : System) → Step s (advance p s)
  stat_fails : (p : ℕ) (s : System) → s.stage p ≡ begun → Step s (move p clear s)
  dial_fails : (p : ℕ) (s : System) → s.stage p ≡ found → Step s (move p stale s)
  remove_fails : (p : ℕ) (s : System) → s.stage p ≡ stale → Step s (move p clear s)
  bind_fails : (p : ℕ) (s : System) → s.stage p ≡ clear → Step s (move p failed s)
  listen_fails :
      (p : ℕ) (s : System)
      → s.stage p ≡ binding
      → Step s (record (move p failed s) { file = abandon p s.file })

pub data Reach : System → System → Type 0 where
  here : (s : System) → Reach s s
  next : {s t u : System} → Step s t → Reach t u → Reach s u
