-- ===== src/Client/Probe.antt =====
-- Where the daemon is looked for, and whether it is there (base_core/daemon_check.go,
-- daemon_check_unix.go).
use nssh.Base.{
  Bool, true, false, Option, none, some, if◌then◌else◌, ◌≡◌, refl, Bool-cases, inl, inr,
}
use nssh.Base.Text.{String, str_eq}
use nssh.Client.{DaemonStatus, not_exist, running, dead}
use nssh.Client.Stop.{is_running}

-- runtime.GOOS
data Os : Type 0 where
  darwin freebsd linux windows other : Os

abbrev is_windows : Os → Bool
is_windows windows = true
is_windows _ = false

-- The calls of os, path/filepath and net. `is_absent` is os.IsNotExist of os.Stat, `dial` connects to a
-- socket and closes the connection again.
record Host (W : Type 0) : Type 0 where
  goos : Os
  getenv : String → String
  user_home_dir : Option String
  join : String → String → String
  mkdir_all : String → W → Bool × W
  is_absent : String → W → Bool
  dial : String → W → Bool × W
  remove : String → W → Bool × W

abbrev no_home : String → Bool
no_home home = if str_eq home "" then true else str_eq home "/"

-- os.Getenv with what is taken instead of an empty value.
abbrev or_else : String → String → String
or_else later value = if str_eq value "" then later else value

module _ {W : Type 0} (h : Host W) where
  abbrev default_socket : W → String × W
  default_socket w = ("/tmp/nssh_daemon.sock", w)

  unfoldable socket_in : String → W → String × W
  socket_in dir w =
      let (made, w') = h.mkdir_all dir w in
      (if made then h.join dir "daemon.sock" else "/tmp/nssh_daemon.sock", w')

  unfoldable user_socket_path_of : Option String → W → String × W
  unfolding socket_in
  user_socket_path_of none w = default_socket w
  user_socket_path_of (some home) w =
      if no_home home then default_socket w else socket_in (h.join home ".nssh") w

  unfoldable system_socket_path : Os → W → String × W
  unfolding user_socket_path_of
  system_socket_path darwin w = user_socket_path_of h.user_home_dir w
  system_socket_path freebsd w = user_socket_path_of h.user_home_dir w
  system_socket_path linux w = user_socket_path_of h.user_home_dir w
  system_socket_path windows w = ("\\\\.\\pipe\\nssh_daemon", w)
  system_socket_path other w = default_socket w

  unfoldable get_daemon_socket_path : W → String × W
  unfolding system_socket_path
  get_daemon_socket_path w =
      let path = h.getenv "NSSH_SOCKET_PATH" in
      if str_eq path "" then system_socket_path h.goos w else (path, w)

  -- The error of MkdirAll is dropped.
  unfoldable pid_file_in : String → W → String × W
  pid_file_in dir w = let (made, w') = h.mkdir_all dir w in (h.join dir "daemon.pid", w')

  unfoldable user_pid_file_of : Option String → W → String × W
  unfolding pid_file_in
  user_pid_file_of none w = ("/tmp/nssh_daemon.pid", w)
  user_pid_file_of (some home) w =
      if no_home home then ("/tmp/nssh_daemon.pid", w) else pid_file_in (h.join home ".nssh") w

  abbrev app_data : String
  app_data = or_else (or_else "C:\\temp" (h.getenv "TEMP")) (h.getenv "APPDATA")

  unfoldable get_daemon_pid_file_path : W → String × W
  unfolding pid_file_in user_pid_file_of
  get_daemon_pid_file_path w =
      let path = h.getenv "NSSH_PID_FILE" in
      let of_windows = pid_file_in (h.join app_data "nssh") w in
      let of_others = user_pid_file_of h.user_home_dir w in
      if str_eq path "" then if is_windows h.goos then of_windows else of_others else (path, w)

  -- CheckDaemonStatus where GOOS is not windows.
  unfoldable check_daemon_status : W → (DaemonStatus × String) × W
  unfolding get_daemon_socket_path
  check_daemon_status w =
      let (path, w1) = get_daemon_socket_path w in
      let (up, w2) = h.dial path w1 in
      if h.is_absent path w1
      then ((not_exist, path), w1)
      else ((if up then running else dead, path), w2)

  unfoldable is_daemon_running : W → Bool × W
  unfolding check_daemon_status
  is_daemon_running w = let (found, w') = check_daemon_status w in (is_running found.0, w')

  abbrev is_dead : DaemonStatus → Bool
  is_dead dead = true
  is_dead _ = false

  -- `false` is an error.
  unfoldable cleanup_dead_daemon : W → Bool × W
  unfolding check_daemon_status
  cleanup_dead_daemon w =
      let (found, w') = check_daemon_status w in
      if is_dead found.0
      then if is_windows h.goos then (true, w') else h.remove found.1 w'
      else (true, w')

  -- A set NSSH_SOCKET_PATH decides on every system, and touches nothing.
  socket_path_set :
      (w : W)
      → str_eq (h.getenv "NSSH_SOCKET_PATH") "" ≡ false
      → get_daemon_socket_path w ≡ (h.getenv "NSSH_SOCKET_PATH", w)
  unfolding get_daemon_socket_path
  socket_path_set w e = rw e refl

  -- The cleaning leaves a daemon that answers as the probe left it.
  cleanup_spares_running :
      (w : W)
      → (is_daemon_running w).0 ≡ true
      → cleanup_dead_daemon w ≡ (true, (is_daemon_running w).1)
  unfolding is_daemon_running cleanup_dead_daemon check_daemon_status
  cleanup_spares_running w =
      let path = (get_daemon_socket_path w).0 in
      let w1 = (get_daemon_socket_path w).1 in
      elim (Bool-cases (h.is_absent path w1)) [
        | inl gone ↦ rw gone (λ h. cc)
        | inr there ↦ elim (Bool-cases (h.dial path w1).0) [
          | inl up ↦ rw (there, up) (λ h. refl)
          | inr down ↦ rw (there, down) (λ h. cc)
        ]
      ]
