-- ===== src/Daemon/Monitor.antt =====
-- What the daemon reports of itself (daemon/system_info.go, daemon/daemon.go): the distribution, the memory
-- of a process, and the counts of the workers.
pub mod Reports
use nssh.Base.{
  ℕ, suc, ◌+◌, ◌-◌, ◌/◌, ◌*◌, Bool, true, false, Option, none, some, List, [], ◌∷◌, ◌&&◌, leb, ltb,
  if◌then◌else◌,
}
use nssh.Base.Int.{ℤ, pos, pos_part}
use nssh.Base.Text.{String, str_eq, split_all, ◌<>◌}
use nssh.Base.Table.{Table}
use nssh.Config.{Stdlib}
use nssh.Config.Load.{positive}
use nssh.Daemon.Worker.{WorkerInfo}
use nssh.Daemon.Supervisor.{second}

-- strings.HasPrefix with strings.TrimPrefix; strings.Trim(s, "\""); strings.Fields; strconv.ParseInt.
pub record Words : Type 0 where
  pub strip_prefix : String → String → Option String
  pub trim_quotes : String → String
  pub fields : String → List String
  pub parse_int : String → Option ℤ

-- The texts of the system: `uname -r` without blanks, the host's name and /etc/os-release, where they
-- could be read.
pub record Machine : Type 0 where
  pub kernel : Option String
  pub hostname : Option String
  pub os_release : Option String

pub record SystemInfo : Type 0 where
  pub kernel_version : String
  pub distro : String
  pub arch : String
  pub os : String
  pub hostname : String

pub record ProcessMemory : Type 0 where
  pub pid : ℤ
  pub vm_rss : ℤ
  pub vm_size : ℤ

abbrev pub or_empty : Option String → String
or_empty none = ""
or_empty (some s) = s

abbrev pub lines_of : String × List String → List String
lines_of (line, lines) = line ∷ lines

module _ (words : Words) where
  abbrev pub name_line : String → String → String
  name_line line distro = elim (words.strip_prefix "NAME=" line) [
    | none ↦ distro
    | some rest ↦ if str_eq distro "" then words.trim_quotes rest else distro
  ]

  -- The loop over the lines, with the name found so far; PRETTY_NAME ends it.
  unfoldable pub distro_of : List String → String → String
  distro_of [] distro = distro
  distro_of (line ∷ lines) distro =
      let found = name_line line distro in
      elim (words.strip_prefix "PRETTY_NAME=" line) [
        | some rest ↦ words.trim_quotes rest
        | none ↦ distro_of lines found
      ]

  abbrev distro_in : Option String → String
  distro_in none = ""
  distro_in (some text) = distro_of (lines_of (split_all b'\n' text)) ""

  unfoldable pub get_system_info : String → String → Machine → SystemInfo
  unfolding distro_of split_all
  get_system_info arch os machine = record {
    kernel_version = or_empty machine.kernel;
    distro = distro_in machine.os_release;
    arch = arch;
    os = os;
    hostname = or_empty machine.hostname;
  }

  -- parts[1], if there are two parts and it is a number.
  abbrev second_field : List String → ℤ → ℤ
  second_field [] old = old
  second_field (a ∷ []) old = old
  second_field (a ∷ b ∷ rest) old = elim (words.parse_int b) [ none ↦ old | some z ↦ z ]

  abbrev pub if_prefixed : String → String → ℤ → ℤ
  if_prefixed prefix line old = elim (words.strip_prefix prefix line) [
    | none ↦ old
    | some rest ↦ second_field (words.fields line) old
  ]

  abbrev pub status_line : String → ProcessMemory → ProcessMemory
  status_line line mem = record mem {
    vm_rss = if_prefixed "VmRSS:" line mem.vm_rss;
    vm_size = if_prefixed "VmSize:" line mem.vm_size;
  }

  unfoldable pub status_lines : List String → ProcessMemory → ProcessMemory
  status_lines [] mem = mem
  status_lines (line ∷ lines) mem = status_lines lines (status_line line mem)

  abbrev pub no_memory : ℤ → ProcessMemory
  no_memory pid = record { pid = pid; vm_rss = pos 0; vm_size = pos 0 }

  -- `status` is /proc/<pid>/status; `false` is an error.
  unfoldable pub get_process_memory_linux : ℤ → Option String → Bool × ProcessMemory
  unfolding status_lines split_all
  get_process_memory_linux pid none = (false, no_memory pid)
  get_process_memory_linux pid (some status) =
      (true, status_lines (lines_of (split_all b'\n' status)) (no_memory pid))

  abbrev number_or : ℤ → String → ℤ
  number_or old s = elim (words.parse_int s) [ none ↦ old | some z ↦ z ]

  abbrev with_rss : ProcessMemory → Bool × ProcessMemory
  with_rss mem = (positive mem.vm_rss, mem)

  -- The output of ps in parts.
  abbrev ps_parts : ℤ → List String → Bool × ProcessMemory
  ps_parts pid [] = (false, no_memory pid)
  ps_parts pid (a ∷ []) = (false, no_memory pid)
  ps_parts pid (a ∷ b ∷ rest) =
      with_rss (record { pid = pid; vm_rss = number_or (pos 0) a; vm_size = number_or (pos 0) b })

  unfoldable pub get_process_memory_darwin : ℤ → Option String → Bool × ProcessMemory
  get_process_memory_darwin pid none = (false, no_memory pid)
  get_process_memory_darwin pid (some output) = ps_parts pid (words.fields output)

-- In whole seconds.
unfoldable pub format_stable : Stdlib → ℕ → String
format_stable std seconds =
    if leb (365 * 24 * 3600) seconds
    then std.itoa (pos (seconds / (365 * 24 * 3600))) <> "y"
    else if leb (30 * 24 * 3600) seconds
    then std.itoa (pos (seconds / (30 * 24 * 3600))) <> "m"
    else if leb (7 * 24 * 3600) seconds
    then std.itoa (pos (seconds / (7 * 24 * 3600))) <> "w"
    else if leb (24 * 3600) seconds
    then std.itoa (pos (seconds / (24 * 3600))) <> "d"
    else if leb 3600 seconds
    then std.itoa (pos (seconds / 3600)) <> "h"
    else if leb 60 seconds
    then std.itoa (pos (seconds / 60)) <> "m"
    else std.itoa (pos seconds) <> "s"

pub record WorkerMemory : Type 0 where
  pub id : String
  pub status : String
  pub status_stable_duration : String

-- The counts of a report, and an entry for each worker.
pub record Counts : Type 0 where
  pub online : ℕ
  pub offline : ℕ
  pub total : ℕ
  pub workers : List WorkerMemory

abbrev pub stable_since : Stdlib → ℕ → Option ℕ → String
stable_since std now none = ""
stable_since std now (some t) = format_stable std ((now - t) / second)

unfoldable pub worker_memory : Stdlib → ℕ → WorkerInfo → WorkerMemory
unfolding format_stable
worker_memory std now p = record {
  id = p.id;
  status = p.status;
  status_stable_duration = stable_since std now p.status_change_time;
}

abbrev pub is_online : WorkerInfo → Bool
is_online p = str_eq p.status "online"

-- The loop of reportMonitorData over the workers that a step of processLoop has copied.
unfoldable pub count_workers : Stdlib → ℕ → List WorkerInfo → Counts
unfolding worker_memory
count_workers std now [] = record { online = 0; offline = 0; total = 0; workers = [] }
count_workers std now (p ∷ ps) =
    let r = count_workers std now ps in
    record {
      online = if is_online p then suc r.online else r.online;
      offline = if is_online p then r.offline else suc r.offline;
      total = suc r.total;
      workers = worker_memory std now p ∷ r.workers;
    }
