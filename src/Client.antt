-- ===== src/Client.antt =====
-- The commands of the client (main.go): what is asked of the daemon, and what becomes of its answers.
pub mod Restart
pub mod Stop
pub mod Foreground
pub mod Listing
pub mod Background
mod Probe
pub mod Takeover
mod Runs
use nssh.Base.{ℕ, Bool, Option, none, some, [], ◌∷◌, if◌then◌else◌, ◌==◌}
use nssh.Base.Int.{ℤ}
use nssh.Base.Text.{String, str_eq}
use nssh.Daemon.Params.{Params}
use nssh.Daemon.Dispatch.{cmd_list, cmd_log}

-- A value that encoding/json makes of a text. The numbers are float64; those that the daemon sends are
-- integers below 2^53.
mutual
  pub data Json : Type 0 where
    null : Json
    boolean : Bool → Json
    number : ℤ → Json
    text : String → Json
    array : Items → Json
    object : Fields → Json

  pub data Items : Type 0 where
    nil : Items
    item : Json → Items → Items

  pub data Fields : Type 0 where
    end : Fields
    field : String → Json → Fields → Fields

-- m[key], which is nil where there is none.
unfoldable pub at_key : String → Fields → Json
at_key key end = null
at_key key (field k v m) = let later = at_key key m in if str_eq k key then v else later

-- The type assertions v.(T) of main.go; `none` is its panic, or `false` in the form with two results.
abbrev pub as_object : Json → Option Fields
as_object (object m) = some m
as_object j = none

abbrev pub as_items : Json → Option Items
as_items (array xs) = some xs
as_items j = none

abbrev pub as_number : Json → Option ℤ
as_number (number z) = some z
as_number j = none

-- s, _ := v.(string)
abbrev pub text_or_empty : Json → String
text_or_empty (text s) = s
text_or_empty j = ""

pub record Response : Type 0 where
  pub success : Bool
  pub body : Json
  pub error : String

-- What CheckDaemonStatus finds.
pub data DaemonStatus : Type 0 where
  not_exist running dead : DaemonStatus

-- The world of a client: SendCommand (`none` is an error) and json.Unmarshal of its answer, the status
-- of the daemon, the clock, the pid in the daemon's file, and TerminateProcess.
pub record World (W : Type 0) : Type 0 where
  pub send : ℕ → Params → W → Option String × W
  pub parse : String → Option Response
  pub status : W → DaemonStatus × W
  pub now : W → ℕ
  pub sleep : ℕ → W → W
  pub pid_file : W → Option ℤ
  pub terminate : ℤ → W → Bool × W

abbrev pub parsed : {W : Type 0} → World W → Option String → Option Response
parsed world none = none
parsed world (some line) = world.parse line

-- SendCommand and json.Unmarshal; `none` is an error of one of them.
unfoldable pub ask : {W : Type 0} → World W → ℕ → Params → W → Option Response × W
ask world cmd ps w = let (line, w') = world.send cmd ps w in (parsed world line, w')

-- What a command prints: an error of the transport or of the parser, the daemon's error, or its data.
pub data Printed : Type 0 where
  no_answer : Printed
  refused : String → Printed
  process_list : Json → Printed
  log_info : Json → Printed
  success_with : Json → Printed

abbrev printed_as : ℕ → Json → Printed
printed_as cmd body =
    if cmd == cmd_list
    then process_list body
    else if cmd == cmd_log
    then log_info body
    else success_with body

abbrev printed : ℕ → Option Response → Printed
printed cmd none = no_answer
printed cmd (some r) = if r.success then printed_as cmd r.body else refused r.error

unfoldable pub send_management_command : {W : Type 0} → World W → ℕ → String → W → Printed × W
unfolding ask
send_management_command world cmd username w =
    let (r, w') = ask world cmd (("username", username) ∷ []) w in (printed cmd r, w')
