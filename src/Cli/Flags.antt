-- ===== src/Cli/Flags.antt =====
-- mock-docker/cli/docker-handler.ts: the options of `docker logs`, `docker kill`, `docker rm` and
-- `docker exec`, and what the client says of an answer.
use Prim.Native.String.{◌++◌ as append}
use dockge.Prelude.{
  ℕ, String, Bool, true, false, Option, none, some, List, [], ◌∷◌, ◌++◌, any, select, not, eqb, leb,
  ◌==◌, ◌||◌, ◌&&◌, truthy, starts_with, skip_text, or_default, if◌then◌else◌,
}

pub record LogsFlags : Type 0 where
  pub follow : Bool
  pub timestamps : Bool
  pub tail : Option String
  pub since : Option String
  pub until : Option String
  pub positional : List String

no_flags : LogsFlags
no_flags = record {
  follow = false;
  timestamps = false;
  tail = none;
  since = none;
  until = none;
  positional = [];
}

-- An option that takes the next argument, which may be missing.
is_value_flag : String → Bool
is_value_flag a = a == "--tail" || a == "--since" || a == "--until"

set_value : String → Option String → LogsFlags → LogsFlags
set_value a v f =
    if a == "--tail"
    then record f { tail = v }
    else if a == "--since"
    then record f { since = v }
    else record f { until = v }

single : String → LogsFlags → LogsFlags
unfolding skip_text
single a f =
    if a == "-f" || a == "--follow"
    then record f { follow = true }
    else if a == "-t" || a == "--timestamps"
    then record f { timestamps = true }
    else if starts_with a "--tail="
    then record f { tail = some (skip_text 7 a) }
    else if starts_with a "--since="
    then record f { since = some (skip_text 8 a) }
    else if starts_with a "--until="
    then record f { until = some (skip_text 8 a) }
    else if starts_with a "-"
    then f
    else record f { positional = f.positional ++ a ∷ [] }

-- The loop over the arguments; `-n` takes the next argument where it is not empty.
read_flags : List String → LogsFlags → LogsFlags
unfolding is_value_flag set_value single truthy
read_flags [] f = f
read_flags (a ∷ []) f = if is_value_flag a then set_value a none f else single a f
read_flags (a ∷ b ∷ args) f =
    let valued = read_flags args (set_value a (some b) f) in
    let short = read_flags args (record f { tail = some b }) in
    let next = read_flags (b ∷ args) (single a f) in
    if is_value_flag a then valued else if a == "-n" && truthy b then short else next

unfoldable pub logs_flags : List String → LogsFlags
unfolding read_flags no_flags
logs_flags args = read_flags args no_flags

-- The signal and the containers of `docker kill`.
read_kill : List String → String → List String → String × List String
unfolding or_default
read_kill [] signal names = (signal, names)
read_kill (a ∷ []) signal names =
    if a == "--signal" || a == "-s"
    then ("SIGKILL", names)
    else if starts_with a "-"
    then (signal, names)
    else (signal, names ++ a ∷ [])
read_kill (a ∷ b ∷ args) signal names =
    let with_signal = read_kill args (or_default (some b) "SIGKILL") names in
    let skipped = read_kill (b ∷ args) signal names in
    let named = read_kill (b ∷ args) signal (names ++ a ∷ []) in
    if a == "--signal" || a == "-s"
    then with_signal
    else if starts_with a "-"
    then skipped
    else named

unfoldable pub kill_arguments : List String → String × List String
unfolding read_kill
kill_arguments args = read_kill args "SIGKILL" []

-- Whether `docker rm` forces, and the containers.
unfoldable pub rm_arguments : List String → Bool × List String
rm_arguments args =
    (any (λ a. a == "-f" || a == "--force") args, select (λ a. not (starts_with a "-")) args)

pub record ExecFlags : Type 0 where
  pub interactive : Bool
  pub tty : Bool
  pub rest : List String

exec_flag : String → ExecFlags → ExecFlags
exec_flag a f =
    if a == "-it" || a == "-ti"
    then record f { interactive = true; tty = true }
    else if a == "-i"
    then record f { interactive = true }
    else if a == "-t"
    then record f { tty = true }
    else if starts_with a "-" && not (starts_with a "--")
    then f
    else record f { rest = f.rest ++ a ∷ [] }

read_exec : List String → ExecFlags → ExecFlags
unfolding exec_flag
read_exec [] f = f
read_exec (a ∷ args) f = read_exec args (exec_flag a f)

unfoldable pub exec_flags : List String → ExecFlags
unfolding read_exec
exec_flags args = read_exec args (record { interactive = false; tty = false; rest = [] })

-- What `docker start` and its like print: on standard error with exit code 1, or on standard output.
pub data Printed : Type 0 where
  failed : String → Printed
  output : String → Printed

unfoldable pub action_output : String → String → ℕ → Option String → Printed
unfolding or_default
action_output action name status answer =
    let daemon : String = "Error response from daemon: " in
    let idle = append "container " (append name " is not running") in
    let started = append "container " (append name " is already started") in
    if eqb status 304
    then failed (
        append daemon
          (append (if action == "stop" || action == "restart" then idle else started) "\n"))
    else if leb 400 status
    then failed (append daemon (append (or_default answer (append action " failed")) "\n"))
    else output (append name "\n")
