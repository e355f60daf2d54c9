-- ===== src/MockDocker/Shell.antt =====
-- mock-docker/src/shell.ts: the shell that `docker exec` talks to.
pub mod Words
pub mod Output
use Prim.Native.String.{◌++◌ as append}
use dockge.Prelude.{
  ℕ, String, Bool, true, false, Option, none, some, List, [], ◌∷◌, ◌==◌, not, or_default, truthy,
  starts_with, join, trim_text, if◌then◌else◌,
}
use dockge.MockDocker.Types.{ContainerInspect}
use dockge.MockDocker.Runtime.{Runtime}
use dockge.MockDocker.Clock
use dockge.MockDocker.Clock.{FixedClock}
use dockge.MockDocker.Api.Router.{path_segments}
use dockge.MockDocker.Shell.Words.{split_command}
use dockge.MockDocker.Shell.Output.{
  user_name, host_name, format_id, format_uname, format_uptime, format_env, format_printenv,
  format_cat, format_ls, format_ps, format_free, format_df,
}

-- The clock is the daemon's, and is passed beside the session.
pub record ShellSession : Type 0 where
  pub cwd : String
  pub container : ContainerInspect

unfoldable pub create_shell_session : ContainerInspect → ShellSession
unfolding or_default
create_shell_session c = record { cwd = or_default c.config.working_dir "/"; container = c }

unfoldable pub get_prompt : ShellSession → String
unfolding user_name host_name
get_prompt s =
    let user = user_name s.container in
    append user (
      append "@" (
        append (host_name s.container)
          (append ":" (append s.cwd (append (if user == "root" then "#" else "$") " ")))))

-- Without the last one.
unfoldable pub but_last : List String → List String
but_last [] = []
but_last (s ∷ []) = []
but_last (s ∷ t ∷ parts) = s ∷ but_last (t ∷ parts)

unfoldable pub changed_directory : String → List String → String
unfolding path_segments but_last join
changed_directory cwd [] = "/"
changed_directory cwd (target ∷ _) =
    if target == ".."
    then append "/" (join "/" (but_last (path_segments cwd)))
    else if starts_with target "/"
    then target
    else append (if cwd == "/" then "" else cwd) (append "/" target)

unfoldable pub handle_cd : ShellSession → List String → ShellSession
unfolding changed_directory
handle_cd s args = record s { cwd = changed_directory s.cwd args }

-- The output of a command, `none` for `exit`, and the session and the clock behind it.
abbrev pub Ran : Type 0
Ran = Option String × ShellSession × FixedClock

abbrev pub printed : ShellSession → FixedClock → String → Ran
printed s clock text = (some text, s, clock)

module _ (rt : Runtime) where
  date_from : ShellSession → ℕ × FixedClock → Ran
  date_from s (now, clock) = printed s clock (rt.date_text now)

  uptime_from : ShellSession → String × FixedClock → Ran
  uptime_from s (text, clock) = printed s clock text

  unfoldable pub run_command : ShellSession → FixedClock → String → List String → Ran
  unfolding date_from uptime_from format_uptime user_name host_name format_id format_uname
      format_env format_printenv format_cat format_ls format_ps format_free format_df handle_cd join
  run_command s clock cmd args =
      let c = s.container in
      if cmd == "exit"
      then (none, s, clock)
      else if cmd == "echo"
      then printed s clock (join " " args)
      else if cmd == "pwd"
      then printed s clock s.cwd
      else if cmd == "whoami"
      then printed s clock (user_name c)
      else if cmd == "hostname"
      then printed s clock (host_name c)
      else if cmd == "id"
      then printed s clock (format_id rt c)
      else if cmd == "uname"
      then printed s clock (format_uname c args)
      else if cmd == "date"
      then date_from s (Clock.now clock)
      else if cmd == "uptime"
      then uptime_from s (format_uptime rt c clock)
      else if cmd == "env"
      then printed s clock (format_env c)
      else if cmd == "printenv"
      then printed s clock (format_printenv c args)
      else if cmd == "cat"
      then printed s clock (format_cat c args)
      else if cmd == "ls"
      then printed s clock (format_ls rt c s.cwd args)
      else if cmd == "ps"
      then printed s clock (format_ps rt c)
      else if cmd == "cd"
      then printed (handle_cd s args) clock ""
      else if cmd == "free"
      then printed s clock (format_free rt c)
      else if cmd == "df"
      then printed s clock (format_df rt c)
      else printed s clock (append "bash: " (append cmd ": command not found"))

  -- A line of quotes alone has no word, and the command is printed as `undefined`.
  run_words : ShellSession → FixedClock → List String → Ran
  unfolding run_command
  run_words s clock [] = printed s clock "bash: undefined: command not found"
  run_words s clock (cmd ∷ args) = run_command s clock cmd args

  unfoldable pub process_command : ShellSession → FixedClock → String → Ran
  unfolding run_words split_command trim_text
  process_command s clock input =
      let trimmed = trim_text input in
      if truthy trimmed then run_words s clock (split_command trimmed) else printed s clock ""
