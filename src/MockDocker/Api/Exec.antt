-- ===== src/MockDocker/Api/Exec.antt =====
-- mock-docker/src/api/exec.ts: the endpoint POST /exec/:id/start. A shell reads the lines that the chunks of
-- the request make up, behind a JSON object that may stand in front; any other command runs at once. Each
-- chunk of bytes is decoded by itself. Each write is a chunk of bytes of the response, whether it has ended
-- or not.
pub mod Chunks
pub mod Sessions
use Prim.Native.Char.{code}
use Prim.Native.String.{[] as no_text, ◌∷◌ as char, ◌++◌ as append}
use dockge.Prelude.{
  ℕ, ◌+◌, String, Bool, true, false, Option, none, some, List, [], ◌∷◌, ◌++◌, eqb, not, any, ◌==◌,
  truthy, or_default, join, has_char, after, trim_start, trim_text, if◌then◌else◌,
}
use dockge.Prelude.Dict.{lookup, insert}
use dockge.MockDocker.Types.{ContainerInspect, ExecInspect, ExecProcessConfig}
use dockge.MockDocker.Runtime.{Runtime}
use dockge.MockDocker.Clock.{FixedClock}
use dockge.MockDocker.State.{MockState}
use dockge.MockDocker.World.{World, put_container, current}
use dockge.MockDocker.Stream.{utf8, with_newline, frame, frame_output}
use dockge.MockDocker.Shell.{ShellSession, create_shell_session, get_prompt, process_command, Ran}

unfoldable pub is_shell_cmd : List String → Bool
is_shell_cmd (cmd ∷ []) = any (λ s. s == cmd) ("/bin/sh" ∷ "/bin/bash" ∷ "sh" ∷ "bash" ∷ [])
is_shell_cmd _ = false

unfoldable pub output_chunk : Bool → String → List ℕ
unfolding utf8 frame_output
output_chunk tty text = if tty then utf8 (with_newline text) else frame_output 1 text

unfoldable pub prompt_chunk : Bool → String → List ℕ
unfolding utf8 frame
prompt_chunk tty prompt = if tty then utf8 prompt else frame 1 (utf8 prompt)

-- What the closures of a shell share; `finished` says that finishExec has been called, `ended` that
-- res.end() has.
pub record Interactive : Type 0 where
  pub tty : Bool
  pub session : ShellSession
  pub clock : FixedClock
  pub buffer : String
  pub json_parsed : Bool
  pub written : List (List ℕ)
  pub finished : Bool
  pub ended : Bool

unfoldable pub start_shell : Bool → ContainerInspect → FixedClock → Interactive
unfolding create_shell_session get_prompt prompt_chunk
start_shell tty c clock =
    let session = create_shell_session c in
    record {
      tty = tty;
      session = session;
      clock = clock;
      buffer = "";
      json_parsed = false;
      written = prompt_chunk tty (get_prompt session) ∷ [];
      finished = false;
      ended = false;
    }

abbrev pub write : List ℕ → Interactive → Interactive
write chunk i = record i { written = i.written ++ chunk ∷ [] }

abbrev pub close : Interactive → Interactive
close i = record i { finished = true; ended = true }

write_output : String → Interactive → Interactive
unfolding output_chunk truthy
write_output text i = if truthy text then write (output_chunk i.tty text) i else i

abbrev write_prompt : Interactive → Interactive
write_prompt i = write (prompt_chunk i.tty (get_prompt i.session)) i

-- The behaviour behind one line: `none` for the loop's return.
after_line : Ran → Interactive → Option Interactive
unfolding write_output
after_line (none, session, clock) i = none
after_line (some text, session, clock) i =
    some (write_prompt (write_output text (record i { session = session; clock = clock })))

module _ (rt : Runtime) where
  unfoldable pub run_line : Interactive → String → Option Interactive
  unfolding after_line process_command
  run_line i line = after_line (process_command rt i.session i.clock line) i

  -- The loop over the lines of the buffer: `line` is what has been read of the next one.
  unfoldable pub process_lines : Interactive → String → String → Interactive
  unfolding run_line
  process_lines i line no_text = record i { buffer = line }
  process_lines i line (char c s) =
      let at_end : Interactive = elim (run_line i line) [
        | none ↦ close (record i { buffer = s })
        | some i' ↦ process_lines i' "" s
      ] in
      let longer = process_lines i (append line (char c "")) s in
      if eqb (code c) 10 then at_end else longer

  unfoldable pub begins_with_brace : String → Bool
  begins_with_brace no_text = false
  begins_with_brace (char c s) = eqb (code c) b'{'

  parsed : String → Interactive → Interactive
  unfolding process_lines
  parsed text i = process_lines (record i { json_parsed = true }) "" text

  -- req.on("data"), for the text of a chunk; the buffer holds it where the code waits for the end of the
  -- object.
  unfoldable pub on_chunk : String → Interactive → Interactive
  unfolding parsed begins_with_brace trim_start has_char after
  on_chunk chunk i =
      let text = append i.buffer chunk in
      if i.json_parsed
      then parsed text i
      else if begins_with_brace (trim_start text)
      then (if has_char b'}' text then parsed (after b'}' text) i else record i { buffer = text })
      else parsed text i

  -- req.on("data")
  unfoldable pub on_data : List ℕ → Interactive → Interactive
  unfolding on_chunk
  on_data chunk i = on_chunk (rt.decode chunk) i

  last_output : Ran → Interactive → Interactive
  unfolding write_output
  last_output (none, session, clock) i = record i { session = session; clock = clock }
  last_output (some text, session, clock) i =
      write_output text (record i { session = session; clock = clock })

  -- req.on("end")
  unfoldable pub on_end : Interactive → Interactive
  unfolding last_output trim_text truthy process_command
  on_end i =
      let rest = trim_text i.buffer in
      close (if truthy rest then last_output (process_command rt i.session i.clock rest) i else i)

abbrev put_exec : String → ExecInspect → World → World
put_exec key exec w = record w {
  state = record w.state { exec_sessions = insert key exec w.state.exec_sessions };
}

-- exec.Running = true; exec.Pid = …
unfoldable pub begin_exec : String → ExecInspect → ContainerInspect → World → World
begin_exec key exec c w = put_exec key (record exec { running = true; pid = c.state.pid + 1 }) w

-- splice(indexOf(s), 1), where it is found
unfoldable pub drop_first : String → List String → List String
drop_first s [] = []
drop_first s (t ∷ ts) = let rest = drop_first s ts in if t == s then ts else t ∷ rest

drop_exec_id : String → String → Option ContainerInspect → World → World
drop_exec_id exec_id key none w = w
drop_exec_id exec_id key (some c) w = elim c.exec_ids [
  | none ↦ w
  | some ids ↦ put_container key (record c { exec_ids = some (drop_first exec_id ids) }) w
]

unfoldable pub cleanup_exec : ExecInspect → World → World
unfolding drop_exec_id drop_first
cleanup_exec exec w =
    drop_exec_id exec.id exec.container_id (lookup exec.container_id w.state.containers) w

unfoldable pub finish_exec : String → ExecInspect → World → World
unfolding cleanup_exec
finish_exec key exec w =
    cleanup_exec exec (put_exec key (record exec { running = false; exit_code = 0; pid = 0 }) w)

-- The shell holds the container itself and the daemon's clock: between two of its events both may change,
-- so each event begins with them as they are. A container that was removed stays as it was. From here on
-- `finished` says that this event has called finishExec.
unfoldable pub resume : World → Interactive → Interactive
resume w i =
    let session = i.session in
    record i {
      session = record session { container = current session.container.id session.container w };
      clock = w.clock;
      finished = false;
    }

-- The world behind an event of the shell: the clock has moved on, and a session that is over is finished.
unfoldable pub settle : String → ExecInspect → World → Interactive → Interactive × World
unfolding finish_exec
settle key exec w i =
    let w' = record w { clock = i.clock } in (i, if i.finished then finish_exec key exec w' else w')

-- The events data, end and close of the request.
unfoldable pub shell_data :
    Runtime → String → ExecInspect → List ℕ → Interactive × World → Interactive × World
unfolding settle resume on_data
shell_data rt key exec chunk (i, w) = settle key exec w (on_data rt chunk (resume w i))

unfoldable pub shell_end :
    Runtime → String → ExecInspect → Interactive × World → Interactive × World
unfolding settle resume on_end
shell_end rt key exec (i, w) = settle key exec w (on_end rt (resume w i))

unfoldable pub shell_close : String → ExecInspect → Interactive × World → Interactive × World
unfolding settle
shell_close key exec (i, w) = settle key exec w (record i { finished = true; clock = w.clock })

unfoldable pub command_of : ExecInspect → List String
unfolding or_default
command_of exec =
    or_default (some exec.process_config.entrypoint) "/bin/sh" ∷ exec.process_config.arguments

one_shot_output : Bool → Option String → List (List ℕ)
unfolding truthy output_chunk
one_shot_output tty none = []
one_shot_output tty (some text) = if truthy text then output_chunk tty text ∷ [] else []

finish_one_shot : String → ExecInspect → World → Ran → List (List ℕ) × World
unfolding finish_exec one_shot_output
finish_one_shot key exec w (out, session, clock) =
    (one_shot_output exec.process_config.tty out, finish_exec key exec (record w { clock = clock }))

-- A command that is no shell: the chunks that it writes, and the world behind it.
unfoldable pub run_one_shot :
    Runtime → String → ExecInspect → ContainerInspect → World → List (List ℕ) × World
unfolding finish_one_shot begin_exec create_shell_session process_command join command_of
run_one_shot rt key exec c w =
    let w₁ = begin_exec key exec c w in
    finish_one_shot key exec w₁
      (process_command rt (create_shell_session c) w₁.clock (join " " (command_of exec)))

-- The answer: an error, a shell that reads on, or the output of a command.
pub data ExecAnswer : Type 0 where
  refused : ℕ → String → ExecAnswer
  shell : Interactive → ExecAnswer
  ran : List (List ℕ) → ExecAnswer

abbrev answered : List (List ℕ) × World → ExecAnswer × World
answered (chunks, w) = (ran chunks, w)

start_in : Runtime → String → ExecInspect → Option ContainerInspect → World → ExecAnswer × World
unfolding run_one_shot begin_exec is_shell_cmd start_shell
start_in rt key exec none w = (refused 404 (append "No such container: " exec.container_id), w)
start_in rt key exec (some c) w =
    if is_shell_cmd (command_of exec)
    then (shell (start_shell exec.process_config.tty c w.clock), begin_exec key exec c w)
    else answered (run_one_shot rt key exec c w)

start_found : Runtime → String → Option ExecInspect → World → ExecAnswer × World
unfolding start_in
start_found rt key none w = (refused 404 (append "No such exec instance: " key), w)
start_found rt key (some exec) w =
    start_in rt key exec (lookup exec.container_id w.state.containers) w

unfoldable pub start_exec : Runtime → String → World → ExecAnswer × World
unfolding start_found
start_exec rt key w = start_found rt key (lookup key w.state.exec_sessions) w
