-- ===== src/MockDocker/Api/LogStream.antt =====
-- mock-docker/src/api/containers.ts: the endpoint GET /containers/:id/logs. It answers with the lines
-- that the buffer holds and may then follow the buffer: each line that is appended, until the container
-- dies. A chunk is what one call of `res.write` sends.
pub mod Delivery
use Prim.Native.String.{◌++◌ as append}
use dockge.Prelude.{
  ℕ, ◌+◌, ◌-◌, ◌≡◌, String, Bool, true, false, Option, none, some, List, [], ◌∷◌, ◌++◌, map, length,
  drop, select, ltb, leb, eqb, not, ◌==◌, ◌||◌, truthy, if◌then◌else◌,
}
use dockge.Prelude.Numbers.{Number, nan, plus, minus, parse_int}
use dockge.Prelude.Dict.{lookup}
use dockge.MockDocker.Types.{ContainerInspect, DockerEvent}
use dockge.MockDocker.State.{MockState, LogEntry, buffer_of}
use dockge.MockDocker.Stream.{utf8, with_newline, frame_output}
use dockge.MockDocker.Runtime.{Runtime}

-- The parameters of the query; one that is absent is `none`.
pub record LogsQuery : Type 0 where
  pub follow : Option String
  pub tail : Option String
  pub since : Option String
  pub until : Option String
  pub timestamps : Option String

-- query.x === "1" || query.x === "true"
unfoldable pub is_set : Option String → Bool
is_set none = false
is_set (some s) = s == "1" || s == "true"

-- An integer, where `tail` is given and is not "all".
unfoldable pub tail_of : Option String → Option Number
unfolding parse_int
tail_of none = none
tail_of (some s) = if s == "all" then none else some (parse_int s)

-- filtered.slice(-n), for n > 0
last_entries : ℕ → List LogEntry → List LogEntry
last_entries n entries = drop (length entries - n) entries

-- slice(-NaN) is slice(0).
unfoldable pub apply_tail : Option Number → List LogEntry → List LogEntry
unfolding last_entries
apply_tail none entries = entries
apply_tail (some nan) entries = entries
apply_tail (some (minus n)) entries = []
apply_tail (some (plus n)) entries = if eqb n 0 then [] else last_entries n entries

-- A bound in milliseconds, parseFloat(s) * 1000: absent (also for NaN and 0), below zero, or the number of
-- whole milliseconds and whether a fraction follows.
pub data Bound : Type 0 where
  absent below_zero : Bound
  millis : ℕ → Bool → Bound

unfoldable pub not_before : Bound → List LogEntry → List LogEntry
not_before absent entries = entries
not_before below_zero entries = entries
not_before (millis n fraction) entries =
    select (λ e. if fraction then ltb n e.ts else leb n e.ts) entries

unfoldable pub not_after : Bound → List LogEntry → List LogEntry
not_after absent entries = entries
not_after below_zero entries = []
not_after (millis n fraction) entries = select (λ e. leb e.ts n) entries

-- A follower of a container: the closure of the listeners `onLog` and `onEvent`.
pub record Session : Type 0 where
  pub id : String
  pub tty : Bool
  pub timestamps : Bool
  pub cursor : ℕ
  pub stopped : Bool
  pub written : List (List ℕ)
  -- res.end() was called
  pub ended : Bool

-- The buffer that a container has now.
unfoldable pub current_buffer : String → MockState → List LogEntry
unfolding buffer_of
current_buffer id s = buffer_of (lookup id s.log_buffers)

-- container.Config.Tty || false
is_true : Option Bool → Bool
is_true none = false
is_true (some b) = b

module _ (rt : Runtime) where
  unfoldable pub line_of : Bool → LogEntry → String
  line_of timestamps e = if timestamps then append (rt.to_iso e.ts) (append " " e.line) else e.line

  unfoldable pub chunk_of : Bool → String → List ℕ
  unfolding utf8 frame_output
  chunk_of tty line = if tty then utf8 (with_newline line) else frame_output 1 line

  -- while (cursor < currentBuf.length), over the entries from the cursor on
  unfoldable pub flush : List LogEntry → Session → Session
  unfolding line_of chunk_of
  flush [] s = s
  flush (e ∷ entries) s = flush entries (record s {
    cursor = s.cursor + 1;
    written = s.written ++ chunk_of s.tty (line_of s.timestamps e) ∷ [];
  })

  unfoldable pub on_log : String → MockState → Session → Session
  unfolding flush current_buffer
  on_log id state s =
      if s.stopped || not (id == s.id)
      then s
      else flush (drop s.cursor (current_buffer s.id state)) s

  -- The listeners are removed, so no event reaches a session that has stopped.
  unfoldable pub on_event : DockerEvent → MockState → Session → Session
  unfolding flush current_buffer
  on_event event state s =
      if s.stopped || not (event.action == "die") || not (event.actor_id == s.id)
      then s
      else record (flush (drop s.cursor (current_buffer s.id state))
          (record s { stopped = true })) { ended = true }

  -- req.on("close")
  unfoldable pub on_close : Session → Session
  on_close s = record s { stopped = true }

  -- `to_bound` reads a number of seconds.
  bound_of : (String → Bound) → Option String → Bound
  unfolding truthy
  bound_of to_bound none = absent
  bound_of to_bound (some s) = if truthy s then to_bound s else absent

  unfoldable pub chosen_entries : (String → Bound) → LogsQuery → List LogEntry → List LogEntry
  unfolding bound_of not_before not_after apply_tail tail_of
  chosen_entries to_bound q buf =
      apply_tail (tail_of q.tail)
        (not_after (bound_of to_bound q.until) (not_before (bound_of to_bound q.since) buf))

  unfoldable pub backlog : (String → Bound) → LogsQuery → Bool → List LogEntry → List (List ℕ)
  unfolding chosen_entries line_of chunk_of is_set
  backlog to_bound q tty buf =
      map (λ e. chunk_of tty (line_of (is_set q.timestamps) e)) (chosen_entries to_bound q buf)

  -- The endpoint, for a container that was found: the session that it opens, or the one that has ended.
  unfoldable pub open_logs :
      (String → Bound) → Bool → LogsQuery → ContainerInspect → MockState → Session
  unfolding backlog is_set current_buffer is_true
  open_logs to_bound e2e_mode q c state =
      let tty = is_true c.config.tty in
      let buf = current_buffer c.id state in
      let done = not (is_set q.follow) || not c.state.running || e2e_mode in
      record {
        id = c.id;
        tty = tty;
        timestamps = is_set q.timestamps;
        cursor = length buf;
        stopped = done;
        written = backlog to_bound q tty buf;
        ended = done;
      }
