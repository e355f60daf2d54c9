-- ===== src/MockDocker/Api/System.antt =====
-- mock-docker/src/api/system.ts, and the inspection of a session in mock-docker/src/api/exec.ts. /_ping and /version answer with constants.
-- A bound in seconds is taken in whole milliseconds, and `not_a_number` where parseFloat gives NaN, which no
-- time is before or behind.
use dockge.Prelude.{
  ℕ, ◌+◌, ◌*◌, String, Bool, true, false, List, [], ◌∷◌, length, select, leb, ◌&&◌, if◌then◌else◌,
}
use dockge.Prelude.Dict.{values}
use dockge.MockDocker.Types.{ContainerInspect, DockerEvent}
use dockge.MockDocker.Events.{subscribe}
use dockge.MockDocker.World.{World, read_clock}
use dockge.MockDocker.Filters.{ParsedFilters, apply_event_filters}
use dockge.MockDocker.Resources.{exec_inspect}
use dockge.MockDocker.Api.Router.{json}
use dockge.MockDocker.Api.Reply.{Body, Reply, Info, answer_created}

counted : ContainerInspect → Info → Info
counted c i =
    if c.state.running
    then (if c.state.paused
        then record i { paused = i.paused + 1 }
        else record i { running = i.running + 1 })
    else record i { stopped = i.stopped + 1 }

unfoldable pub count_states : List ContainerInspect → Info → Info
unfolding counted
count_states [] i = i
count_states (c ∷ cs) i = count_states cs (counted c i)

unfoldable pub get_info : World → Reply
unfolding count_states
get_info w =
    let cs = values w.state.containers in
    let start : Info = record {
      containers = length cs;
      running = 0;
      paused = 0;
      stopped = 0;
      images = length (values w.state.images);
    } in
    (json 200 (Body.info (count_states cs start)), w)

unfoldable pub inspect_exec : String → World → Reply
unfolding answer_created
inspect_exec exec_id w = answer_created Body.exec 200 (exec_inspect exec_id w, w)

pub data Bound : Type 0 where
  absent not_a_number : Bound
  millis : ℕ → Bound

starts_at : Bound → DockerEvent → Bool
starts_at (millis ms) e = leb ms (e.time * 1000)
starts_at _ e = true

ends_at : Bound → DockerEvent → Bool
ends_at (millis ms) e = leb (e.time * 1000) ms
ends_at _ e = true

-- What the listener and the replay both test.
unfoldable pub is_wanted : Bound → Bound → ParsedFilters → DockerEvent → Bool
unfolding starts_at ends_at apply_event_filters
is_wanted since until filters e =
    starts_at since e && (ends_at until e && apply_event_filters e filters)

unfoldable pub replay : Bound → Bound → ParsedFilters → List DockerEvent → List DockerEvent
unfolding is_wanted
replay absent until filters events = []
replay since until filters events = select (is_wanted since until filters) events

is_past : Bound → ℕ → Bool
is_past (millis ms) now = leb ms now
is_past _ now = false

-- The clock is read only where there is an upper bound.
read_for : Bound → World → ℕ × World
unfolding read_clock
read_for absent w = (0, w)
read_for _ w = read_clock w

opened : List DockerEvent → ℕ → Bound → ℕ × World → (List DockerEvent × Bool) × World
unfolding is_past read_for subscribe
opened replayed listener until (now, w) = if is_past until now then ((replayed, true), w) else (
  (replayed, false),
  (read_for until (record w { emitter = subscribe listener w.emitter })).1,
)

-- The events that are replayed, whether the answer ends with them, and the world with the listener.
unfoldable pub open_events :
    Bound → Bound → ParsedFilters → ℕ → World → (List DockerEvent × Bool) × World
unfolding opened replay read_for
open_events since until filters listener w =
    opened (replay since until filters w.state.event_history) listener until (read_for until w)
