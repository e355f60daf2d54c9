-- ===== src/MockDocker/World.antt =====
-- What a mutation of mock-docker/src/mutations.ts reads and writes: the state, the emitter, the
-- clock and the host's timers, and the code that it calls: the runtime and the log generators of
-- mock-docker/src/logs.ts, which are parameters here.
pub mod Frame
use dockge.Prelude.{
  ℕ, ◌+◌, String, Bool, true, false, Option, none, some, List, [], ◌∷◌, or_empty, drop_slash,
  if◌then◌else◌,
}
use dockge.Prelude.Dict.{Dict, lookup, insert, remove}
use dockge.MockDocker.Types.{ContainerInspect, NetworkInspect, DockerEvent}
use dockge.MockDocker.Clock
use dockge.MockDocker.Clock.{FixedClock}
use dockge.MockDocker.State.{MockState, LogTemplates, Timers, append_log, clear_interval}
use dockge.MockDocker.Events.{EventEmitter, make_event_at, emit}
use dockge.MockDocker.Runtime.{Runtime}

-- generateStartupLogs takes the time of the start; generateShutdownLogs may read the clock.
pub record LogGenerator : Type 0 where
  pub startup : ContainerInspect → ℕ → Option LogTemplates → List String
  pub shutdown : ContainerInspect → FixedClock → Option LogTemplates → List String × FixedClock

pub record Env : Type 0 where
  pub runtime : Runtime
  pub logs : LogGenerator

pub record World : Type 0 where
  pub state : MockState
  pub emitter : EventEmitter
  pub clock : FixedClock
  pub timers : Timers

-- clock.now()
unfoldable pub read_clock : World → ℕ × World
unfolding Clock.now
read_clock w = let (t, clock) = Clock.now w.clock in (t, record w { clock = clock })

-- emitter.emit(makeEvent(clock, kind, action, id, attributes))
unfoldable pub publish : String → String → String → Dict String → World → World
unfolding read_clock emit make_event_at
publish kind action id attributes w =
    let (t, w') = read_clock w in
    let (emitter, state) = emit (make_event_at t kind action id attributes) w'.emitter w'.state in
    record w' { emitter = emitter; state = state }

-- for (const line of lines) appendLog(state, id, clock.now().getTime(), line)
unfoldable pub append_lines : String → List String → World → World
unfolding read_clock append_log
append_lines id [] w = w
append_lines id (line ∷ lines) w =
    let (t, w') = read_clock w in
    append_lines id lines (record w' { state = append_log id t line w'.state })

-- The object that a table holds under a key is changed in place.
abbrev pub put_container : String → ContainerInspect → World → World
put_container key c w = record w {
  state = record w.state { containers = insert key c w.state.containers };
}

abbrev pub put_network : String → NetworkInspect → World → World
put_network key n w = record w {
  state = record w.state { networks = insert key n w.state.networks };
}

or_else : {A : Type 0} → Option A → A → A
or_else none d = d
or_else (some a) d = a

-- A variable that still refers to the object under a key, after calls that have changed it.
unfoldable pub current : String → ContainerInspect → World → ContainerInspect
unfolding or_else
current key c w = or_else (lookup key w.state.containers) c

stop_timer : String → Option ℕ → World → World
stop_timer id none w = w
stop_timer id (some handle) w = record w {
  state = record w.state { heartbeat_intervals = remove id w.state.heartbeat_intervals };
  timers = clear_interval handle w.timers;
}

-- The lines that clear the heartbeat of a container.
unfoldable pub clear_heartbeat : String → World → World
unfolding stop_timer clear_interval
clear_heartbeat id w = stop_timer id (lookup id w.state.heartbeat_intervals) w

assign : Dict String → Dict String → Dict String
assign attrs [] = attrs
assign attrs ((k, v) ∷ labels) = assign (insert k v attrs) labels

labels_of : Option (Dict String) → Dict String
labels_of none = []
labels_of (some labels) = labels

unfoldable pub container_attrs : ContainerInspect → Dict String
unfolding assign labels_of or_empty drop_slash
container_attrs c =
    assign (("name", drop_slash c.name) ∷ ("image", or_empty c.config.image) ∷ [])
      (labels_of c.config.labels)
