-- ===== src/MockDocker/State.antt =====
-- mock-docker/src/state.ts: the daemon's tables, the log buffers and the timers of the heartbeats.
pub mod Buffers
use dockge.Prelude.{
  ℕ, ◌+◌, ◌-◌, String, Bool, true, false, Option, none, some, List, [], ◌∷◌, ◌++◌, map, length,
  drop, select, eqb, not, ltb, if◌then◌else◌,
}
use dockge.Prelude.Dict.{Dict, lookup, insert, values}
use dockge.MockDocker.Types.{
  ContainerInspect, NetworkInspect, VolumeInspect, ImageInspect, ExecInspect, DockerEvent,
}

pub record LogEntry : Type 0 where
  pub ts : ℕ
  pub line : String

pub record ImageLogTemplate : Type 0 where
  pub startup : List String
  pub heartbeat_interval : ℕ
  pub heartbeat_lines : List String
  pub shutdown : List String

pub record LogTemplates : Type 0 where
  pub base_time : String
  pub images : Dict ImageLogTemplate
  pub default : ImageLogTemplate

abbrev pub log_buffer_cap : ℕ
log_buffer_cap = 100

-- `logEmitter`: who listens, and each call that a listener has received.
pub record LogEmitter : Type 0 where
  pub listeners : List ℕ
  pub calls : List (ℕ × String)

pub record MockState : Type 0 where
  pub containers : Dict ContainerInspect
  pub networks : Dict NetworkInspect
  pub volumes : Dict VolumeInspect
  pub images : Dict ImageInspect
  pub exec_sessions : Dict ExecInspect
  pub log_templates : Option LogTemplates
  pub update_images : List String
  pub stats_counters : Dict ℕ
  pub log_buffers : Dict (List LogEntry)
  pub log_emitter : LogEmitter
  pub heartbeat_intervals : Dict ℕ
  pub event_history : List DockerEvent

-- The host's interval timers: those that are set, and the handle of the next.
pub record Timers : Type 0 where
  pub active : List ℕ
  pub next : ℕ

unfoldable pub clear_interval : ℕ → Timers → Timers
clear_interval handle t = record t { active = select (λ h. not (eqb h handle)) t.active }

unfoldable pub set_interval : Timers → ℕ × Timers
set_interval t = (t.next, record t { active = t.next ∷ t.active; next = t.next + 1 })

unfoldable pub clear_intervals : List ℕ → Timers → Timers
clear_intervals [] t = t
clear_intervals (h ∷ hs) t = clear_intervals hs (clear_interval h t)

counter_of : Option ℕ → ℕ
counter_of none = 0
counter_of (some n) = n

unfoldable pub next_stats_counter : String → MockState → ℕ × MockState
unfolding counter_of
next_stats_counter id s =
    let current = counter_of (lookup id s.stats_counters) in
    (current, record s { stats_counters = insert id (current + 1) s.stats_counters })

-- `clear`: the log templates and the update marks stay.
unfoldable pub clear : MockState → Timers → MockState × Timers
unfolding clear_intervals clear_interval
clear s t = (
  record s {
    containers = [];
    networks = [];
    volumes = [];
    images = [];
    exec_sessions = [];
    stats_counters = [];
    log_buffers = [];
    log_emitter = record s.log_emitter { listeners = [] };
    heartbeat_intervals = [];
    event_history = [];
  },
  clear_intervals (values s.heartbeat_intervals) t,
)

unfoldable pub buffer_of : Option (List LogEntry) → List LogEntry
buffer_of none = []
buffer_of (some buf) = buf

-- buf.splice(0, buf.length - LOG_BUFFER_CAP), where the buffer is too long
unfoldable pub trim : List LogEntry → List LogEntry
trim buf = if ltb log_buffer_cap (length buf) then drop (length buf - log_buffer_cap) buf else buf

notify : String → LogEmitter → LogEmitter
notify id e = record e { calls = e.calls ++ map (λ l. (l, id)) e.listeners }

unfoldable pub append_log : String → ℕ → String → MockState → MockState
unfolding buffer_of trim notify
append_log id ts line s =
    let buf = buffer_of (lookup id s.log_buffers) in
    record s {
      log_buffers = insert id (trim (buf ++ record { ts = ts; line = line } ∷ [])) s.log_buffers;
      log_emitter = notify id s.log_emitter;
    }
