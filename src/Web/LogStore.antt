-- ===== src/Web/LogStore.antt =====
-- web/src/common/log-store.ts: the log lines of a terminal with banners for the starts and ends of
-- containers, sorted by time. `to_html` is the ANSI conversion of the library ansi_up; a frame that is
-- asked for runs `flush_pending` later.
pub mod Order
use Prim.Native.Nat.{min, max}
use dockge.Prelude.{
  ℕ, suc, ◌+◌, String, Bool, true, false, Option, none, some, List, [], ◌∷◌, ◌++◌, leb, ltb, ◌==◌,
  ◌&&◌, ◌||◌, not, truthy, if◌then◌else◌,
}
use dockge.Web.Search.{insert_entry}
use dockge.Web.EventStore.{
  DockerResourceEvent, EventStore, EventQueryResult, for_container, for_stack,
}

pub data LogEntry : Type 0 where
  -- the time and the text
  log : ℕ → String → LogEntry
  -- the time, the action and the name
  banner : ℕ → String → String → LogEntry

abbrev pub nanos : LogEntry → ℕ
nanos (log n html) = n
nanos (banner n action name) = n

pub data TerminalType : Type 0 where
  container_log container_log_by_name combined : TerminalType

pub record LogStoreOptions : Type 0 where
  pub terminal_type : TerminalType
  pub container_name : Option String
  pub stack_name : Option String

pub record LogStore : Type 0 where
  pub entries : List LogEntry
  pub pending : List LogEntry
  -- rafId !== null
  pub scheduled : Bool
  pub destroyed : Bool
  pub subscribed : Bool
  pub historical_banners_loaded : Bool

abbrev pub empty_store : LogStore
empty_store = record {
  entries = [];
  pending = [];
  scheduled = false;
  destroyed = false;
  subscribed = true;
  historical_banners_loaded = false;
}

unfoldable pub make_banner : DockerResourceEvent → LogEntry
unfolding truthy
make_banner e =
    banner e.time_nano e.action (if truthy e.service_name then e.service_name else e.name)

-- s === o, for an option that may be undefined
unfoldable pub is_text : Option String → String → Bool
is_text none s = false
is_text (some t) s = s == t

unfoldable pub is_for : LogStoreOptions → TerminalType → DockerResourceEvent → Bool
unfolding is_text
is_for opts combined e = is_text opts.stack_name e.stack_name
is_for opts _ e = is_text opts.container_name e.name || is_text opts.container_name e.service_name

unfoldable pub is_relevant_event : LogStoreOptions → DockerResourceEvent → Bool
unfolding is_for
is_relevant_event opts e =
    e.kind == "container"
    && ((e.action == "start" || e.action == "die") && is_for opts opts.terminal_type e)

unfoldable pub schedule_batch_insert : LogStore → LogStore
schedule_batch_insert s = record s { scheduled = s.scheduled || not s.destroyed }

-- The earliest and the latest time of the log lines, if there is a line.
unfoldable pub widen : Option (ℕ × ℕ) → LogEntry → Option (ℕ × ℕ)
widen none (log n html) = some (n, n)
widen (some (lo, hi)) (log n html) = some (min lo n, max hi n)
widen range (banner n action name) = range

unfoldable pub log_range : Option (ℕ × ℕ) → List LogEntry → Option (ℕ × ℕ)
unfolding widen
log_range range [] = range
log_range range (e ∷ es) = log_range (widen range e) es

-- (terminalType === "combined" && stackName) ? forStack : containerName ? forContainer : nothing
unfoldable pub named_events : Option String → EventStore → List DockerResourceEvent
unfolding truthy
named_events none events = []
named_events (some name) events =
    if truthy name then (for_container name none none 0 events).events else []

unfoldable pub is_given : Option String → Bool
unfolding truthy
is_given none = false
is_given (some s) = truthy s

unfoldable pub stack_events : Option String → EventStore → List DockerResourceEvent
stack_events none events = []
stack_events (some name) events = (for_stack name none none 0 events).events

unfoldable pub is_combined : TerminalType → Bool
is_combined combined = true
is_combined _ = false

unfoldable pub historical_events : LogStoreOptions → EventStore → List DockerResourceEvent
unfolding named_events is_given stack_events is_combined
historical_events opts events =
    if is_combined opts.terminal_type && is_given opts.stack_name
    then stack_events opts.stack_name events
    else named_events opts.container_name events

-- The latest start before the lines.
unfoldable pub later_start :
    Option DockerResourceEvent → DockerResourceEvent → Option DockerResourceEvent
later_start none e = some e
later_start (some old) e = if ltb old.time_nano e.time_nano then some e else some old

-- The loop over the events: the banners within the range, and the last start before it.
unfoldable pub collect_banners :
    LogStoreOptions → ℕ → ℕ → Option DockerResourceEvent → List DockerResourceEvent → List LogEntry
unfolding later_start
collect_banners opts earliest latest none [] = []
collect_banners opts earliest latest (some e) [] = make_banner e ∷ []
collect_banners opts earliest latest last (e ∷ es) =
    let skipped = collect_banners opts earliest latest last es in
    let shown = make_banner e ∷ skipped in
    let before = collect_banners opts earliest latest (later_start last e) es in
    if not (is_relevant_event opts e)
    then skipped
    else if leb earliest e.time_nano && leb e.time_nano latest
    then shown
    else if e.action == "start" && ltb e.time_nano earliest
    then before
    else skipped

unfoldable pub is_empty : {A : Type 0} → List A → Bool
is_empty [] = true
is_empty (x ∷ xs) = false

-- The banners of the first flush with lines; they are loaded once the event store has any event.
unfoldable pub load_in_range :
    LogStoreOptions → List DockerResourceEvent → Option (ℕ × ℕ) → LogStore → LogStore
unfolding collect_banners is_empty
load_in_range opts events none s = s
load_in_range opts events (some (earliest, latest)) s = record s {
  historical_banners_loaded = not (is_empty events);
  pending = s.pending ++ collect_banners opts earliest latest none events;
}

unfoldable pub load_historical : LogStoreOptions → EventStore → LogStore → LogStore
unfolding load_in_range log_range historical_events
load_historical opts events s =
    if s.historical_banners_loaded
    then s
    else load_in_range opts (historical_events opts events)
        (log_range (log_range none s.entries) s.pending) s

unfoldable pub insert_all : List LogEntry → List LogEntry → List LogEntry
insert_all [] arr = arr
insert_all (e ∷ batch) arr = insert_all batch (insert_entry nanos e arr)

unfoldable pub flush_pending : LogStoreOptions → EventStore → LogStore → LogStore
unfolding load_historical insert_all
flush_pending opts events s =
    let s₁ = load_historical opts events (record s { scheduled = false }) in
    record s₁ { entries = insert_all s₁.pending s₁.entries; pending = [] }

-- A live event, from the subscription.
unfoldable pub on_event : LogStoreOptions → DockerResourceEvent → LogStore → LogStore
unfolding schedule_batch_insert
on_event opts e s =
    if s.destroyed || not (is_relevant_event opts e)
    then s
    else schedule_batch_insert (record s { pending = s.pending ++ make_banner e ∷ [] })

unfoldable pub add_line : (String → String) → ℕ → String → LogStore → LogStore
unfolding schedule_batch_insert
add_line to_html ts line s =
    if s.destroyed
    then s
    else schedule_batch_insert (record s { pending = s.pending ++ log ts (to_html line) ∷ [] })

unfoldable pub destroy : LogStore → LogStore
destroy s = record s { destroyed = true; subscribed = false; scheduled = false }
