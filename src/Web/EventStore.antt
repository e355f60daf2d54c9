-- ===== src/Web/EventStore.antt =====
-- web/src/stores/eventStore.ts: the events of the daemon, sorted by time. A time is a number of
-- nanoseconds; `text` is how JavaScript prints one.
pub mod Queries
pub mod Loading
use Prim.Native.String.{◌++◌ as append}
use dockge.Prelude.{
  ℕ, zero, suc, ◌+◌, ◌-◌, String, Bool, true, false, Option, none, some, List, [], ◌∷◌, ◌++◌, map,
  any, length, drop, take, select, eqb, ltb, leb, ◌==◌, ◌&&◌, ◌||◌, not, if◌then◌else◌,
}
use dockge.Web.Search.{find_insert_index, insert_entry}

pub record DockerResourceEvent : Type 0 where
  pub kind : String
  pub action : String
  pub id : String
  pub name : String
  pub stack_name : String
  pub service_name : String
  pub container_id : String
  pub time_nano : ℕ

-- The store, and each call that a subscriber has received.
pub record EventStore : Type 0 where
  pub events : List DockerResourceEvent
  pub insert_callbacks : List ℕ
  pub notified : List (ℕ × DockerResourceEvent)

abbrev pub time_of : DockerResourceEvent → ℕ
time_of e = e.time_nano

module _ (text : ℕ → String) where
  unfoldable pub event_key : DockerResourceEvent → String
  event_key e =
      append (text e.time_nano)
        (append ":" (append e.kind (append ":" (append e.action (append ":" e.id)))))

  unfoldable pub has_key : String → List DockerResourceEvent → Bool
  unfolding event_key
  has_key key es = any (λ e. event_key e == key) es

  -- The entries from `max(0, lo - 1)` to `min(length - 1, lo + 1)`.
  unfoldable pub neighbours : ℕ → List DockerResourceEvent → List DockerResourceEvent
  neighbours zero es = take 2 es
  neighbours (suc lo) es = take 3 (drop lo es)

unfoldable pub insert : (ℕ → String) → DockerResourceEvent → EventStore → EventStore
insert text event s =
    let lo = find_insert_index time_of s.events event.time_nano in
    if has_key text (event_key text event) (neighbours text lo s.events) then s else record s {
      events = insert_entry time_of event s.events;
      notified = s.notified ++ map (λ cb. (cb, event)) s.insert_callbacks;
    }

-- The stable sort by time.
unfoldable pub insert_stable :
    DockerResourceEvent → List DockerResourceEvent → List DockerResourceEvent
insert_stable e [] = e ∷ []
insert_stable e (x ∷ es) =
    if leb e.time_nano x.time_nano then e ∷ x ∷ es else x ∷ insert_stable e es

unfoldable pub sort_by_time : List DockerResourceEvent → List DockerResourceEvent
sort_by_time [] = []
sort_by_time (e ∷ es) = insert_stable e (sort_by_time es)

-- The loop that drops an event whose key was seen.
unfoldable pub dedup :
    (ℕ → String) → List String → List DockerResourceEvent → List DockerResourceEvent
dedup text seen [] = []
dedup text seen (e ∷ es) =
    let key = event_key text e in
    let kept = e ∷ dedup text (key ∷ seen) es in
    let dropped = dedup text seen es in if any (λ k. k == key) seen then dropped else kept

unfoldable pub bulk_load : (ℕ → String) → List DockerResourceEvent → EventStore → EventStore
bulk_load text incoming s = record s { events = dedup text [] (sort_by_time incoming) }

unfoldable pub on_insert : ℕ → EventStore → EventStore
on_insert cb s =
    if any (eqb cb) s.insert_callbacks
    then s
    else record s { insert_callbacks = s.insert_callbacks ++ cb ∷ [] }

unfoldable pub off_insert : ℕ → EventStore → EventStore
off_insert cb s = record s { insert_callbacks = select (λ k. not (eqb k cb)) s.insert_callbacks }

pub record EventQueryResult : Type 0 where
  pub events : List DockerResourceEvent
  pub end_index : ℕ

-- since !== undefined && e.timeNano <= since
abbrev pub too_early : Option ℕ → DockerResourceEvent → Bool
too_early none e = false
too_early (some since) e = leb e.time_nano since

-- until !== undefined && e.timeNano > until
abbrev pub too_late : Option ℕ → DockerResourceEvent → Bool
too_late none e = false
too_late (some until) e = ltb until e.time_nano

-- The loop of `forContainer` and of `forStack`, from index i on, over the rest of the array.
unfoldable pub scan :
    (DockerResourceEvent → Bool)
    → Option ℕ
    → Option ℕ
    → ℕ
    → ℕ
    → List DockerResourceEvent
    → EventQueryResult
scan wanted since until i end_index [] = record { events = []; end_index = end_index }
scan wanted since until i end_index (e ∷ es) =
    let skipped = scan wanted since until (i + 1) end_index es in
    let rest = scan wanted since until (i + 1) (i + 1) es in
    if too_early since e
    then skipped
    else if too_late until e
    then record { events = []; end_index = end_index }
    else if wanted e
    then record rest { events = e ∷ rest.events }
    else rest

-- Without a bound the scan went to the end.
end_of : Option ℕ → ℕ → ℕ → ℕ
end_of none all end_index = all
end_of (some until) all end_index = end_index

unfoldable pub query :
    (DockerResourceEvent → Bool) → Option ℕ → Option ℕ → ℕ → EventStore → EventQueryResult
unfolding end_of
query wanted since until start s =
    let r = scan wanted since until start start (drop start s.events) in
    record r { end_index = end_of until (length s.events) r.end_index }

abbrev pub of_container : String → DockerResourceEvent → Bool
of_container name e = e.kind == "container" && (e.name == name || e.service_name == name)

abbrev pub of_stack : String → DockerResourceEvent → Bool
of_stack name e = e.kind == "container" && e.stack_name == name

unfoldable pub for_container : String → Option ℕ → Option ℕ → ℕ → EventStore → EventQueryResult
unfolding query
for_container name since until start s = query (of_container name) since until start s

unfoldable pub for_stack : String → Option ℕ → Option ℕ → ℕ → EventStore → EventQueryResult
unfolding query
for_stack name since until start s = query (of_stack name) since until start s
