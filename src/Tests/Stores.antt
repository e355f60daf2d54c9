-- ===== src/Tests/Stores.antt =====
-- The stores of web/src on concrete events and containers.
use mathlib.Core.List.{Perm}
use dockge.Prelude.{
  All, ◌≡◌, ◌≢◌, refl, true, Option, none, some, List, [], ◌∷◌, ◌++◌, ◌==◌, ◌&&◌, any, select, drop,
  arith, not, show_nat, or_empty, if◌then◌else◌,
}
use dockge.Prelude.Dict.{Dict, lookup, IsKeyed}
use dockge.Web.Search.{IsSorted, find_insert_index, insert_entry, rank}
use dockge.Web.Search.Laws.{find_insert_index-eq-rank}
use dockge.Web.Search.Insertion.{insert_entry-IsSorted, insert_entry_twice}
use dockge.Web.EventStore.{
  DockerResourceEvent, time_of, insert, bulk_load, for_container, for_stack, of_container, of_stack,
  event_key,
}
use dockge.Web.EventStore.Loading.{insert-IsSorted, bulk_load-IsSorted, HasDistinctKeys}
use dockge.Web.EventStore.Queries.{
  for_container-eq-select, for_stack-eq-select, insert_repeats, in_range,
}
use dockge.Web.LogStore.{
  log, nanos, TerminalType, LogStoreOptions, LogStore, flush_pending, LogEntry, empty_store,
}
use dockge.Web.LogStore.Order.{flush_pending-IsSorted, IsBanner}
use dockge.Web.Merging.{merge_map, is_field}
use dockge.Web.Merging.Laws.{updated, lookup-merge_map}
use dockge.Web.ContainerStore.{ContainerBroadcast, merge_container}
use dockge.Web.StackStore.{
  derive_status, count_all, count, status_of, is_ignored, unhealthy, running_and_exited, running,
  exited, created_stack, created_file, unmanaged_names,
}
use dockge.Web.StackStore.Status.{is_unhealthy, is_in_state, has_exited, derive_status-eq}
use dockge.Web.StackStore.Unmanaged.{
  IsUnmanaged, is_listable, is_one_of, unmanaged_names-IsUnmanaged, unmanaged_names_iff,
}
use dockge.Tests.{texts_differ, event_at, event_store, broadcast}

events-IsSorted : IsSorted time_of event_store.events
events-IsSorted = omega arith

find_insert_index-eq-rank_example :
    find_insert_index time_of event_store.events 8 ≡ rank time_of 8 event_store.events
find_insert_index-eq-rank_example =
    find_insert_index-eq-rank time_of event_store.events 8 events-IsSorted

insert_entry-IsSorted_example :
    IsSorted time_of (insert_entry time_of (event_at 6 "d") event_store.events)
    × Perm
        (insert_entry time_of (event_at 6 "d") event_store.events)
        (event_at 6 "d" ∷ event_store.events)
insert_entry-IsSorted_example =
    insert_entry-IsSorted time_of (event_at 6 "d") event_store.events events-IsSorted

insert_entry_twice_example :
    (xs ys : List DockerResourceEvent) × (event_store.events ≡ xs ++ ys)
    × (insert_entry time_of
          (event_at 7 "y")
          (insert_entry time_of (event_at 7 "x") event_store.events)
        ≡ xs ++ (event_at 7 "y" ∷ event_at 7 "x" ∷ ys))
insert_entry_twice_example =
    insert_entry_twice time_of (event_at 7 "x") (event_at 7 "y") event_store.events events-IsSorted
      refl

insert-IsSorted_example : IsSorted time_of (insert show_nat (event_at 6 "d") event_store).events
insert-IsSorted_example = insert-IsSorted show_nat (event_at 6 "d") event_store events-IsSorted

abbrev incoming : List DockerResourceEvent
incoming = event_at 9 "b" ∷ event_at 4 "a" ∷ event_at 9 "b" ∷ []

bulk_load-IsSorted_example :
    IsSorted time_of (bulk_load show_nat incoming event_store).events
    × HasDistinctKeys show_nat (bulk_load show_nat incoming event_store).events
bulk_load-IsSorted_example = bulk_load-IsSorted show_nat incoming event_store

for_container-eq-select_example :
    (for_container "a" (some 5) none 1 event_store).events
    ≡ select (in_range (of_container "a") (some 5) none) (drop 1 event_store.events)
for_container-eq-select_example =
    for_container-eq-select "a" (some 5) none 1 event_store events-IsSorted

for_stack-eq-select_example :
    (for_stack "shop" none (some 5) 0 event_store).events
    ≡ select (in_range (of_stack "shop") none (some 5)) (drop 0 event_store.events)
for_stack-eq-select_example = for_stack-eq-select "shop" none (some 5) 0 event_store events-IsSorted

first_differs : event_key show_nat (event_at 5 "a") ≢ event_key show_nat (event_at 5 "c")
unfolding event_key show_nat
first_differs =
    texts_differ (event_key show_nat (event_at 5 "a")) (event_key show_nat (event_at 5 "c")) refl

second_differs : event_key show_nat (event_at 5 "b") ≢ event_key show_nat (event_at 5 "c")
unfolding event_key show_nat
second_differs =
    texts_differ (event_key show_nat (event_at 5 "b")) (event_key show_nat (event_at 5 "c")) refl

insert_repeats_example :
    (insert show_nat (event_at 5 "c") event_store).events
    ≡ event_at 5 "c" ∷ event_at 5 "a" ∷ event_at 5 "b" ∷ event_at 5 "c" ∷ event_at 8 "a" ∷ []
insert_repeats_example =
    insert_repeats show_nat [] (event_at 5 "a") (event_at 5 "b") (event_at 5 "c")
      (event_at 8 "a" ∷ []) event_store refl events-IsSorted tt refl tt first_differs second_differs

abbrev options : LogStoreOptions
options = record {
  terminal_type = TerminalType.combined;
  container_name = none;
  stack_name = some "shop";
}

abbrev log_store : LogStore
log_store = record empty_store {
  entries = log 3 "up" ∷ log 7 "down" ∷ [];
  pending = log 5 "late" ∷ [];
  scheduled = true;
}

entries-IsSorted : IsSorted nanos log_store.entries
entries-IsSorted = omega arith

flush_pending-IsSorted_example :
    IsSorted nanos (flush_pending options event_store log_store).entries
    × ((flush_pending options event_store log_store).pending ≡ [])
    × ((loaded : List LogEntry) × All IsBanner loaded
        × Perm
            (flush_pending options event_store log_store).entries
            (log_store.entries ++ (log_store.pending ++ loaded)))
flush_pending-IsSorted_example =
    flush_pending-IsSorted options event_store log_store entries-IsSorted

abbrev changes : Dict (Option ContainerBroadcast)
changes = ("web", some (broadcast "web" "exited")) ∷ ("db", none) ∷ []

abbrev shown : Dict ContainerBroadcast
shown = ("db", broadcast "db" "running") ∷ ("web", broadcast "web" "running") ∷ []

changes-IsKeyed : IsKeyed changes
changes-IsKeyed = ((texts_differ "db" "web" refl, tt), (tt, tt))

lookup-merge_map_example :
    lookup "web" (merge_map merge_container changes shown)
    ≡ updated merge_container (lookup "web" changes) (lookup "web" shown)
lookup-merge_map_example = lookup-merge_map merge_container "web" changes shown changes-IsKeyed

abbrev stack_containers : List ContainerBroadcast
stack_containers = broadcast "web" "running" ∷ broadcast "db" "dead" ∷ []

derive_status-eq_example : derive_status stack_containers none ≡ (
    if any (is_unhealthy none) stack_containers
    then unhealthy
    else if any (is_in_state none "running") stack_containers
        && any (has_exited none) stack_containers
    then running_and_exited
    else if any (is_in_state none "running") stack_containers
    then running
    else if any (has_exited none) stack_containers
    then exited
    else if any (is_in_state none "created") stack_containers
    then created_stack
    else if any (is_in_state none "paused") stack_containers
    then running
    else created_file)
derive_status-eq_example = derive_status-eq stack_containers none

-- One runs and one is dead.
mixed_status : derive_status stack_containers none ≡ 5
unfolding derive_status count_all count status_of is_ignored is_field
mixed_status = refl

unmanaged_names-IsUnmanaged_example :
    IsUnmanaged ("blog" ∷ []) [] (unmanaged_names ("blog" ∷ []) [] stack_containers)
unmanaged_names-IsUnmanaged_example = unmanaged_names-IsUnmanaged ("blog" ∷ []) [] stack_containers

unmanaged_names_iff_example :
    is_one_of "shop" (unmanaged_names ("blog" ∷ []) [] stack_containers)
    ≡ is_listable ("blog" ∷ []) "shop"
      && (not (is_one_of "shop" []) && any (λ c. or_empty c.stack_name == "shop") stack_containers)
unmanaged_names_iff_example = unmanaged_names_iff ("blog" ∷ []) "shop" [] stack_containers
