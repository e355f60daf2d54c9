-- ===== src/Web/StackStore.antt =====
-- web/src/stores/stackStore.ts and web/src/stores/updateStore.ts: the stacks, with the status that
-- their containers give them. The numbers of the statuses are those of web/src/common/util-common.ts.
pub mod Status
pub mod Unmanaged
use dockge.Prelude.{
  ℕ, suc, ◌+◌, String, Bool, true, false, Option, none, some, List, [], ◌∷◌, ◌++◌, map, any, select,
  eqb, ltb, not, truthy, or_empty, ◌==◌, ◌&&◌, ◌||◌, join, if◌then◌else◌,
}
use dockge.Prelude.Dict.{Dict, lookup, insert, remove, values}
use dockge.Web.ContainerStore.{ContainerBroadcast, ContainerStore, by_stack, containers}
use dockge.Web.Merging.{is_field, sort_by_text}

pub record UpdateStore : Type 0 where
  pub updated_services : List String
  pub loading : Bool

unfoldable pub set_updates : List String → UpdateStore → UpdateStore
set_updates changes s = record { updated_services = changes; loading = false }

unfoldable pub has_update : String → UpdateStore → Bool
has_update key s = any (λ k. k == key) s.updated_services

pub record StackBroadcastEntry : Type 0 where
  pub name : String
  pub compose_file_name : String
  pub ignore_status : Option (Dict Bool)
  pub images : Dict String
  pub is_managed_by_dockge : Bool

pub record EnrichedStack : Type 0 where
  pub name : String
  pub compose_file_name : String
  pub images : Dict String
  pub ignore_status : Option (Dict Bool)
  pub is_managed_by_dockge : Bool
  pub status : ℕ
  pub started : Bool
  pub recreate_necessary : Bool
  pub image_updates_available : Bool
  pub tags : List String

abbrev pub created_file : ℕ
created_file = 1

abbrev pub created_stack : ℕ
created_stack = 2

abbrev pub running : ℕ
running = 3

abbrev pub exited : ℕ
exited = 4

abbrev pub running_and_exited : ℕ
running_and_exited = 5

abbrev pub unhealthy : ℕ
unhealthy = 6

-- The counters of deriveStatus.
pub record Counts : Type 0 where
  pub running_count : ℕ
  pub exited_count : ℕ
  pub created_count : ℕ
  pub paused_count : ℕ
  pub unhealthy_count : ℕ

-- The name that a property access takes: `undefined` is a name as well.
unfoldable pub property_key : Option String → String
property_key none = "undefined"
property_key (some s) = s

unfoldable pub is_true : Option Bool → Bool
is_true none = false
is_true (some b) = b

unfoldable pub is_ignored : Option (Dict Bool) → ContainerBroadcast → Bool
unfolding is_true property_key
is_ignored none c = false
is_ignored (some ignore) c = is_true (lookup (property_key c.service_name) ignore)

unfoldable pub count : Option (Dict Bool) → ContainerBroadcast → Counts → Counts
unfolding is_ignored is_field
count ignore c n =
    if is_ignored ignore c
    then n
    else if is_field c.health "unhealthy"
    then record n { unhealthy_count = suc n.unhealthy_count }
    else if is_field c.state "running"
    then record n { running_count = suc n.running_count }
    else if is_field c.state "exited" || is_field c.state "dead"
    then record n { exited_count = suc n.exited_count }
    else if is_field c.state "created"
    then record n { created_count = suc n.created_count }
    else if is_field c.state "paused"
    then record n { paused_count = suc n.paused_count }
    else n

unfoldable pub count_all : Option (Dict Bool) → List ContainerBroadcast → Counts → Counts
count_all ignore [] n = n
count_all ignore (c ∷ cs) n = count_all ignore cs (count ignore c n)

unfoldable pub status_of : Counts → ℕ
status_of n =
    if ltb 0 n.unhealthy_count
    then unhealthy
    else if ltb 0 n.running_count && ltb 0 n.exited_count
    then running_and_exited
    else if ltb 0 n.running_count
    then running
    else if ltb 0 n.exited_count
    then exited
    else if ltb 0 n.created_count
    then created_stack
    else if ltb 0 n.paused_count
    then running
    else created_file

unfoldable pub derive_status : List ContainerBroadcast → Option (Dict Bool) → ℕ
unfolding count_all status_of
derive_status cs ignore = status_of (
    count_all ignore cs (record {
      running_count = 0;
      exited_count = 0;
      created_count = 0;
      paused_count = 0;
      unhealthy_count = 0;
    }))

pub record StackStore : Type 0 where
  pub stack_map : Dict StackBroadcastEntry
  pub loading : Bool

unfoldable pub merge_stack_map :
    Dict (Option StackBroadcastEntry) → Dict StackBroadcastEntry → Dict StackBroadcastEntry
merge_stack_map [] m = m
merge_stack_map ((key, none) ∷ changes) m = merge_stack_map changes (remove key m)
merge_stack_map ((key, some value) ∷ changes) m = merge_stack_map changes (insert key value m)

unfoldable pub merge_stacks : Dict (Option StackBroadcastEntry) → StackStore → StackStore
unfolding merge_stack_map
merge_stacks changes s = record { stack_map = merge_stack_map changes s.stack_map; loading = false }

unfoldable pub raw_stacks : StackStore → List StackBroadcastEntry
unfolding sort_by_text
raw_stacks s = sort_by_text (λ e. e.name) (values s.stack_map)

unfoldable pub is_started : ℕ → Bool
is_started status = eqb status running || (eqb status running_and_exited || eqb status unhealthy)

-- composeImage && c.image && c.image !== composeImage
unfoldable pub is_outdated : Dict String → ContainerBroadcast → Bool
unfolding property_key
is_outdated images c =
    let compose_image = or_empty (lookup (property_key c.service_name) images) in
    let image = or_empty c.image in
    truthy compose_image && (truthy image && not (image == compose_image))

unfoldable pub enrich : ContainerStore → UpdateStore → StackBroadcastEntry → EnrichedStack
unfolding derive_status is_started is_outdated has_update property_key
enrich cs us s =
    let stack_containers = by_stack s.name cs in
    let status = derive_status stack_containers s.ignore_status in
    record {
      name = s.name;
      compose_file_name = s.compose_file_name;
      images = s.images;
      ignore_status = s.ignore_status;
      is_managed_by_dockge = s.is_managed_by_dockge;
      status = status;
      started = is_started status;
      recreate_necessary = is_started status && any (is_outdated s.images) stack_containers;
      image_updates_available =
          any (λ c. has_update (join "/" (s.name ∷ property_key c.service_name ∷ [])) us)
            stack_containers;
      tags = [];
    }

unfoldable pub stacks : ContainerStore → UpdateStore → StackStore → List EnrichedStack
unfolding raw_stacks
stacks cs us ss = map (enrich cs us) (raw_stacks ss)

unfoldable pub unmanaged_stack : ContainerStore → String → EnrichedStack
unfolding derive_status is_started
unmanaged_stack cs name =
    let status = derive_status (by_stack name cs) none in
    record {
      name = name;
      compose_file_name = "";
      images = [];
      ignore_status = none;
      is_managed_by_dockge = false;
      status = status;
      started = is_started status;
      recreate_necessary = false;
      image_updates_available = false;
      tags = [];
    }

-- The loop over the containers: a name that is empty, Dockge's own, managed or seen is left out.
unfoldable pub unmanaged_names : List String → List String → List ContainerBroadcast → List String
unmanaged_names managed seen [] = []
unmanaged_names managed seen (c ∷ cs) =
    let name = or_empty c.stack_name in
    let skipped = unmanaged_names managed seen cs in
    let taken = unmanaged_names managed (name ∷ seen) cs in
    if not (truthy name)
      || (name == "dockge" || (any (λ n. n == name) managed || any (λ n. n == name) seen))
    then skipped
    else name ∷ taken

unfoldable pub unmanaged_stacks : ContainerStore → StackStore → List EnrichedStack
unfolding unmanaged_names
unmanaged_stacks cs ss =
    map (unmanaged_stack cs)
      (unmanaged_names (map (λ s. s.name) (raw_stacks ss)) [] (containers cs))

unfoldable pub all_stacks : ContainerStore → UpdateStore → StackStore → List EnrichedStack
all_stacks cs us ss = stacks cs us ss ++ unmanaged_stacks cs ss
