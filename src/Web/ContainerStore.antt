-- ===== src/Web/ContainerStore.antt =====
-- web/src/stores/containerStore.ts: the containers as the server broadcasts them, by name.
use dockge.Prelude.{ℕ, String, Bool, false, Option, none, some, List, any, select, ◌==◌, or_empty}
use dockge.Prelude.Dict.{Dict, has, values}
use dockge.Web.EventStore.{DockerResourceEvent}
use dockge.Web.Merging.{spread, is_field, merge_map, sort_by_text}

pub record BroadcastNetwork : Type 0 where
  pub ipv4 : String
  pub ipv6 : String
  pub mac : String

pub record BroadcastMount : Type 0 where
  pub name : String
  pub kind : String

pub record BroadcastPort : Type 0 where
  pub host_port : ℕ
  pub container_port : ℕ
  pub protocol : String

pub record ContainerBroadcast : Type 0 where
  pub name : Option String
  pub container_id : Option String
  pub service_name : Option String
  pub stack_name : Option String
  pub state : Option String
  pub health : Option String
  pub image : Option String
  pub image_id : Option String
  pub networks : Option (Dict BroadcastNetwork)
  pub mounts : Option (List BroadcastMount)
  pub ports : Option (List BroadcastPort)

pub record ContainerStore : Type 0 where
  pub container_map : Dict ContainerBroadcast
  pub loading : Bool
  pub last_event : Option DockerResourceEvent

-- { ...existing, ...value }
unfoldable pub merge_container : ContainerBroadcast → ContainerBroadcast → ContainerBroadcast
unfolding spread
merge_container existing value = record {
  name = spread existing.name value.name;
  container_id = spread existing.container_id value.container_id;
  service_name = spread existing.service_name value.service_name;
  stack_name = spread existing.stack_name value.stack_name;
  state = spread existing.state value.state;
  health = spread existing.health value.health;
  image = spread existing.image value.image;
  image_id = spread existing.image_id value.image_id;
  networks = spread existing.networks value.networks;
  mounts = spread existing.mounts value.mounts;
  ports = spread existing.ports value.ports;
}

unfoldable pub merge_containers : Dict (Option ContainerBroadcast) → ContainerStore → ContainerStore
unfolding merge_map
merge_containers changes s = record s {
  container_map = merge_map merge_container changes s.container_map;
  loading = false;
}

-- The sorted array; a container that has no name yet is at the front.
unfoldable pub containers : ContainerStore → List ContainerBroadcast
unfolding sort_by_text
containers s = sort_by_text (λ c. or_empty c.name) (values s.container_map)

unfoldable pub set_last_event : DockerResourceEvent → ContainerStore → ContainerStore
set_last_event e s = record s { last_event = some e }

unfoldable pub by_stack : String → ContainerStore → List ContainerBroadcast
unfolding is_field
by_stack stack_name s = select (λ c. is_field c.stack_name stack_name) (values s.container_map)

unfoldable pub in_networks : String → Option (Dict BroadcastNetwork) → Bool
in_networks n none = false
in_networks n (some networks) = has n networks

unfoldable pub by_network : String → ContainerStore → List ContainerBroadcast
unfolding in_networks
by_network network_name s =
    select (λ c. in_networks network_name c.networks) (values s.container_map)

unfoldable pub by_image : String → ContainerStore → List ContainerBroadcast
unfolding is_field
by_image image_id s = select (λ c. is_field c.image_id image_id) (values s.container_map)

unfoldable pub in_mounts : String → Option (List BroadcastMount) → Bool
in_mounts n none = false
in_mounts n (some mounts) = any (λ m. m.name == n) mounts

unfoldable pub by_volume : String → ContainerStore → List ContainerBroadcast
unfolding in_mounts
by_volume volume_name s = select (λ c. in_mounts volume_name c.mounts) (values s.container_map)
