-- ===== src/Tests/Resources.antt =====
-- Networks, images and exec sessions of the daemon on a concrete world.
use dockge.Prelude.{String, ◌≡◌, refl, true, false, none, some, [], ◌∷◌, not, ◌&&◌, if◌then◌else◌}
use dockge.Prelude.Dict.{lookup, values}
use dockge.MockDocker.Types.{ContainerInspect, EndpointSettings, NetworkInspect, ImageInspect, ok}
use dockge.Prelude.Numbers.{plus}
use dockge.MockDocker.World.{World}
use dockge.MockDocker.Names.{resolve_by_id_or_name}
use dockge.MockDocker.Membership.{resolve_container, resolve_network, endpoints_of}
use dockge.MockDocker.Networks.{network_connect, network_disconnect}
use dockge.MockDocker.Networks.Connection.{network_connect-lists, network_disconnect-lists}
use dockge.MockDocker.Membership.Attachment.{lists, keeps_members, is_connected}
use dockge.MockDocker.Containers.{container_start, container_stop}
use dockge.MockDocker.Lifecycle.Networks.{container_start-lists, container_stop-lists}
use dockge.MockDocker.Resources.{ExecCreateConfig, new_exec, exec_create, exec_inspect, image_prune}
use dockge.MockDocker.Resources.Pruning.{kept, lookup-image_prune}
use dockge.MockDocker.Resources.Sessions.{exec_inspect-create}
use dockge.Tests.{texts_differ, env, state, world, web_container}

abbrev endpoint : EndpointSettings
endpoint = record {
  network_id = "n1";
  endpoint_id = "e1";
  gateway = "";
  ip_address = "172.18.0.2";
  ip_prefix_len = plus 16;
  mac_address = none;
}

abbrev network : NetworkInspect
network = record {
  name = "front";
  id = "n1";
  created = "0";
  scope = "local";
  driver = "bridge";
  enable_ipv4 = true;
  enable_ipv6 = false;
  ipam = record { driver = none; config = none; options = [] };
  internal = false;
  attachable = false;
  ingress = false;
  config_only = false;
  containers = some [];
  options = [];
  labels = none;
}

abbrev connected : ContainerInspect
connected = record web_container {
  network_settings = record web_container.network_settings {
    networks = some (("front", endpoint) ∷ []);
  };
}

abbrev stopped : ContainerInspect
stopped = record connected { state = record connected.state { status = "exited"; running = false } }

abbrev image : String → ImageInspect
image id = record {
  id = id;
  repo_tags = [];
  repo_digests = [];
  created = "0";
  labels = none;
  size = 5;
}

abbrev world_with : ContainerInspect → World
world_with c = record world {
  state = record state {
    containers = ("abc1", c) ∷ [];
    networks = ("n1", network) ∷ [];
    images = ("sha256:1", image "sha256:1") ∷ ("sha256:2", image "sha256:2") ∷ [];
  };
}

resolve-connected : resolve_container (world_with connected).state "abc1" ≡ ok ("abc1", connected)
unfolding resolve_container resolve_by_id_or_name lookup
resolve-connected = refl

resolve-stopped : resolve_container (world_with stopped).state "abc1" ≡ ok ("abc1", stopped)
unfolding resolve_container resolve_by_id_or_name lookup
resolve-stopped = refl

container_start-lists_example :
    lists "abc1"
      (lookup "n1" (container_start env "abc1" none (world_with stopped)).1.state.networks)
    ≡ (if is_connected "n1" (endpoints_of stopped)
        then keeps_members (lookup "n1" (world_with stopped).state.networks)
        else lists "abc1" (lookup "n1" (world_with stopped).state.networks))
container_start-lists_example =
    container_start-lists env "abc1" "abc1" "n1" stopped (world_with stopped) resolve-stopped none
      refl

container_stop-lists_example :
    lists "abc1" (lookup "n1" (container_stop env "abc1" (world_with connected)).1.state.networks)
    ≡ not (is_connected "n1" (endpoints_of connected))
      && lists "abc1" (lookup "n1" (world_with connected).state.networks)
container_stop-lists_example =
    container_stop-lists env "abc1" "abc1" "n1" connected (world_with connected) resolve-connected
      refl

abbrev exec_config : ExecCreateConfig
exec_config = record {
  cmd = "ls" ∷ "-l" ∷ [];
  attach_stdin = false;
  attach_stdout = true;
  attach_stderr = true;
  tty = false;
  user = none;
}

exec_inspect-create_example :
    (exec_id : String) × ((exec_create env "abc1" exec_config (world_with connected)).0
      ≡ ok exec_id)
    × (exec_inspect exec_id (exec_create env "abc1" exec_config (world_with connected)).1
        ≡ ok (new_exec exec_id exec_config connected))
exec_inspect-create_example =
    exec_inspect-create env "abc1" exec_config (world_with connected) "abc1" connected
      resolve-connected refl

lookup-image_prune_example :
    lookup "sha256:2" (image_prune false (world_with connected)).1.state.images
    ≡ kept false
        (values (world_with connected).state.containers)
        (lookup "sha256:2" (world_with connected).state.images)
lookup-image_prune_example =
    lookup-image_prune "sha256:2" false (world_with connected)
      ((texts_differ "sha256:2" "sha256:1" refl, tt), (tt, tt)) (refl, (refl, tt))

resolve-network : resolve_network (world_with connected).state "n1" ≡ ok ("n1", network)
unfolding resolve_network resolve_by_id_or_name lookup
resolve-network = refl

network_connect-lists_example :
    lists "abc1"
      (lookup "n1" (network_connect env "n1" "abc1" none (world_with connected)).1.state.networks)
    ≡ true
network_connect-lists_example =
    network_connect-lists "n1" "abc1" "n1" "abc1" network connected (world_with connected)
      resolve-network resolve-connected env none

network_disconnect-lists_example :
    lists "abc1"
      (lookup "n1" (network_disconnect "n1" "abc1" (world_with connected)).1.state.networks)
    ≡ false
network_disconnect-lists_example =
    network_disconnect-lists "n1" "abc1" "n1" "abc1" network connected (world_with connected)
      resolve-network resolve-connected
