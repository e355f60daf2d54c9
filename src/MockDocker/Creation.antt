-- ===== src/MockDocker/Creation.antt =====
-- `containerCreate` of mock-docker/src/mutations.ts, with the name that it makes up.
use Prim.Native.Nat.{Ordering}
use Prim.Native.String.{◌++◌ as append, compare}
use dockge.Prelude.{
  String, Bool, true, false, Option, none, some, List, [], ◌∷◌, ◌++◌, map, ◌==◌, ◌&&◌, not,
  or_default, or_empty, truthy, take_text, second_part, join, if◌then◌else◌,
}
use dockge.Prelude.Numbers.{parse_int}
use dockge.Prelude.Dict.{Dict, insert}
use dockge.MockDocker.Types.{
  ContainerInspect, HostConfig, NetworkInspect, IpamPoolConfig, EndpointSettings, ok, fail,
}
use dockge.MockDocker.Runtime.{Runtime}
use dockge.MockDocker.Deterministic.{
  deterministic_id, deterministic_ip, deterministic_mac, container_id_from_labels, image_seed,
}
use dockge.MockDocker.World.{Env, World, read_clock, publish, put_container, container_attrs}
use dockge.MockDocker.Membership.{endpoints_of}
use dockge.MockDocker.Containers.{Outcome, zero_time}
use dockge.MockDocker.Disposal.{with_slash}

-- `Image` is the empty text where it is missing; `HostConfig?` is `host_config`.
pub record ContainerCreateConfig : Type 0 where
  pub name : Option String
  pub image : String
  pub cmd : Option (List String)
  pub entrypoint : Option (List String)
  pub env : Option (List String)
  pub labels : Option (Dict String)
  pub exposed_ports : Option (List String)
  pub host_config : Option HostConfig

abbrev pub list_or_empty : {A : Type 0} → Option (List A) → List A
list_or_empty none = []
list_or_empty (some xs) = xs

-- One text does not stand behind another. The order is that of the code points, which is that of
-- the UTF-16 code units below U+10000.
unfoldable pub le_text : String → String → Bool
le_text s t = elim (compare s t) [ Ordering.gt ↦ false | _ ↦ true ]

-- A stable sort by a text that stands for the item.
unfoldable pub insert_sorted : {A : Type 0} → (A → String) → A → List A → List A
unfolding le_text
insert_sorted key x [] = x ∷ []
insert_sorted key x (y ∷ ys) =
    if le_text (key x) (key y) then x ∷ y ∷ ys else y ∷ insert_sorted key x ys

unfoldable pub sort_by : {A : Type 0} → (A → String) → List A → List A
unfolding insert_sorted
sort_by key [] = []
sort_by key (x ∷ xs) = insert_sorted key x (sort_by key xs)

unfoldable pub sorted_env : Option (List String) → Option (List String)
sorted_env none = none
sorted_env (some env) = some (sort_by (λ s. s) env)

-- An entry [k, v] is compared by the text "k,v".
unfoldable pub label_texts : Dict String → List String
unfolding sort_by
label_texts labels =
    map (λ e. append e.0 (append "=" e.1)) (sort_by (λ e. append e.0 (append "," e.1)) labels)

unfoldable pub uniquify_name : Runtime → ContainerCreateConfig → String
unfolding label_texts sorted_env take_text
uniquify_name rt config =
    let parts =
      config.image
      ∷ (list_or_empty config.cmd
          ++ (list_or_empty (sorted_env config.env)
              ++ label_texts (list_or_empty config.labels))) in
    append "mock-" (take_text 12 (deterministic_id rt (join "\0" parts) "container-name"))

-- `.sort()` sorts `config.Env` in place, and the container is given the sorted list: only where the
-- name had to be made up.
unfoldable pub name_config : Runtime → ContainerCreateConfig → String × ContainerCreateConfig
unfolding uniquify_name sorted_env
name_config rt config =
    let given = or_empty config.name in
    let made = uniquify_name rt config in
    if truthy given then (given, config) else (made, record config { env = sorted_env config.env })

-- `"found" in imgResult` holds of no `MutationResult`, so the identifier is always drawn from the
-- name, whether the image is there or not.
unfoldable pub image_id_of : Runtime → String → String
image_id_of rt image_ref =
    append "sha256:" (deterministic_id rt (image_seed rt image_ref) "image-id")

unfoldable pub host_config_of : Option HostConfig → HostConfig
unfolding or_default
host_config_of none = record {
  network_mode = some "default";
  restart_policy = some (record { name = ""; maximum_retry_count = 0 });
  port_bindings = none;
  binds = none;
  dns = none;
  extra_hosts = none;
  memory = none;
}
host_config_of (some h) = record {
  network_mode = some (or_default h.network_mode "default");
  restart_policy = elim h.restart_policy [
    | none ↦ some (record { name = ""; maximum_retry_count = 0 })
    | some policy ↦ some policy
  ];
  port_bindings = h.port_bindings;
  binds = h.binds;
  dns = none;
  extra_hosts = none;
  memory = none;
}

unfoldable pub new_container :
    Runtime → String → String → String → ContainerCreateConfig → ContainerInspect
unfolding host_config_of image_id_of
new_container rt id name created config = record {
  id = id;
  created = created;
  path = "";
  args = [];
  state = record {
    status = "created";
    running = false;
    paused = false;
    restarting = false;
    oom_killed = false;
    dead = false;
    pid = 0;
    exit_code = 0;
    error = "";
    started_at = zero_time;
    finished_at = zero_time;
    health = none;
  };
  image = image_id_of rt config.image;
  name = name;
  exec_ids = none;
  host_config = host_config_of config.host_config;
  mounts = [];
  config = record {
    image = some config.image;
    cmd = config.cmd;
    entrypoint = config.entrypoint;
    env = config.env;
    labels = some (list_or_empty config.labels);
    exposed_ports = config.exposed_ports;
    user = none;
    hostname = none;
    working_dir = none;
    tty = none;
    healthcheck_test = none;
  };
  network_settings = record { networks = some []; ports = none };
  size_rw = none;
  size_root_fs = none;
}

-- net.IPAM.Config?.[0]
unfoldable pub first_pool : NetworkInspect → Option IpamPoolConfig
first_pool net = elim net.ipam.config [ none ↦ none | some [] ↦ none | some (pool ∷ _) ↦ some pool ]

unfoldable pub subnet_of : NetworkInspect → String
unfolding first_pool or_default
subnet_of net = elim (first_pool net) [
  | none ↦ "172.18.0.0/16"
  | some pool ↦ or_default pool.subnet "172.18.0.0/16"
]

unfoldable pub gateway_of : NetworkInspect → String
unfolding first_pool or_empty
gateway_of net = elim (first_pool net) [ none ↦ "" | some pool ↦ or_empty pool.gateway ]

-- The endpoint of a container in a network; the address that is asked for, or one drawn from the two.
unfoldable pub new_endpoint : Runtime → String → NetworkInspect → Option String → EndpointSettings
unfolding subnet_of gateway_of or_default second_part
new_endpoint rt container_id net address =
    let seed = append container_id net.id in
    let subnet = subnet_of net in
    record {
      network_id = net.id;
      endpoint_id = deterministic_id rt seed "endpoint-id";
      gateway = gateway_of net;
      ip_address = or_default address (deterministic_ip rt seed subnet);
      ip_prefix_len = parse_int (or_default (second_part b'/' subnet) "16");
      mac_address = some (deterministic_mac rt seed);
    }

-- container.NetworkSettings.Networks[name] = endpoint
unfoldable pub set_endpoint : String → EndpointSettings → ContainerInspect → ContainerInspect
set_endpoint name e c = record c {
  network_settings = record c.network_settings { networks = some (insert name e (endpoints_of c)) };
}

-- The loop over the networks, for the first of the name.
unfoldable pub join_network :
    Runtime → String → ContainerInspect → Dict NetworkInspect → ContainerInspect
unfolding new_endpoint set_endpoint
join_network rt mode c [] = c
join_network rt mode c ((_, net) ∷ networks) =
    let rest = join_network rt mode c networks in
    if net.name == mode then set_endpoint net.name (new_endpoint rt c.id net none) c else rest

unfoldable pub connect_default : Runtime → ContainerInspect → Dict NetworkInspect → ContainerInspect
unfolding join_network or_default
connect_default rt c networks =
    let mode = or_default c.host_config.network_mode "default" in
    if not (mode == "none") && not (mode == "host") then join_network rt mode c networks else c

unfoldable pub create_named : Env → String → String × ContainerCreateConfig → World → Outcome String
unfolding with_slash new_container connect_default
create_named env created (name, config) w =
    let name' = with_slash name in
    let id = container_id_from_labels env.runtime (list_or_empty config.labels) name' in
    let c = new_container env.runtime id name' created config in
    let w₁ = put_container id c w in
    let c' = connect_default env.runtime c w₁.state.networks in
    let w₂ = put_container id c' w₁ in
    (ok id, publish "container" "create" id (container_attrs c') w₂)

unfoldable pub container_create : Env → ContainerCreateConfig → World → Outcome String
unfolding create_named name_config truthy
container_create env config w =
    if not (truthy config.image)
    then (fail 400 "image is required", w)
    else (let (t, w₁) = read_clock w in
        create_named env (env.runtime.to_iso t) (name_config env.runtime config) w₁)
