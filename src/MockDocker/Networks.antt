-- ===== src/MockDocker/Networks.antt =====
-- The operations of mock-docker/src/mutations.ts on networks.
pub mod Connection
use Prim.Native.Char.{code}
use Prim.Native.String.{◌++◌ as append}
use dockge.Prelude.{
  String, Bool, true, false, Option, none, some, List, [], ◌∷◌, leb, eqb, ◌&&◌, or_default,
  show_nat, if◌then◌else◌,
}
use dockge.Prelude.Dict.{Dict, insert, remove}
use dockge.MockDocker.Types.{ContainerInspect, NetworkInspect, NetworkContainer, IpamPoolConfig, ok}
use dockge.MockDocker.Runtime.{Runtime}
use dockge.MockDocker.Deterministic.{deterministic_id, deterministic_int, network_seed}
use dockge.MockDocker.World.{Env, World, read_clock, publish, put_container, put_network}
use dockge.MockDocker.Membership.{resolve_container, resolve_network, member_of}
use dockge.MockDocker.Containers.{Outcome, with_found}
use dockge.MockDocker.Creation.{list_or_empty, new_endpoint, set_endpoint}

-- `IPAM?` and its parts are read as one list of pools, empty where any part is missing.
pub record NetworkCreateConfig : Type 0 where
  pub name : String
  pub driver : Option String
  pub internal : Option Bool
  pub attachable : Option Bool
  pub labels : Option (Dict String)
  pub ipam_driver : Option String
  pub pools : List IpamPoolConfig
  pub options : Option (Dict String)

unfoldable pub only_digits : String → Bool
only_digits String.[] = true
only_digits (String.◌∷◌ c s) = leb b'0' (code c) && leb (code c) b'9' && only_digits s

-- /^\d+$/
unfoldable pub some_digits : String → Bool
unfolding only_digits
some_digits String.[] = false
some_digits (String.◌∷◌ c s) = only_digits (String.◌∷◌ c s)

-- What stands behind a text, if the other begins with it.
unfoldable pub drop_prefix : String → String → Option String
drop_prefix String.[] s = some s
drop_prefix (String.◌∷◌ c p) String.[] = none
drop_prefix (String.◌∷◌ c p) (String.◌∷◌ d s) =
    let rest = drop_prefix p s in if eqb (code c) (code d) then rest else none

-- /^\.0\.0\/\d+$/
unfoldable pub is_tail : String → Bool
unfolding drop_prefix some_digits
is_tail s = elim (drop_prefix ".0.0/" s) [ none ↦ false | some rest ↦ some_digits rest ]

-- subnet.replace(/\.0\.0\/\d+$/, ".0.1")
unfoldable pub gateway_for : String → String
unfolding is_tail
gateway_for String.[] = ""
gateway_for (String.◌∷◌ c s) =
    let rest = String.◌∷◌ c (gateway_for s) in if is_tail (String.◌∷◌ c s) then ".0.1" else rest

unfoldable pub pool_subnet : List IpamPoolConfig → Option String
pool_subnet [] = none
pool_subnet (pool ∷ _) = pool.subnet

unfoldable pub pool_gateway : List IpamPoolConfig → Option String
pool_gateway [] = none
pool_gateway (pool ∷ _) = pool.gateway

unfoldable pub flag : Option Bool → Bool
flag none = false
flag (some b) = b

unfoldable pub new_network : Runtime → NetworkCreateConfig → String → String → NetworkInspect
unfolding pool_subnet pool_gateway flag gateway_for or_default
new_network rt config id created =
    let seed = network_seed rt config.name in
    let drawn =
      append "172."
        (append (show_nat (deterministic_int rt (append seed "subnet-b") 18 31)) ".0.0/16") in
    let subnet = or_default (pool_subnet config.pools) drawn in
    let gateway = or_default (pool_gateway config.pools) (gateway_for subnet) in
    record {
      name = config.name;
      id = id;
      created = created;
      scope = "local";
      driver = or_default config.driver "bridge";
      enable_ipv4 = true;
      enable_ipv6 = false;
      ipam = record {
        driver = some (or_default config.ipam_driver "default");
        config = some (record { subnet = some subnet; gateway = some gateway } ∷ []);
        options = [];
      };
      internal = flag config.internal;
      attachable = flag config.attachable;
      ingress = false;
      config_only = false;
      containers = some [];
      options = list_or_empty config.options;
      labels = some (list_or_empty config.labels);
    }

unfoldable pub network_create : Env → NetworkCreateConfig → World → Outcome String
unfolding new_network
network_create env config w =
    let id = deterministic_id env.runtime (network_seed env.runtime config.name) "network-id" in
    let (t, w₁) = read_clock w in
    let net = new_network env.runtime config id (env.runtime.to_iso t) in
    let attrs = ("name", config.name) ∷ ("type", net.driver) ∷ [] in
    (ok id, publish "network" "create" id attrs (put_network id net w₁))

unfoldable pub remove_network_found : String × NetworkInspect → World → Outcome Unit
remove_network_found (key, net) w =
    let w₁ = record w { state = record w.state { networks = remove net.id w.state.networks } } in
    let attrs = ("name", net.name) ∷ ("type", net.driver) ∷ [] in
    (ok tt, publish "network" "destroy" net.id attrs w₁)

unfoldable pub network_remove : String → World → Outcome Unit
network_remove id w =
    with_found (resolve_network w.state id) w λ found. remove_network_found found w

unfoldable pub connection_attrs : NetworkInspect → ContainerInspect → Dict String
connection_attrs net ctr = ("name", net.name) ∷ ("container", ctr.id) ∷ ("type", net.driver) ∷ []

unfoldable pub set_member : String → NetworkContainer → NetworkInspect → NetworkInspect
set_member id m net = record net { containers = some (insert id m (list_or_empty net.containers)) }

unfoldable pub connect_found :
    Env → Option String → String × NetworkInspect → String × ContainerInspect → World → Outcome Unit
unfolding new_endpoint set_endpoint set_member member_of connection_attrs
connect_found env address (nk, net) (ck, ctr) w =
    let e = new_endpoint env.runtime ctr.id net address in
    let w₁ = put_container ck (set_endpoint net.name e ctr) w in
    let w₂ = put_network nk (set_member ctr.id (member_of ctr e) net) w₁ in
    (ok tt, publish "network" "connect" net.id (connection_attrs net ctr) w₂)

-- The network is resolved first. `address` is config.IPv4Address.
unfoldable pub network_connect : Env → String → String → Option String → World → Outcome Unit
network_connect env net_id ctr_id address w = with_found (resolve_network w.state net_id) w λ net.
    with_found (resolve_container w.state ctr_id) w λ ctr. connect_found env address net ctr w

-- delete ctr.NetworkSettings.Networks[name], where there is a table
unfoldable pub drop_endpoint : String → ContainerInspect → ContainerInspect
drop_endpoint name c = elim c.network_settings.networks [
  | none ↦ c
  | some endpoints ↦ record c {
    network_settings = record c.network_settings { networks = some (remove name endpoints) };
  }
]

unfoldable pub drop_member : String → NetworkInspect → NetworkInspect
drop_member id net = elim net.containers [
  | none ↦ net
  | some members ↦ record net { containers = some (remove id members) }
]

unfoldable pub disconnect_found :
    String × NetworkInspect → String × ContainerInspect → World → Outcome Unit
unfolding drop_endpoint drop_member connection_attrs
disconnect_found (nk, net) (ck, ctr) w =
    let w₁ = put_container ck (drop_endpoint net.name ctr) w in
    let w₂ = put_network nk (drop_member ctr.id net) w₁ in
    (ok tt, publish "network" "disconnect" net.id (connection_attrs net ctr) w₂)

unfoldable pub network_disconnect : String → String → World → Outcome Unit
network_disconnect net_id ctr_id w =
    with_found (resolve_network w.state net_id) w
      λ net. with_found (resolve_container w.state ctr_id) w λ ctr. disconnect_found net ctr w
