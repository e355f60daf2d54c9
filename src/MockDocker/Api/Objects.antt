-- ===== src/MockDocker/Api/Objects.antt =====
-- mock-docker/src/api/networks.ts and mock-docker/src/api/volumes.ts.
use Prim.Native.String.{◌++◌ as append}
use dockge.Prelude.{String, Option, none, some, truthy, or_empty, if◌then◌else◌}
use dockge.Prelude.Dict.{lookup, values}
use dockge.MockDocker.Types.{NetworkInspect, VolumeInspect}
use dockge.MockDocker.World.{Env, World}
use dockge.MockDocker.Names.{ResolveResult, found, resolve_by_id_or_name}
use dockge.MockDocker.Networks.{
  NetworkCreateConfig, network_create, network_remove, network_connect, network_disconnect,
}
use dockge.MockDocker.Resources.{VolumeCreateConfig, volume_create, volume_remove}
use dockge.MockDocker.Filters.{ParsedFilters, apply_network_filters, apply_volume_filters}
use dockge.MockDocker.Api.Router.{Response, json, message}
use dockge.MockDocker.Api.Reply.{Body, Reply, answer_unit, answer_created}

unfoldable pub list_networks : ParsedFilters → World → Reply
list_networks filters w =
    (json 200 (Body.networks (apply_network_filters (values w.state.networks) filters)), w)

unfoldable pub create_network : Env → Option NetworkCreateConfig → World → Reply
unfolding answer_created truthy
create_network env none w = (message 400 "network name is required", w)
create_network env (some config) w =
    if truthy config.name
    then answer_created Body.created_network 201 (network_create env config w)
    else (message 400 "network name is required", w)

shown_network : String → ResolveResult NetworkInspect → Response Body
shown_network id (found key net) = json 200 (Body.network net)
shown_network id _ = message 404 (append "network " (append id " not found"))

unfoldable pub inspect_network : String → World → Reply
unfolding shown_network
inspect_network id w =
    (shown_network id (resolve_by_id_or_name (λ n. n.name) (λ n. n.id) w.state.networks id), w)

unfoldable pub remove_network : String → World → Reply
unfolding answer_unit
remove_network id w = answer_unit 204 (network_remove id w)

-- body.Container and body.EndpointConfig?.IPv4Address
pub record Attachment : Type 0 where
  pub container : Option String
  pub ipv4_address : Option String

container_named_in : Option Attachment → String
unfolding or_empty
container_named_in none = ""
container_named_in (some body) = or_empty body.container

address_in : Option Attachment → Option String
address_in none = none
address_in (some body) = body.ipv4_address

unfoldable pub connect_network : Env → String → Option Attachment → World → Reply
unfolding container_named_in address_in answer_unit truthy
connect_network env id body w =
    let container = container_named_in body in
    if truthy container
    then answer_unit 200 (network_connect env id container (address_in body) w)
    else (message 400 "Container is required", w)

unfoldable pub disconnect_network : String → Option Attachment → World → Reply
unfolding container_named_in answer_unit truthy
disconnect_network id body w =
    let container = container_named_in body in
    if truthy container
    then answer_unit 200 (network_disconnect id container w)
    else (message 400 "Container is required", w)

unfoldable pub list_volumes : ParsedFilters → World → Reply
list_volumes filters w = (
  json 200 (
      Body.volumes
        (apply_volume_filters (some w.state.containers) (values w.state.volumes) filters)),
  w,
)

unfoldable pub create_volume : Env → Option VolumeCreateConfig → World → Reply
unfolding answer_created truthy
create_volume env none w = (message 400 "volume name is required", w)
create_volume env (some config) w =
    if truthy config.name
    then answer_created Body.volume 201 (volume_create env config w)
    else (message 400 "volume name is required", w)

shown_volume : String → Option VolumeInspect → Response Body
shown_volume name none = message 404 (append "get " (append name ": no such volume"))
shown_volume name (some vol) = json 200 (Body.volume vol)

unfoldable pub inspect_volume : String → World → Reply
unfolding shown_volume
inspect_volume name w = (shown_volume name (lookup name w.state.volumes), w)

unfoldable pub remove_volume : String → World → Reply
unfolding answer_unit
remove_volume name w = answer_unit 204 (volume_remove name w)
