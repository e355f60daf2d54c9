-- ===== src/MockDocker/Api/Endpoints.antt =====
-- The table of routes of mock-docker/src/main.ts, of mock-docker/src/api's files in their order, and the
-- address under which a client asks for each endpoint.
pub mod Reach
use dockge.Prelude.{String, List, [], ◌∷◌, ◌++◌, join}
use dockge.Prelude.Dict.{Dict}
use dockge.MockDocker.Api.Router.{Route}

pub data Endpoint : Type 0 where
  ping head_ping version info events mock_reset list_containers create_container : Endpoint
  inspect_container remove_container start_container stop_container restart_container : Endpoint
  kill_container pause_container unpause_container rename_container update_container : Endpoint
  container_logs container_stats container_top create_exec list_images prune_images : Endpoint
  inspect_image remove_image distribution list_networks create_network inspect_network : Endpoint
  remove_network connect_network disconnect_network list_volumes create_volume : Endpoint
  inspect_volume remove_volume start_exec inspect_exec : Endpoint

abbrev pub routes : List (Route Endpoint)
routes =
    record { method = "GET"; pattern = "/_ping"; handler = ping }
    ∷ record { method = "HEAD"; pattern = "/_ping"; handler = head_ping }
    ∷ record { method = "GET"; pattern = "/version"; handler = version }
    ∷ record { method = "GET"; pattern = "/info"; handler = info }
    ∷ record { method = "GET"; pattern = "/events"; handler = events }
    ∷ record { method = "POST"; pattern = "/_mock/reset"; handler = mock_reset }
    ∷ record { method = "GET"; pattern = "/containers/json"; handler = list_containers }
    ∷ record { method = "POST"; pattern = "/containers/create"; handler = create_container }
    ∷ record { method = "GET"; pattern = "/containers/:id/json"; handler = inspect_container }
    ∷ record { method = "DELETE"; pattern = "/containers/:id"; handler = remove_container }
    ∷ record { method = "POST"; pattern = "/containers/:id/start"; handler = start_container }
    ∷ record { method = "POST"; pattern = "/containers/:id/stop"; handler = stop_container }
    ∷ record { method = "POST"; pattern = "/containers/:id/restart"; handler = restart_container }
    ∷ record { method = "POST"; pattern = "/containers/:id/kill"; handler = kill_container }
    ∷ record { method = "POST"; pattern = "/containers/:id/pause"; handler = pause_container }
    ∷ record { method = "POST"; pattern = "/containers/:id/unpause"; handler = unpause_container }
    ∷ record { method = "POST"; pattern = "/containers/:id/rename"; handler = rename_container }
    ∷ record { method = "POST"; pattern = "/containers/:id/update"; handler = update_container }
    ∷ record { method = "GET"; pattern = "/containers/:id/logs"; handler = container_logs }
    ∷ record { method = "GET"; pattern = "/containers/:id/stats"; handler = container_stats }
    ∷ record { method = "GET"; pattern = "/containers/:id/top"; handler = container_top }
    ∷ record { method = "POST"; pattern = "/containers/:id/exec"; handler = create_exec }
    ∷ record { method = "GET"; pattern = "/images/json"; handler = list_images }
    ∷ record { method = "POST"; pattern = "/images/prune"; handler = prune_images }
    ∷ record { method = "GET"; pattern = "/images/*"; handler = inspect_image }
    ∷ record { method = "DELETE"; pattern = "/images/*"; handler = remove_image }
    ∷ record { method = "GET"; pattern = "/distribution/*"; handler = distribution }
    ∷ record { method = "GET"; pattern = "/networks"; handler = list_networks }
    ∷ record { method = "POST"; pattern = "/networks/create"; handler = create_network }
    ∷ record { method = "GET"; pattern = "/networks/:id"; handler = inspect_network }
    ∷ record { method = "DELETE"; pattern = "/networks/:id"; handler = remove_network }
    ∷ record { method = "POST"; pattern = "/networks/:id/connect"; handler = connect_network }
    ∷ record { method = "POST"; pattern = "/networks/:id/disconnect"; handler = disconnect_network }
    ∷ record { method = "GET"; pattern = "/volumes"; handler = list_volumes }
    ∷ record { method = "POST"; pattern = "/volumes/create"; handler = create_volume }
    ∷ record { method = "GET"; pattern = "/volumes/:name"; handler = inspect_volume }
    ∷ record { method = "DELETE"; pattern = "/volumes/:name"; handler = remove_volume }
    ∷ record { method = "POST"; pattern = "/exec/:id/start"; handler = start_exec }
    ∷ record { method = "GET"; pattern = "/exec/:id/json"; handler = inspect_exec }
    ∷ []

abbrev pub method_of : Endpoint → String
method_of ping = "GET"
method_of head_ping = "HEAD"
method_of version = "GET"
method_of info = "GET"
method_of events = "GET"
method_of mock_reset = "POST"
method_of list_containers = "GET"
method_of create_container = "POST"
method_of inspect_container = "GET"
method_of remove_container = "DELETE"
method_of start_container = "POST"
method_of stop_container = "POST"
method_of restart_container = "POST"
method_of kill_container = "POST"
method_of pause_container = "POST"
method_of unpause_container = "POST"
method_of rename_container = "POST"
method_of update_container = "POST"
method_of container_logs = "GET"
method_of container_stats = "GET"
method_of container_top = "GET"
method_of create_exec = "POST"
method_of list_images = "GET"
method_of prune_images = "POST"
method_of inspect_image = "GET"
method_of remove_image = "DELETE"
method_of distribution = "GET"
method_of list_networks = "GET"
method_of create_network = "POST"
method_of inspect_network = "GET"
method_of remove_network = "DELETE"
method_of connect_network = "POST"
method_of disconnect_network = "POST"
method_of list_volumes = "GET"
method_of create_volume = "POST"
method_of inspect_volume = "GET"
method_of remove_volume = "DELETE"
method_of start_exec = "POST"
method_of inspect_exec = "GET"

-- The segments of the address, for an object that is called `id`; the name of an image may have further
-- segments, `more`.
abbrev pub address : Endpoint → String → List String → List String
address ping id more = "_ping" ∷ []
address head_ping id more = "_ping" ∷ []
address version id more = "version" ∷ []
address info id more = "info" ∷ []
address events id more = "events" ∷ []
address mock_reset id more = "_mock" ∷ "reset" ∷ []
address list_containers id more = "containers" ∷ "json" ∷ []
address create_container id more = "containers" ∷ "create" ∷ []
address inspect_container id more = "containers" ∷ id ∷ "json" ∷ []
address remove_container id more = "containers" ∷ id ∷ []
address start_container id more = "containers" ∷ id ∷ "start" ∷ []
address stop_container id more = "containers" ∷ id ∷ "stop" ∷ []
address restart_container id more = "containers" ∷ id ∷ "restart" ∷ []
address kill_container id more = "containers" ∷ id ∷ "kill" ∷ []
address pause_container id more = "containers" ∷ id ∷ "pause" ∷ []
address unpause_container id more = "containers" ∷ id ∷ "unpause" ∷ []
address rename_container id more = "containers" ∷ id ∷ "rename" ∷ []
address update_container id more = "containers" ∷ id ∷ "update" ∷ []
address container_logs id more = "containers" ∷ id ∷ "logs" ∷ []
address container_stats id more = "containers" ∷ id ∷ "stats" ∷ []
address container_top id more = "containers" ∷ id ∷ "top" ∷ []
address create_exec id more = "containers" ∷ id ∷ "exec" ∷ []
address list_images id more = "images" ∷ "json" ∷ []
address prune_images id more = "images" ∷ "prune" ∷ []
address inspect_image id more = "images" ∷ id ∷ (more ++ "json" ∷ [])
address remove_image id more = "images" ∷ id ∷ more
address distribution id more = "distribution" ∷ id ∷ (more ++ "json" ∷ [])
address list_networks id more = "networks" ∷ []
address create_network id more = "networks" ∷ "create" ∷ []
address inspect_network id more = "networks" ∷ id ∷ []
address remove_network id more = "networks" ∷ id ∷ []
address connect_network id more = "networks" ∷ id ∷ "connect" ∷ []
address disconnect_network id more = "networks" ∷ id ∷ "disconnect" ∷ []
address list_volumes id more = "volumes" ∷ []
address create_volume id more = "volumes" ∷ "create" ∷ []
address inspect_volume id more = "volumes" ∷ id ∷ []
address remove_volume id more = "volumes" ∷ id ∷ []
address start_exec id more = "exec" ∷ id ∷ "start" ∷ []
address inspect_exec id more = "exec" ∷ id ∷ "json" ∷ []

-- What the handler is given of the address.
abbrev pub params_of : Endpoint → String → List String → Dict String
params_of ping id more = []
params_of head_ping id more = []
params_of version id more = []
params_of info id more = []
params_of events id more = []
params_of mock_reset id more = []
params_of list_containers id more = []
params_of create_container id more = []
params_of inspect_container id more = ("id", id) ∷ []
params_of remove_container id more = ("id", id) ∷ []
params_of start_container id more = ("id", id) ∷ []
params_of stop_container id more = ("id", id) ∷ []
params_of restart_container id more = ("id", id) ∷ []
params_of kill_container id more = ("id", id) ∷ []
params_of pause_container id more = ("id", id) ∷ []
params_of unpause_container id more = ("id", id) ∷ []
params_of rename_container id more = ("id", id) ∷ []
params_of update_container id more = ("id", id) ∷ []
params_of container_logs id more = ("id", id) ∷ []
params_of container_stats id more = ("id", id) ∷ []
params_of container_top id more = ("id", id) ∷ []
params_of create_exec id more = ("id", id) ∷ []
params_of list_images id more = []
params_of prune_images id more = []
params_of inspect_image id more = ("*", join "/" (id ∷ (more ++ "json" ∷ []))) ∷ []
params_of remove_image id more = ("*", join "/" (id ∷ more)) ∷ []
params_of distribution id more = ("*", join "/" (id ∷ (more ++ "json" ∷ []))) ∷ []
params_of list_networks id more = []
params_of create_network id more = []
params_of inspect_network id more = ("id", id) ∷ []
params_of remove_network id more = ("id", id) ∷ []
params_of connect_network id more = ("id", id) ∷ []
params_of disconnect_network id more = ("id", id) ∷ []
params_of list_volumes id more = []
params_of create_volume id more = []
params_of inspect_volume id more = ("name", id) ∷ []
params_of remove_volume id more = ("name", id) ∷ []
params_of start_exec id more = ("id", id) ∷ []
params_of inspect_exec id more = ("id", id) ∷ []
