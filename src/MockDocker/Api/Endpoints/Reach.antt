-- ===== src/MockDocker/Api/Endpoints/Reach.antt =====
-- mock-docker/src/main.ts and mock-docker/src/server.ts: the route that each request finds.
use dockge.Prelude.{length-append, String, ◌≡◌, refl, some, List, [], ◌∷◌, arith}
use dockge.MockDocker.Api.Router.{find_route, match_route, match_pattern, bind_segments, with_rest}
use dockge.Prelude.Dict.{insert}
use dockge.MockDocker.Api.Endpoints.{Endpoint, routes, method_of, address, params_of}

-- For every endpoint and every name of an object, in any number of segments where the endpoint allows it, a
-- request with the endpoint's method and address finds, among all routes in their order, the route of this
-- endpoint, and gives its handler the name, or the rest of the path, as the parameter.
pub find_route-address :
    (e : Endpoint) (id : String) (more : List String)
    → find_route routes (method_of e) (address e id more) ≡ some (e, params_of e id more)
unfolding find_route match_route insert match_pattern bind_segments with_rest
find_route-address Endpoint.ping id more = refl
find_route-address Endpoint.head_ping id more = refl
find_route-address Endpoint.version id more = refl
find_route-address Endpoint.info id more = refl
find_route-address Endpoint.events id more = refl
find_route-address Endpoint.mock_reset id more = refl
find_route-address Endpoint.list_containers id more = refl
find_route-address Endpoint.create_container id more = refl
find_route-address Endpoint.inspect_container id more = refl
find_route-address Endpoint.remove_container id more = refl
find_route-address Endpoint.start_container id more = refl
find_route-address Endpoint.stop_container id more = refl
find_route-address Endpoint.restart_container id more = refl
find_route-address Endpoint.kill_container id more = refl
find_route-address Endpoint.pause_container id more = refl
find_route-address Endpoint.unpause_container id more = refl
find_route-address Endpoint.rename_container id more = refl
find_route-address Endpoint.update_container id more = refl
find_route-address Endpoint.container_logs id more = refl
find_route-address Endpoint.container_stats id more = refl
find_route-address Endpoint.container_top id more = refl
find_route-address Endpoint.create_exec id more = refl
find_route-address Endpoint.list_images id more = refl
find_route-address Endpoint.prune_images id more = refl
find_route-address Endpoint.inspect_image id more = ground (arith, length-append more ("json" ∷ []))
find_route-address Endpoint.remove_image id more = ground arith
find_route-address Endpoint.distribution id more = ground (arith, length-append more ("json" ∷ []))
find_route-address Endpoint.list_networks id more = refl
find_route-address Endpoint.create_network id more = refl
find_route-address Endpoint.inspect_network id more = refl
find_route-address Endpoint.remove_network id more = refl
find_route-address Endpoint.connect_network id more = refl
find_route-address Endpoint.disconnect_network id more = refl
find_route-address Endpoint.list_volumes id more = refl
find_route-address Endpoint.create_volume id more = refl
find_route-address Endpoint.inspect_volume id more = refl
find_route-address Endpoint.remove_volume id more = refl
find_route-address Endpoint.start_exec id more = refl
find_route-address Endpoint.inspect_exec id more = refl
