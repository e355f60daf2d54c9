-- ===== src/MockDocker/Api/Requests.antt =====
-- The requests of mock-docker/src/api that run one of the operations of mock-docker/src/mutations.ts, as values,
-- and their handlers as one function. The start of an exec session and the reset are not among them.
pub mod Refusal
use dockge.Prelude.{String, Bool, true, false, Option, List}
use dockge.Prelude.Dict.{Dict}
use dockge.MockDocker.World.{Env, World}
use dockge.MockDocker.Creation.{ContainerCreateConfig}
use dockge.MockDocker.Networks.{NetworkCreateConfig}
use dockge.MockDocker.Resources.{VolumeCreateConfig}
use dockge.MockDocker.Filters.{ParsedFilters}
use dockge.MockDocker.Api.Reply.{Reply}
use dockge.MockDocker.Api.Containers
use dockge.MockDocker.Api.Containers.{ExecRequest}
use dockge.MockDocker.Api.Objects
use dockge.MockDocker.Api.Objects.{Attachment}
use dockge.MockDocker.Api.Images

pub data Request : Type 0 where
  create_container : Dict String → Option ContainerCreateConfig → Request
  remove_container kill_container rename_container : String → Dict String → Request
  start_container stop_container restart_container pause_container unpause_container :
      String → Request
  create_exec : String → Option ExecRequest → Request
  create_network : Option NetworkCreateConfig → Request
  remove_network : String → Request
  connect_network disconnect_network : String → Option Attachment → Request
  create_volume : Option VolumeCreateConfig → Request
  remove_volume : String → Request
  remove_image : String → Dict String → Request
  prune_images : ParsedFilters → Request

unfoldable pub handle : Env → Bool → Request → World → Reply
handle env e2e (create_container query body) w = Containers.create_container env query body w
handle env e2e (remove_container id query) w = Containers.remove_container env id query w
handle env e2e (kill_container id query) w = Containers.kill_container env id query w
handle env e2e (rename_container id query) w = Containers.rename_container id query w
handle env e2e (start_container id) w = Containers.start_container env e2e id w
handle env e2e (stop_container id) w = Containers.stop_container env id w
handle env e2e (restart_container id) w = Containers.restart_container env id w
handle env e2e (pause_container id) w = Containers.pause_container id w
handle env e2e (unpause_container id) w = Containers.unpause_container id w
handle env e2e (create_exec id body) w = Containers.create_exec env id body w
handle env e2e (create_network body) w = Objects.create_network env body w
handle env e2e (remove_network id) w = Objects.remove_network id w
handle env e2e (connect_network id body) w = Objects.connect_network env id body w
handle env e2e (disconnect_network id body) w = Objects.disconnect_network id body w
handle env e2e (create_volume body) w = Objects.create_volume env body w
handle env e2e (remove_volume name) w = Objects.remove_volume name w
handle env e2e (remove_image rest query) w = Images.remove_image env.runtime rest query w
handle env e2e (prune_images filters) w = Images.prune_images env.runtime filters w

-- A restart stops before it starts.
abbrev pub is_restart : Request → Bool
is_restart (restart_container id) = true
is_restart _ = false
