-- ===== src/MockDocker/Script.antt =====
-- All mutations of mock-docker/src/mutations.ts as the commands of a script, which runs them one
-- after another on one world, whether they succeed or not.
pub mod Consistency
use dockge.Prelude.{String, Bool, Option, List, [], ◌∷◌}
use dockge.MockDocker.World.{Env, World}
use dockge.MockDocker.Lifecycle.{Operation, perform}
use dockge.MockDocker.Disposal.{container_remove, container_rename}
use dockge.MockDocker.Creation.{ContainerCreateConfig, container_create}
use dockge.MockDocker.Networks.{
  NetworkCreateConfig, network_create, network_remove, network_connect, network_disconnect,
}
use dockge.MockDocker.Resources.{
  VolumeCreateConfig, volume_create, volume_remove, image_remove, image_prune, ExecCreateConfig,
  exec_create,
}

pub data Command : Type 0 where
  operate : Operation → String → Command
  create_container : ContainerCreateConfig → Command
  remove_container : String → Bool → Command
  rename_container : String → String → Command
  create_network : NetworkCreateConfig → Command
  remove_network : String → Command
  connect_network : String → String → Option String → Command
  disconnect_network : String → String → Command
  create_volume : VolumeCreateConfig → Command
  remove_volume : String → Command
  remove_image : String → Bool → Command
  prune_images : Bool → Command
  create_exec : String → ExecCreateConfig → Command

unfoldable pub execute : Env → Command → World → World
execute env (operate op id) w = (perform env op id w).1
execute env (create_container config) w = (container_create env config w).1
execute env (remove_container id force) w = (container_remove env id force w).1
execute env (rename_container id name) w = (container_rename id name w).1
execute env (create_network config) w = (network_create env config w).1
execute env (remove_network id) w = (network_remove id w).1
execute env (connect_network net ctr address) w = (network_connect env net ctr address w).1
execute env (disconnect_network net ctr) w = (network_disconnect net ctr w).1
execute env (create_volume config) w = (volume_create env config w).1
execute env (remove_volume name) w = (volume_remove name w).1
execute env (remove_image query force) w = (image_remove query force w).1
execute env (prune_images all) w = (image_prune all w).1
execute env (create_exec id config) w = (exec_create env id config w).1

unfoldable pub run : Env → List Command → World → World
run env [] w = w
run env (command ∷ commands) w = run env commands (execute env command w)
