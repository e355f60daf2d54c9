-- ===== src/MockDocker/Script/Consistency/Preservation.antt =====
-- mock-docker/src/mutations.ts: the invariant behind a command and behind a script.
use dockge.Prelude.{List, [], ◌∷◌}
use dockge.MockDocker.World.{Env, World}
use dockge.MockDocker.Script.{
  Command, operate, create_container, remove_container, rename_container, create_network,
  remove_network, connect_network, disconnect_network, create_volume, remove_volume, remove_image,
  prune_images, create_exec, execute, run,
}
use dockge.MockDocker.Script.Consistency.{IsConsistent}
use dockge.MockDocker.Script.Consistency.Containers.{
  perform-IsConsistent, container_remove-IsConsistent, container_rename-IsConsistent,
}
use dockge.MockDocker.Script.Consistency.Creation.{container_create-IsConsistent}
use dockge.MockDocker.Script.Consistency.Networks.{
  network_connect-IsConsistent, network_disconnect-IsConsistent, network_create-IsConsistent,
  network_remove-IsConsistent,
}
use dockge.MockDocker.Script.Consistency.Resources.{
  volume_create-IsConsistent, volume_remove-IsConsistent, exec_create-IsConsistent,
  image_remove-IsConsistent, image_prune-IsConsistent,
}

pub execute-IsConsistent :
    (env : Env) (command : Command) (w : World)
    → IsConsistent w
    → IsConsistent (execute env command w)
unfolding execute
execute-IsConsistent env (operate op id) w h = perform-IsConsistent env op id w h
execute-IsConsistent env (create_container config) w h =
    container_create-IsConsistent env w h config
execute-IsConsistent env (remove_container id force) w h =
    container_remove-IsConsistent env w h id force
execute-IsConsistent env (rename_container id name) w h =
    container_rename-IsConsistent env w h id name
execute-IsConsistent env (create_network config) w h = network_create-IsConsistent env w h config
execute-IsConsistent env (remove_network id) w h = network_remove-IsConsistent env w h id
execute-IsConsistent env (connect_network net ctr address) w h =
    network_connect-IsConsistent env w h net ctr address
execute-IsConsistent env (disconnect_network net ctr) w h =
    network_disconnect-IsConsistent env w h net ctr
execute-IsConsistent env (create_volume config) w h = volume_create-IsConsistent env w h config
execute-IsConsistent env (remove_volume name) w h = volume_remove-IsConsistent env w h name
execute-IsConsistent env (remove_image query force) w h = image_remove-IsConsistent w h query force
execute-IsConsistent env (prune_images all) w h = image_prune-IsConsistent w h all
execute-IsConsistent env (create_exec id config) w h = exec_create-IsConsistent env w h id config

-- From a world in which the keys of the container table are distinct, every container stands under
-- its identifier, Paused is set exactly where Status is "paused", and Running only where Status is
-- "running" or, for a paused container, "paused", every script of the commands of the model, failing
-- or not, leads to such a world.
pub run-IsConsistent :
    (env : Env) (commands : List Command) (w : World)
    → IsConsistent w
    → IsConsistent (run env commands w)
unfolding run
run-IsConsistent env [] w h = h
run-IsConsistent env (command ∷ commands) w h =
    run-IsConsistent env commands (execute env command w) (execute-IsConsistent env command w h)
