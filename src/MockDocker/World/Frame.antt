-- ===== src/MockDocker/World/Frame.antt =====
-- The tables of objects behind the helpers that publish events, append logs and stop timers.
use dockge.Prelude.{String, ◌≡◌, List, [], ◌∷◌, arith}
use dockge.Prelude.Dict.{Dict}
use dockge.MockDocker.World.{World, publish, append_lines, clear_heartbeat}

-- The same objects; the logs, the events, the clock and the timers may differ.
pub record SameTables (v w : World) : Type 0 where
  pub containers : v.state.containers ≡ w.state.containers
  pub networks : v.state.networks ≡ w.state.networks
  pub volumes : v.state.volumes ≡ w.state.volumes
  pub images : v.state.images ≡ w.state.images
  pub exec_sessions : v.state.exec_sessions ≡ w.state.exec_sessions

pub SameTables-publish :
    (kind action id : String) (attrs : Dict String) (w : World)
    → SameTables (publish kind action id attrs w) w
unfolding publish
SameTables-publish kind action id attrs w = ground arith

pub SameTables-append_lines :
    (id : String) (lines : List String) (w : World) → SameTables (append_lines id lines w) w
unfolding append_lines
SameTables-append_lines id [] w = ground arith
SameTables-append_lines id (line ∷ lines) w =
    let ih = SameTables-append_lines id lines _ in
    record {
      containers = ih.containers;
      networks = ih.networks;
      volumes = ih.volumes;
      images = ih.images;
      exec_sessions = ih.exec_sessions;
    }

pub SameTables-clear_heartbeat : (id : String) (w : World) → SameTables (clear_heartbeat id w) w
unfolding clear_heartbeat
SameTables-clear_heartbeat id w = ground arith

module _ (kind action id : String) (attrs : Dict String) (w : World) where
  pub containers-publish : (publish kind action id attrs w).state.containers ≡ w.state.containers
  containers-publish = (SameTables-publish kind action id attrs w).containers

  pub networks-publish : (publish kind action id attrs w).state.networks ≡ w.state.networks
  networks-publish = (SameTables-publish kind action id attrs w).networks

module _ (id : String) (lines : List String) (w : World) where
  pub containers-append_lines : (append_lines id lines w).state.containers ≡ w.state.containers
  containers-append_lines = (SameTables-append_lines id lines w).containers

  pub networks-append_lines : (append_lines id lines w).state.networks ≡ w.state.networks
  networks-append_lines = (SameTables-append_lines id lines w).networks

module _ (id : String) (w : World) where
  pub containers-clear_heartbeat : (clear_heartbeat id w).state.containers ≡ w.state.containers
  containers-clear_heartbeat = (SameTables-clear_heartbeat id w).containers

  pub networks-clear_heartbeat : (clear_heartbeat id w).state.networks ≡ w.state.networks
  networks-clear_heartbeat = (SameTables-clear_heartbeat id w).networks

pub ruleset containers_frame =
    (containers-publish, containers-append_lines, containers-clear_heartbeat)

pub ruleset networks_frame = (networks-publish, networks-append_lines, networks-clear_heartbeat)
