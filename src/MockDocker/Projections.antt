-- ===== src/MockDocker/Projections.antt =====
-- mock-docker/src/projections.ts: an object of the daemon as an entry of a list.
pub mod Durations
use Prim.Native.String.{◌++◌ as append}
use dockge.Prelude.{
  ℕ, zero, suc, ◌+◌, ◌-◌, ◌/◌, String, Bool, true, false, Option, none, some, List, [], ◌∷◌, ◌++◌,
  map, ltb, leb, eqb, ◌==◌, ◌||◌, truthy, or_default, or_empty, before, second_part, join, show_nat,
  if◌then◌else◌,
}
use dockge.Prelude.Numbers.{Number, nan, plus, minus, parse_int}
use dockge.Prelude.Dict.{Dict, values}
use dockge.MockDocker.Types.{
  ContainerInspect, ContainerState, HealthState, ImageInspect, PortBinding, EndpointSettings,
  MountPoint,
}
use dockge.MockDocker.Runtime.{Runtime}
use dockge.MockDocker.Clock
use dockge.MockDocker.Clock.{FixedClock}
use dockge.MockDocker.Creation.{list_or_empty}

-- n === 1 ? `1 ${unit}` : `${n} ${unit}s`
unfoldable pub count_text : ℕ → String → String
unfolding show_nat
count_text n unit =
    if eqb n 1 then append "1 " unit else append (show_nat n) (append " " (append unit "s"))

-- A duration in milliseconds; one that is negative is shown like 0.
unfoldable pub format_duration : ℕ → String
format_duration ms =
    let seconds = ms / 1000 in
    let minutes = seconds / 60 in
    let hours = minutes / 60 in
    if ltb seconds 1
    then "Less than a second"
    else if ltb seconds 60
    then count_text seconds "second"
    else if ltb minutes 60
    then count_text minutes "minute"
    else if ltb hours 24
    then count_text hours "hour"
    else count_text (hours / 24) "day"

health_suffix : Runtime → Option HealthState → String
health_suffix rt none = ""
health_suffix rt (some h) =
    let s = rt.to_lower h.status in
    if s == "healthy" then " (healthy)" else if s == "unhealthy" then " (unhealthy)" else ""

status_at : Runtime → ContainerState → ℕ → String
unfolding format_duration health_suffix show_nat
status_at rt s now =
    let up = append "Up " (format_duration (now - rt.from_iso s.started_at)) in
    if s.status == "running" || s.status == "paused"
    then (if s.status == "paused"
        then append up " (Paused)"
        else append up (health_suffix rt s.health))
    else if s.status == "exited"
    then append "Exited (" (
        append (show_nat s.exit_code)
          (append ") " (append (format_duration (now - rt.from_iso s.finished_at)) " ago")))
    else if s.status == "created"
    then "Created"
    else s.status

status_from : Runtime → ContainerState → ℕ × FixedClock → String × FixedClock
unfolding status_at
status_from rt s (now, clock) = (status_at rt s now, clock)

unfoldable pub compute_status_string : Runtime → ContainerState → FixedClock → String × FixedClock
unfolding status_from
compute_status_string rt s clock = status_from rt s (Clock.now clock)

pub record PortInfo : Type 0 where
  pub private_port : Number
  pub public_port : Option ℕ
  pub kind : String
  pub ip : Option String

-- The number of a port that is shown, for one from 0 to 65535.
unfoldable pub shown_port : Number → Option ℕ
shown_port (plus n) = if leb n 65535 then some n else none
shown_port (minus zero) = some 0
shown_port _ = none

unfoldable pub port_entry : Number → String → PortBinding → PortInfo
unfolding truthy shown_port parse_int
port_entry port kind b = record {
  private_port = port;
  public_port = if truthy b.host_port then shown_port (parse_int b.host_port) else none;
  kind = kind;
  ip = if truthy b.host_ip then some b.host_ip else none;
}

unfoldable pub port_entries : Number → String → List PortBinding → List PortInfo
unfolding port_entry
port_entries port kind [] =
    record { private_port = port; public_port = none; kind = kind; ip = none } ∷ []
port_entries port kind bindings = map (port_entry port kind) bindings

unfoldable pub flatten_ports : Dict (Option (List PortBinding)) → List PortInfo
unfolding port_entries before second_part or_default parse_int
flatten_ports [] = []
flatten_ports ((key, bindings) ∷ ports) =
    port_entries (parse_int (before b'/' key)) (or_default (second_part b'/' key) "tcp")
      (list_or_empty bindings)
    ++ flatten_ports ports

pub record ContainerListEntry : Type 0 where
  pub id : String
  pub names : List String
  pub image : String
  pub image_id : String
  pub command : String
  pub created : ℕ
  pub ports : List PortInfo
  pub labels : Dict String
  pub state : String
  pub status : String
  pub network_mode : String
  pub networks : Dict EndpointSettings
  pub mounts : List MountPoint
  pub size_rw : Option ℕ
  pub size_root_fs : Option ℕ
  -- the status and the failing streak
  pub health : Option (String × ℕ)

arguments_text : List String → String
unfolding join
arguments_text [] = ""
arguments_text args = append " " (join " " args)

health_of : Option HealthState → Option (String × ℕ)
health_of none = none
health_of (some h) = some (h.status, h.failing_streak)

entry_with :
    Runtime → ContainerInspect → Bool → String × FixedClock → ContainerListEntry × FixedClock
unfolding arguments_text health_of or_empty or_default flatten_ports
entry_with rt c include_size (status, clock) = (
  record {
    id = c.id;
    names = c.name ∷ [];
    image = or_empty c.config.image;
    image_id = c.image;
    command = append c.path (arguments_text c.args);
    created = rt.from_iso c.created / 1000;
    ports = flatten_ports (list_or_empty c.network_settings.ports);
    labels = list_or_empty c.config.labels;
    state = c.state.status;
    status = status;
    network_mode = or_default c.host_config.network_mode "default";
    networks = list_or_empty c.network_settings.networks;
    mounts = c.mounts;
    size_rw = if include_size then c.size_rw else none;
    size_root_fs = if include_size then c.size_root_fs else none;
    health = health_of c.state.health;
  },
  clock,
)

unfoldable pub project_to_container_list_entry :
    Runtime → ContainerInspect → Bool → FixedClock → ContainerListEntry × FixedClock
unfolding entry_with compute_status_string
project_to_container_list_entry rt c include_size clock =
    entry_with rt c include_size (compute_status_string rt c.state clock)

-- `containers.map(…)`: each entry reads the clock.
unfoldable pub project_containers :
    Runtime → Bool → List ContainerInspect → FixedClock → List ContainerListEntry × FixedClock
unfolding project_to_container_list_entry
project_containers rt include_size [] clock = ([], clock)
project_containers rt include_size (c ∷ cs) clock =
    let (entry, clock₁) = project_to_container_list_entry rt c include_size clock in
    let (entries, clock₂) = project_containers rt include_size cs clock₁ in
    (entry ∷ entries, clock₂)

-- `SharedSize` is -1 always and `ParentId` is empty.
pub record ImageListEntry : Type 0 where
  pub id : String
  pub repo_tags : List String
  pub repo_digests : List String
  pub created : ℕ
  pub size : ℕ
  pub labels : Dict String
  pub containers : ℕ

unfoldable pub count_users : String → List ContainerInspect → ℕ
count_users id [] = 0
count_users id (c ∷ cs) = (if c.image == id then 1 else 0) + count_users id cs

unfoldable pub project_to_image_list_entry :
    Runtime → Dict ContainerInspect → ImageInspect → ImageListEntry
unfolding count_users
project_to_image_list_entry rt containers img = record {
  id = img.id;
  repo_tags = img.repo_tags;
  repo_digests = img.repo_digests;
  created = rt.from_iso img.created / 1000;
  size = img.size;
  labels = list_or_empty img.labels;
  containers = count_users img.id (values containers);
}
