-- ===== src/Tests.antt =====
-- Concrete daemons, containers and events, on which the tests and the examples run.
mod Daemon
mod Stores
mod Resources
mod Api
mod Client
use Prim.Native.String.{◌++◌ as append}
use dockge.Prelude.{
  ℕ, ◌*◌, ◌/◌, String, Bool, true, false, Option, none, some, List, [], ◌∷◌, show_nat, join, ◌≡◌,
  ◌≢◌, ◌==◌, arith, eq_iff, eqb, if◌then◌else◌,
}
use dockge.Prelude.Dict.{Dict}
use dockge.MockDocker.Types.{
  ContainerInspect, ContainerState, HostConfig, ContainerConfig, NetworkSettings, NetworkInspect,
  ImageInspect,
}
use dockge.MockDocker.Runtime.{Runtime}
use dockge.MockDocker.Clock.{FixedClock}
use dockge.MockDocker.State.{MockState, LogEmitter, Timers, LogTemplates}
use dockge.MockDocker.Events.{EventEmitter}
use dockge.MockDocker.World.{Env, World}
use dockge.MockDocker.Logs.{log_generator}
use dockge.Web.EventStore.{DockerResourceEvent, EventStore}
use dockge.Web.ContainerStore.{ContainerBroadcast}

pub texts_differ : (s t : String) → (s == t) ≡ false → s ≢ t
texts_differ s t apart = λ same. ground (arith, eq_iff s t)

-- The characters of the chunks below; every other byte is decoded to U+FFFD.
abbrev pub decode_byte : ℕ → String
decode_byte b =
    if eqb b b'{'
    then "{"
    else if eqb b b'}'
    then "}"
    else if eqb b b'p'
    then "p"
    else if eqb b b'w'
    then "w"
    else if eqb b b'd'
    then "d"
    else if eqb b 10
    then "\n"
    else "�"

abbrev pub decode : List ℕ → String
decode [] = ""
decode (b ∷ bytes) = append (decode_byte b) (decode bytes)

abbrev pub runtime : Runtime
runtime = record {
  sha256 = λ s. 1 ∷ 2 ∷ 3 ∷ 4 ∷ 5 ∷ [];
  to_iso = λ t. show_nat t;
  from_iso = λ s. 0;
  to_upper = λ s. s;
  to_lower = λ s. s;
  to_fixed1 = λ n d. show_nat (n / d);
  date_text = λ ms. show_nat ms;
  floor_share = λ n k. n * k / 100;
  floor_percent = λ n d. n * 100 / d;
  stringify = λ cmd. join "," cmd;
  to_uint32 = λ s. 0;
  decode = decode;
}

abbrev pub env : Env
env = record { runtime = runtime; logs = log_generator runtime }

abbrev pub running_state : ContainerState
running_state = record {
  status = "running";
  running = true;
  paused = false;
  restarting = false;
  oom_killed = false;
  dead = false;
  pid = 7;
  exit_code = 0;
  error = "";
  started_at = "0";
  finished_at = "0";
  health = none;
}

abbrev pub container_named : String → String → ContainerInspect
container_named id name = record {
  id = id;
  created = "0";
  path = "";
  args = [];
  state = running_state;
  image = "sha256:1";
  name = name;
  exec_ids = none;
  host_config = record {
    network_mode = none;
    restart_policy = none;
    port_bindings = none;
    binds = none;
    dns = none;
    extra_hosts = none;
    memory = none;
  };
  mounts = [];
  config = record {
    image = some "nginx:latest";
    cmd = none;
    entrypoint = none;
    env = none;
    labels = some (("tier", "front") ∷ []);
    exposed_ports = none;
    user = none;
    hostname = none;
    working_dir = none;
    tty = none;
    healthcheck_test = none;
  };
  network_settings = record { networks = none; ports = none };
  size_rw = none;
  size_root_fs = none;
}

abbrev pub web_container : ContainerInspect
web_container = container_named "abc1" "/web"

abbrev pub db_container : ContainerInspect
db_container = container_named "abc2" "/db"

abbrev pub table : Dict ContainerInspect
table = ("abc1", web_container) ∷ ("abc2", db_container) ∷ []

abbrev pub state : MockState
state = record {
  containers = table;
  networks = [];
  volumes = [];
  images = [];
  exec_sessions = [];
  log_templates = none;
  update_images = [];
  stats_counters = [];
  log_buffers = [];
  log_emitter = record { listeners = []; calls = [] };
  heartbeat_intervals = [];
  event_history = [];
}

abbrev pub world : World
world = record {
  state = state;
  emitter = record { listeners = []; bound = true; delivered = [] };
  clock = record { base = 5; tick = 0 };
  timers = record { active = []; next = 1 };
}

abbrev pub event_at : ℕ → String → DockerResourceEvent
event_at time name = record {
  kind = "container";
  action = "start";
  id = name;
  name = name;
  stack_name = "shop";
  service_name = "";
  container_id = name;
  time_nano = time;
}

abbrev pub event_store : EventStore
event_store = record {
  events = event_at 5 "a" ∷ event_at 5 "b" ∷ event_at 5 "c" ∷ event_at 8 "a" ∷ [];
  insert_callbacks = [];
  notified = [];
}

abbrev pub broadcast : String → String → ContainerBroadcast
broadcast name status = record {
  name = some name;
  container_id = some name;
  service_name = some name;
  stack_name = some "shop";
  state = some status;
  health = none;
  image = some "nginx";
  image_id = some "1";
  networks = none;
  mounts = none;
  ports = none;
}
