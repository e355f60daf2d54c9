-- ===== src/MockDocker/Types.antt =====
-- The Engine API's objects: mock-docker/src/types.ts, mock-docker/src/list-types.ts and the result
-- type of mock-docker/src/mutations.ts. A field that the modelled code neither reads nor writes is
-- left out; a field that may be missing is an `Option`.
use dockge.Prelude.{ℕ, String, Bool, Option, List}
use dockge.Prelude.Numbers.{Number}
use dockge.Prelude.Dict.{Dict}

pub record HealthState : Type 0 where
  pub status : String
  pub failing_streak : ℕ
  pub log : List String

pub record ContainerState : Type 0 where
  pub status : String
  pub running : Bool
  pub paused : Bool
  pub restarting : Bool
  pub oom_killed : Bool
  pub dead : Bool
  pub pid : ℕ
  pub exit_code : ℕ
  pub error : String
  pub started_at : String
  pub finished_at : String
  pub health : Option HealthState

pub record MountPoint : Type 0 where
  pub kind : String
  pub name : Option String
  pub source : String
  pub destination : String

pub record EndpointSettings : Type 0 where
  pub network_id : String
  pub endpoint_id : String
  pub gateway : String
  pub ip_address : String
  pub ip_prefix_len : Number
  pub mac_address : Option String

pub record PortBinding : Type 0 where
  pub host_ip : String
  pub host_port : String

pub record NetworkSettings : Type 0 where
  pub networks : Option (Dict EndpointSettings)
  pub ports : Option (Dict (Option (List PortBinding)))

pub record RestartPolicy : Type 0 where
  pub name : String
  pub maximum_retry_count : ℕ

pub record HostConfig : Type 0 where
  pub network_mode : Option String
  pub restart_policy : Option RestartPolicy
  pub port_bindings : Option (Dict (List PortBinding))
  pub binds : Option (List String)
  pub dns : Option (List String)
  pub extra_hosts : Option (List String)
  pub memory : Option ℕ

pub record ContainerConfig : Type 0 where
  pub image : Option String
  pub cmd : Option (List String)
  pub entrypoint : Option (List String)
  pub env : Option (List String)
  pub labels : Option (Dict String)
  pub exposed_ports : Option (List String)
  pub user : Option String
  pub hostname : Option String
  pub working_dir : Option String
  pub tty : Option Bool
  -- Healthcheck?.Test
  pub healthcheck_test : Option (List String)

pub record ContainerInspect : Type 0 where
  pub id : String
  pub created : String
  pub path : String
  pub args : List String
  pub state : ContainerState
  pub image : String
  pub name : String
  pub exec_ids : Option (List String)
  pub host_config : HostConfig
  pub mounts : List MountPoint
  pub config : ContainerConfig
  pub network_settings : NetworkSettings
  pub size_rw : Option ℕ
  pub size_root_fs : Option ℕ

pub record IpamPoolConfig : Type 0 where
  pub subnet : Option String
  pub gateway : Option String

pub record Ipam : Type 0 where
  pub driver : Option String
  pub config : Option (List IpamPoolConfig)
  pub options : Dict String

pub record NetworkContainer : Type 0 where
  pub name : String
  pub endpoint_id : String
  pub mac_address : String
  pub ipv4_address : String

pub record NetworkInspect : Type 0 where
  pub name : String
  pub id : String
  pub created : String
  pub scope : String
  pub driver : String
  pub enable_ipv4 : Bool
  pub enable_ipv6 : Bool
  pub ipam : Ipam
  pub internal : Bool
  pub attachable : Bool
  pub ingress : Bool
  pub config_only : Bool
  pub containers : Option (Dict NetworkContainer)
  pub options : Dict String
  pub labels : Option (Dict String)

pub record VolumeInspect : Type 0 where
  pub name : String
  pub driver : String
  pub mountpoint : String
  pub created_at : String
  pub labels : Option (Dict String)
  pub scope : String
  pub options : Dict String

pub record ImageInspect : Type 0 where
  pub id : String
  pub repo_tags : List String
  pub repo_digests : List String
  pub created : String
  -- Config?.Labels
  pub labels : Option (Dict String)
  pub size : ℕ

pub record ExecProcessConfig : Type 0 where
  pub tty : Bool
  pub entrypoint : String
  pub arguments : List String
  pub user : String

pub record ExecInspect : Type 0 where
  pub id : String
  pub running : Bool
  pub exit_code : ℕ
  pub process_config : ExecProcessConfig
  pub open_stdin : Bool
  pub open_stdout : Bool
  pub open_stderr : Bool
  pub container_id : String
  pub pid : ℕ

pub record DockerEvent : Type 0 where
  pub kind : String
  pub action : String
  pub actor_id : String
  pub attributes : Dict String
  pub time : ℕ
  pub time_nano : ℕ

pub data MutationResult {ℓ} (A : Type ℓ) : Type ℓ where
  ok : A → MutationResult A
  -- the status code and the message
  fail : ℕ → String → MutationResult A
