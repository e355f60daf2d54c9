-- ===== src/MockDocker/Logs.antt =====
-- mock-docker/src/logs.ts: the lines that a container logs when it starts, stops and runs.
-- `getHistoricalLogs` and its generic form have no caller in the repository and are left out.
use Prim.Native.String.{◌++◌ as append}
use dockge.Prelude.{
  ℕ, zero, suc, ◌+◌, ◌-◌, ◌*◌, ◌%◌, String, Option, none, some, List, [], ◌∷◌, length, truthy,
  or_default, or_empty, before, show_nat, replace_first, ◌&&◌, if◌then◌else◌,
}
use dockge.Prelude.Numbers.{Number, nan, plus, parse_int, show_number}
use dockge.Prelude.Dict.{Dict, lookup}
use dockge.MockDocker.Types.{ContainerInspect}
use dockge.MockDocker.Clock
use dockge.MockDocker.Clock.{FixedClock}
use dockge.MockDocker.State.{LogTemplates}
use dockge.MockDocker.LogTemplates.{extract_base_image_name, lookup_template, expand_placeholders}
use dockge.MockDocker.Runtime.{Runtime}
use dockge.MockDocker.Deterministic.{deterministic_int, service_seed, hash_to_seed}
use dockge.MockDocker.World.{LogGenerator}

-- Config.Labels ?? {}
abbrev pub labels_or_empty : Option (Dict String) → Dict String
labels_or_empty none = []
labels_or_empty (some labels) = labels

-- xs[i], for an index inside
unfoldable pub nth_text : List String → ℕ → String
nth_text [] i = ""
nth_text (x ∷ xs) zero = x
nth_text (x ∷ xs) (suc i) = nth_text xs i

abbrev pub log_levels : List String
log_levels = "INFO" ∷ "DEBUG" ∷ "WARN" ∷ "ERROR" ∷ []

abbrev pub log_components : List String
log_components =
    "server" ∷ "config" ∷ "runtime" ∷ "http" ∷ "db" ∷ "cache" ∷ "scheduler" ∷ "worker" ∷ []

abbrev pub generic_startup_templates : List String
generic_startup_templates =
    "Initializing application..." ∷ "Loading configuration from environment"
    ∷ "Connecting to database" ∷ "Database connection established" ∷ "Starting HTTP server"
    ∷ "Listening on port {port}" ∷ "Registering middleware" ∷ "Health check endpoint ready"
    ∷ "Application started successfully" ∷ "Ready to accept connections" ∷ []

abbrev pub generic_shutdown_templates : List String
generic_shutdown_templates =
    "Received shutdown signal" ∷ "Closing active connections" ∷ "Shutting down gracefully" ∷ []

abbrev pub generic_periodic_templates : List String
generic_periodic_templates =
    "Handling request from client" ∷ "Processing background job" ∷ "Health check passed"
    ∷ "Cache hit ratio: {ratio}%" ∷ "Active connections: {connections}"
    ∷ "Request completed in {latency}ms" ∷ "Scheduled task executed" ∷ "Memory usage: {memory}MB"
    ∷ "Garbage collection completed" ∷ "Metrics exported successfully" ∷ []

-- The key that stands first, and 8080 where it begins with no number.
port_or_default : Number → Number
port_or_default nan = plus 8080
port_or_default n = n

unfoldable pub first_exposed_port : Option (List String) → Number
unfolding truthy before port_or_default parse_int
first_exposed_port (some (first ∷ _)) =
    if truthy first then port_or_default (parse_int (before b'/' first)) else plus 8080
first_exposed_port _ = plus 8080

unfoldable pub image_ref_of : ContainerInspect → String
unfolding or_default
image_ref_of c = or_default c.config.image "unknown"

module _ (rt : Runtime) where
  unfoldable pub container_seed : ContainerInspect → String
  unfolding truthy service_seed
  container_seed c =
      let labels = labels_or_empty c.config.labels in
      let project = or_empty (lookup "com.docker.compose.project" labels) in
      let service = or_empty (lookup "com.docker.compose.service" labels) in
      if truthy project && truthy service
      then service_seed rt project service
      else hash_to_seed rt ("portge-mock-v1" ∷ "container" ∷ c.id ∷ [])

  -- The lines of a template, from line i on, each 100 ms behind the one before.
  unfoldable pub template_lines : String → ℕ → ℕ → List String → List String
  template_lines image start i [] = []
  template_lines image start i (line ∷ lines) =
      expand_placeholders line (rt.to_iso (start + i * 100)) image i
      ∷ template_lines image start (i + 1) lines

  -- `${ts} INFO [server] ${msg}`
  info_line : ℕ → String → String
  info_line ts msg = append (rt.to_iso ts) (append " INFO [server] " msg)

  -- n lines from line i on, over the templates taken in turn.
  unfoldable pub generic_lines : (String → String) → List String → ℕ → ℕ → ℕ → List String
  unfolding nth_text info_line
  generic_lines fill templates start i zero = []
  generic_lines fill templates start i (suc n) =
      info_line (start + i * 100) (fill (nth_text templates (i % length templates)))
      ∷ generic_lines fill templates start (i + 1) n

  unfoldable pub generate_generic_startup_logs : ContainerInspect → ℕ → List String
  unfolding generic_lines first_exposed_port
  generate_generic_startup_logs c base_time =
      let port = first_exposed_port c.config.exposed_ports in
      generic_lines (λ msg. replace_first msg "{port}" (show_number port)) generic_startup_templates
        base_time 0 (deterministic_int rt (append (container_seed c) "startup-count") 5 8)

  generic_shutdown_from : ContainerInspect → ℕ × FixedClock → List String × FixedClock
  unfolding generic_lines
  generic_shutdown_from c (base_time, clock) = (
    generic_lines (λ msg. msg) generic_shutdown_templates base_time 0
        (deterministic_int rt (append (container_seed c) "shutdown-count") 2 3),
    clock,
  )

  unfoldable pub generate_generic_shutdown_logs :
      ContainerInspect → FixedClock → List String × FixedClock
  unfolding generic_shutdown_from
  generate_generic_shutdown_logs c clock = generic_shutdown_from c (Clock.now clock)

  unfoldable pub generate_startup_logs : ContainerInspect → ℕ → Option LogTemplates → List String
  unfolding generate_generic_startup_logs template_lines lookup_template extract_base_image_name
      image_ref_of
  generate_startup_logs c base_time none = generate_generic_startup_logs c base_time
  generate_startup_logs c base_time (some templates) =
      let image_ref = image_ref_of c in
      template_lines (extract_base_image_name image_ref) base_time 0
        (lookup_template templates image_ref).startup

  template_shutdown_from :
      ContainerInspect → LogTemplates → ℕ × FixedClock → List String × FixedClock
  unfolding template_lines lookup_template extract_base_image_name image_ref_of
  template_shutdown_from c templates (base_time, clock) =
      let image_ref = image_ref_of c in
      (
        template_lines (extract_base_image_name image_ref) base_time 0
            (lookup_template templates image_ref).shutdown,
        clock,
      )

  unfoldable pub generate_shutdown_logs :
      ContainerInspect → FixedClock → Option LogTemplates → List String × FixedClock
  unfolding generate_generic_shutdown_logs template_shutdown_from
  generate_shutdown_logs c clock none = generate_generic_shutdown_logs c clock
  generate_shutdown_logs c clock (some templates) =
      template_shutdown_from c templates (Clock.now clock)

  filled : String → String → String → ℕ → ℕ → String → String
  unfolding show_nat
  filled seed name suffix lo hi msg =
      replace_first msg name (show_nat (deterministic_int rt (append seed suffix) lo hi))

  unfoldable pub fill_generic_template : String → String → String
  unfolding filled
  fill_generic_template template seed = filled seed "{memory}" "mem" 32 512 (
      filled seed "{latency}" "lat" 1 500 (
        filled seed "{connections}" "conn" 1 200
          (filled seed "{ratio}" "ratio" 60 99 (filled seed "{port}" "port" 3000 9999 template))))

  -- An item that the seed chooses, of a list that is not empty.
  unfoldable pub chosen : String → List String → String
  unfolding nth_text
  chosen seed items = nth_text items (deterministic_int rt seed 0 (length items - 1))

  generic_periodic_from : ContainerInspect → ℕ → ℕ × FixedClock → String × FixedClock
  unfolding chosen fill_generic_template show_nat
  generic_periodic_from c n (t, clock) =
      let line_seed = append (container_seed c) (show_nat n) in
      let level = chosen (append line_seed "level") log_levels in
      let component = chosen (append line_seed "component") log_components in
      let msg =
        fill_generic_template (chosen (append line_seed "msg") generic_periodic_templates)
          line_seed in
      (
        append (rt.to_iso t)
            (append " " (append level (append " [" (append component (append "] " msg))))),
        clock,
      )

  template_periodic_from : ContainerInspect → ℕ → List String → ℕ × FixedClock → String × FixedClock
  unfolding chosen show_nat extract_base_image_name image_ref_of
  template_periodic_from c n lines (t, clock) =
      let line_seed = append (container_seed c) (show_nat n) in
      (
        expand_placeholders (chosen (append line_seed "hb-msg") lines) (rt.to_iso t)
            (extract_base_image_name (image_ref_of c)) n,
        clock,
      )

  -- The lines of the heartbeat, where there are templates.
  heartbeat_of : ContainerInspect → Option LogTemplates → List String
  unfolding lookup_template image_ref_of
  heartbeat_of c none = []
  heartbeat_of c (some templates) = (lookup_template templates (image_ref_of c)).heartbeat_lines

  unfoldable pub generate_periodic_log_line :
      ContainerInspect → ℕ → FixedClock → Option LogTemplates → String × FixedClock
  unfolding heartbeat_of template_periodic_from generic_periodic_from
  generate_periodic_log_line c n clock templates = elim (heartbeat_of c templates) [
    | [] ↦ generic_periodic_from c n (Clock.now clock)
    | line ∷ lines ↦ template_periodic_from c n (line ∷ lines) (Clock.now clock)
  ]

  -- What the mutations call.
  abbrev pub log_generator : LogGenerator
  log_generator = record { startup = generate_startup_logs; shutdown = generate_shutdown_logs }
