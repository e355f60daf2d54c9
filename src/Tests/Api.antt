-- ===== src/Tests/Api.antt =====
-- The HTTP interface of mock-docker/src on concrete worlds.
use Prim.Native.String.{◌++◌ as append}
use dockge.Prelude.{
  ℕ, ◌-◌, ◌/◌, ◌≤◌, String, ◌≡◌, ◌↔◌, ◌||◌, refl, true, false, some, List, [], ◌∷◌, ◌++◌, map, take,
  truthy, trim_start, arith, length, drop_slash, utf16_length,
}
use dockge.Prelude.Dict.{Dict, lookup}
use dockge.MockDocker.Types.{ContainerInspect, ExecInspect}
use dockge.MockDocker.World.{World}
use dockge.MockDocker.Names.{resolve_by_id_or_name, prefix_matches, find_by_name, by_prefix}
use dockge.MockDocker.Membership.{resolve_container}
use dockge.MockDocker.Containers.{container_stop}
use dockge.MockDocker.Projections.{count_text, format_duration}
use dockge.MockDocker.Projections.Durations.{
  TimeUnit, unit_text, LargestFit, format_duration-LargestFit,
}
use dockge.MockDocker.Api.LogStream.{Session, current_buffer}
use dockge.MockDocker.Api.LogStream.Delivery.{
  Append, deliver_all, chunk_for, entries_of, deliver_all-written,
}
use dockge.MockDocker.Api.Router.{
  Route, match_route, parse_pattern, find_route, status_of, handle_unit_result, failure_response,
}
use dockge.MockDocker.Api.Reply.{answer_unit}
use dockge.MockDocker.Api.Containers
use dockge.MockDocker.Api.Router.Matching.{Along, match_route_iff}
use dockge.MockDocker.Api.Endpoints.{Endpoint, routes, params_of}
use dockge.MockDocker.Api.Endpoints.Reach.{find_route-address}
use dockge.MockDocker.Api.Exec.{Interactive, on_data, run_one_shot}
use dockge.MockDocker.Api.Exec.Chunks.{on_data-append}
use dockge.MockDocker.Api.Exec.Sessions.{run_one_shot-finished}
use dockge.MockDocker.Api.Requests.{Request, handle}
use dockge.MockDocker.Api.Requests.Refusal.{handle-Refuses}
use dockge.Tests.{texts_differ, env, runtime, world, state, web_container}

format_duration-LargestFit_example :
    (unit : TimeUnit) × (n : ℕ) × (format_duration 7300000 ≡ count_text n (unit_text unit))
    × (1 ≤ n)
    × LargestFit (7300000 / 1000) unit n
format_duration-LargestFit_example = format_duration-LargestFit 7300000 (omega arith)

abbrev follower : Session
follower = record {
  id = "abc1";
  tty = true;
  timestamps = false;
  cursor = 0;
  stopped = false;
  written = [];
  ended = false;
}

at_end : follower.cursor ≡ length (current_buffer follower.id state)
unfolding current_buffer lookup
at_end = refl

abbrev appends : List Append
appends =
    record { id = "abc1"; entry = record { ts = 1; line = "one" } }
    ∷ record { id = "abc2"; entry = record { ts = 2; line = "other" } }
    ∷ record { id = "abc1"; entry = record { ts = 3; line = "two" } }
    ∷ []

deliver_all-written_example :
    (deliver_all runtime appends (state, follower)).1.written
    ≡ follower.written
      ++ map (chunk_for runtime follower) (take (100 - 0) (entries_of "abc1" appends))
deliver_all-written_example =
    deliver_all-written runtime appends state follower refl at_end (omega arith)

abbrev inspection : Route ℕ
inspection = record { method = "GET"; pattern = "/containers/:id/json"; handler = 1 }

match_route_iff_example :
    ((params : Dict String) × (match_route inspection "GET" ("containers" ∷ "web" ∷ "json" ∷ [])
        ≡ some params))
    ↔ ((inspection.method ≡ "GET")
        × Along
            (parse_pattern inspection.pattern).greedy
            (parse_pattern inspection.pattern).segments
            ("containers" ∷ "web" ∷ "json" ∷ []))
match_route_iff_example = match_route_iff inspection "GET" ("containers" ∷ "web" ∷ "json" ∷ [])

find_route-address_example :
    find_route routes "GET" ("images" ∷ "library" ∷ "nginx" ∷ "json" ∷ [])
    ≡ some (Endpoint.inspect_image, params_of Endpoint.inspect_image "library" ("nginx" ∷ []))
find_route-address_example = find_route-address Endpoint.inspect_image "library" ("nginx" ∷ [])

abbrev shell : Interactive
shell = record {
  tty = true;
  session = record { cwd = "/"; container = web_container };
  clock = record { base = 5; tick = 0 };
  buffer = "";
  json_parsed = false;
  written = [];
  finished = false;
  ended = false;
}

-- "{}pw" and "d\n"
abbrev first_chunk : List ℕ
first_chunk = b'{' ∷ b'}' ∷ b'p' ∷ b'w' ∷ []

abbrev second_chunk : List ℕ
second_chunk = b'd' ∷ 10 ∷ []

chunks_apart :
    runtime.decode (first_chunk ++ second_chunk)
    ≡ append (runtime.decode first_chunk) (runtime.decode second_chunk)
chunks_apart = refl

chunk_begun :
    shell.json_parsed || truthy (trim_start (append shell.buffer (runtime.decode first_chunk)))
    ≡ true
unfolding truthy trim_start
chunk_begun = refl

shell_going : (on_data runtime first_chunk shell).ended ≡ false
unfolding on_data
shell_going = refl

on_data-append_example :
    on_data runtime second_chunk (on_data runtime first_chunk shell)
    ≡ on_data runtime (first_chunk ++ second_chunk) shell
on_data-append_example =
    on_data-append runtime shell first_chunk second_chunk chunks_apart chunk_begun shell_going

abbrev session : ExecInspect
session = record {
  id = "e2";
  running = false;
  exit_code = 0;
  process_config = record { tty = true; entrypoint = "pwd"; arguments = []; user = "root" };
  open_stdin = false;
  open_stdout = true;
  open_stderr = true;
  container_id = "abc1";
  pid = 0;
}

abbrev used_container : ContainerInspect
used_container = record web_container { exec_ids = some ("e1" ∷ "e2" ∷ "e3" ∷ []) }

abbrev used_world : World
used_world = record world { state = record state { containers = ("abc1", used_container) ∷ [] } }

used_world-lookup : lookup "abc1" used_world.state.containers ≡ some used_container
unfolding lookup
used_world-lookup = refl

run_one_shot-finished_example :
    (lookup "e2" (run_one_shot runtime "e2" session used_container used_world).1.state.exec_sessions
      ≡ some (record session { running = false; exit_code = 0; pid = 0 }))
    × (lookup "abc1"
          (run_one_shot runtime "e2" session used_container used_world).1.state.containers
        ≡ some (record used_container { exec_ids = some ("e1" ∷ "e3" ∷ []) }))
run_one_shot-finished_example =
    run_one_shot-finished runtime "e2" session used_container ("e1" ∷ []) ("e3" ∷ []) used_world
      used_world-lookup refl (texts_differ "e1" "e2" refl, tt)

stop_missing : 304 ≤ status_of (handle env true (Request.stop_container "redis") world).0
unfolding handle Containers.stop_container container_stop resolve_container resolve_by_id_or_name
    lookup prefix_matches find_by_name by_prefix drop_slash utf16_length answer_unit
    handle_unit_result failure_response status_of
stop_missing = omega arith

handle-Refuses_example : (handle env true (Request.stop_container "redis") world).1 ≡ world
handle-Refuses_example =
    handle-Refuses env true (Request.stop_container "redis") world refl stop_missing
