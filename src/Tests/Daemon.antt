-- ===== src/Tests/Daemon.antt =====
-- The daemon of mock-docker/src on concrete worlds.
use dockge.Prelude.{
  ◌≢◌, ◌≤◌, String, ◌≡◌, ◌↔◌, refl, true, false, none, some, List, [], ◌∷◌, ◌++◌, ◌||◌, arith,
  length, utf16_length, drop_slash,
}
use dockge.Prelude.Dict.{Dict, lookup, insert, IsKeyed, Each, Holds-nil, Holds-insert}
use dockge.MockDocker.Types.{ContainerInspect}
use dockge.MockDocker.Names.{
  found, ambiguous, missing, prefix_matches, find_by_name, by_prefix, resolve_by_id_or_name,
}
use dockge.MockDocker.Names.Laws.{Answers, resolve-found}
use dockge.MockDocker.Names.Misses.{TwoPrefixes, resolve-ambiguous_iff, resolve-missing_iff}
use dockge.MockDocker.World.{append_lines}
use dockge.MockDocker.Lifecycle.{Phase, phase_of, Operation, step}
use dockge.MockDocker.Initial.{build_container_state, build_container_state-FlagsAgree}
use dockge.MockDocker.World.{World}
use dockge.MockDocker.Script.{Command, run}
use dockge.MockDocker.Script.Consistency.{IsConsistent, StandsWell}
use dockge.MockDocker.Script.Consistency.Preservation.{run-IsConsistent}
use dockge.MockDocker.State.{buffer_of}
use dockge.MockDocker.State.Buffers.{recent, logged, append_lines-recent}
use dockge.MockDocker.Deterministic.{deterministic_int}
use dockge.MockDocker.Deterministic.Bounds.{deterministic_int-bounds}
use dockge.MockDocker.Filters.{apply_container_filters, container_matches}
use dockge.MockDocker.Filters.Laws.{
  StandsIn, MatchesAll, apply_container_filters_iff, container_matches-append,
}
use dockge.Tests.{texts_differ, env, runtime, world, table, web_container, db_container}

abbrev name_of : ContainerInspect → String
name_of c = c.name

abbrev id_of : ContainerInspect → String
id_of c = c.id

table-IsKeyed : IsKeyed table
table-IsKeyed = ((texts_differ "abc2" "abc1" refl, tt), (tt, tt))

-- A container that the daemon loads as paused: Running is false.
abbrev loaded_container : ContainerInspect
loaded_container = record db_container {
  state = build_container_state runtime (λ s. s) none "paused" 0 "db";
}

abbrev loaded_table : Dict ContainerInspect
loaded_table = ("abc1", web_container) ∷ ("abc2", loaded_container) ∷ []

abbrev loaded_world : World
loaded_world = record world { state = record world.state { containers = loaded_table } }

loaded_table-IsKeyed : IsKeyed loaded_table
loaded_table-IsKeyed = ((texts_differ "abc2" "abc1" refl, tt), (tt, tt))

-- The step is to a container that is neither running nor paused, with the status "running".
unpause_loaded :
    step Operation.unpause (phase_of loaded_container.state) ≡ some (Phase.halted, "running")
unfolding build_container_state
unpause_loaded = refl

-- Docker refuses to start a paused container.
start_loaded :
    step (Operation.start none) (phase_of loaded_container.state) ≡ some (Phase.running, "running")
unfolding build_container_state
start_loaded = refl

abbrev script : List Command
script =
    Command.operate Operation.stop "web"
    ∷ Command.rename_container "db" "database"
    ∷ Command.remove_container "web" false
    ∷ Command.operate Operation.restart "database"
    ∷ []

web_container-StandsWell : StandsWell "abc1" web_container
web_container-StandsWell = (refl, (refl, λ _. refl))

loaded_world-IsConsistent : IsConsistent loaded_world
unfolding insert
loaded_world-IsConsistent = record {
  keyed = loaded_table-IsKeyed;
  well =
      Holds-insert StandsWell "abc2" loaded_container (("abc1", web_container) ∷ [])
        (Holds-insert StandsWell "abc1" web_container [] (Holds-nil StandsWell)
          web_container-StandsWell)
        (refl, build_container_state-FlagsAgree runtime (λ s. s) none "paused" 0 "db");
}

run-IsConsistent_example : IsConsistent (run env script loaded_world)
run-IsConsistent_example = run-IsConsistent env script loaded_world loaded_world-IsConsistent

find-db : resolve_by_id_or_name name_of id_of table "abc2" ≡ found "abc2" db_container
unfolding resolve_by_id_or_name lookup
find-db = refl

find-web : resolve_by_id_or_name name_of id_of table "web" ≡ found "abc1" web_container
unfolding resolve_by_id_or_name lookup prefix_matches find_by_name by_prefix drop_slash utf16_length
find-web = refl

abbrev paused_container : ContainerInspect → ContainerInspect
paused_container c = record c { state = record c.state { status = "paused"; paused = true } }

there : lookup "abc1" table ≡ some web_container
unfolding lookup
there = refl

resolve-found_example :
    (lookup "abc1" table ≡ some web_container) × Answers name_of id_of "web" "abc1" web_container
resolve-found_example =
    resolve-found name_of id_of table "web" {k = "abc1"} {item = web_container} table-IsKeyed
      find-web

resolve-ambiguous_iff_example : (resolve_by_id_or_name name_of id_of table "abc" ≡ ambiguous) ↔ (
    Each (λ k item. k ≢ "abc") table
    × (3 ≤ utf16_length "abc")
    × TwoPrefixes name_of id_of "abc" table)
resolve-ambiguous_iff_example = resolve-ambiguous_iff name_of id_of table "abc"

resolve-missing_iff_example :
    (resolve_by_id_or_name name_of id_of table "redis" ≡ missing)
    ↔ Each (λ k item. ¬ Answers name_of id_of "redis" k item) table
resolve-missing_iff_example = resolve-missing_iff name_of id_of table "redis"

-- Two containers share the prefix.
ambiguous-abc : resolve_by_id_or_name name_of id_of table "abc" ≡ ambiguous
unfolding resolve_by_id_or_name lookup prefix_matches find_by_name by_prefix drop_slash utf16_length
ambiguous-abc = refl

nothing_logged : length (logged "abc1" world.state) ≤ 100
unfolding lookup buffer_of
nothing_logged = omega arith

append_lines-recent_example :
    logged "abc1" (append_lines "abc1" ("one" ∷ "two" ∷ []) world).state
    ≡ recent (logged "abc1" world.state ++ "one" ∷ "two" ∷ [])
append_lines-recent_example = append_lines-recent "abc1" ("one" ∷ "two" ∷ []) world nothing_logged

deterministic_int-bounds_example :
    (3 ≤ deterministic_int runtime "cpu" 3 9) × (deterministic_int runtime "cpu" 3 9 ≤ 9)
deterministic_int-bounds_example = deterministic_int-bounds runtime "cpu" 3 9 (omega arith)

container_matches-append_example :
    container_matches web_container "status" (("exited" ∷ []) ++ ("running" ∷ []))
    ≡ container_matches web_container "status" ("exited" ∷ [])
      || container_matches web_container "status" ("running" ∷ [])
container_matches-append_example =
    container_matches-append web_container "status" ("exited" ∷ []) ("running" ∷ [])

apply_container_filters_iff_example :
    StandsIn web_container (
      apply_container_filters
        (web_container ∷ db_container ∷ [])
        (("name", "web" ∷ []) ∷ ("status", "exited" ∷ []) ∷ []))
    ↔ (StandsIn web_container (web_container ∷ db_container ∷ [])
        × MatchesAll container_matches web_container
            (("name", "web" ∷ []) ∷ ("status", "exited" ∷ []) ∷ []))
apply_container_filters_iff_example =
    apply_container_filters_iff web_container (web_container ∷ db_container ∷ [])
      (("name", "web" ∷ []) ∷ ("status", "exited" ∷ []) ∷ [])
