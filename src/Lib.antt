-- ===== src/Lib.antt =====
-- Verification of three parts of Dockge that are written in TypeScript: the mock Docker daemon, against
-- which Dockge is run and tested, the command line that stands in for docker and talks to the daemon,
-- and the stores of the web frontend, which hold what the server and the daemon report.
--
-- The mock daemon (mock-docker/src). An API handler calls one mutation of mock-docker/src/mutations.ts,
-- which resolves a name or an identifier, changes the tables of the daemon's state, reads the clock,
-- writes log lines and publishes events. Here a mutation is a function from the world (state, emitter,
-- clock, timers) to its result and the next world; the early returns are the `fail` results.
--   MockDocker/Types          mock-docker/src/types.ts, list-types.ts: containers, networks, volumes, images
--   MockDocker/State          mock-docker/src/state.ts: MockState, appendLog, clear, the stats counters
--   MockDocker/Clock, Events  mock-docker/src/clock.ts, events.ts: FixedClock; EventEmitter, makeEventAt
--   MockDocker/Names          mock-docker/src/name-resolution.ts: resolveByIdOrName
--   MockDocker/Deterministic  mock-docker/src/deterministic.ts: identifiers and addresses from seeds
--   MockDocker/World          what a mutation reads and writes: emitter.emit(makeEvent(..)), append loops
--   MockDocker/Membership     mutations.ts: resolveContainer and its like, add/removeContainerToNetworks
--   MockDocker/Containers     mutations.ts: containerStart, Stop, Restart, Pause, Unpause
--   MockDocker/Disposal       mutations.ts: containerKill, containerRemove, containerRename
--   MockDocker/Creation       mutations.ts: containerCreate, uniquifyName
--   MockDocker/Networks       mutations.ts: networkCreate, Remove, Connect, Disconnect
--   MockDocker/Resources      mutations.ts: volumes, images, exec sessions
--   MockDocker/Lifecycle      the specification of a container's life: phases and their steps
--   MockDocker/Script         all mutations as commands, and runs of them
--   MockDocker/Initial        mock-docker/src/generator.ts: buildContainerState
--   MockDocker/Filters        mock-docker/src/filters.ts: the filters of the list endpoints
--   MockDocker/Logs, LogTemplates  logs.ts, log-templates.ts: the lines that a container logs
--   MockDocker/Projections, Top    projections.ts, top.ts: entries of lists, processes of a container
--   MockDocker/Shell          mock-docker/src/shell.ts: splitCommand, processCommand and its commands
--   MockDocker/Compose        mock-docker/src/compose-parser.ts: ports, volume mounts, environment
--   MockDocker/Stream         mock-docker/src/stream.ts: the frames of a multiplexed stream
--   MockDocker/Api/Router     mock-docker/src/server.ts: parsePattern, matchRoute, parseQueryString, answers
--   MockDocker/Api/Endpoints  the table of routes of mock-docker/src/main.ts, and the clients' addresses
--   MockDocker/Api/Containers, Objects, Images, System   mock-docker/src/api: the handlers
--   MockDocker/Api/Requests   the handlers that run a mutation, as one function of a request
--   MockDocker/Api/LogStream  mock-docker/src/api/containers.ts: /containers/:id/logs and its followers
--   MockDocker/Api/Exec       mock-docker/src/api/exec.ts: a shell's input in chunks, one-shot commands
-- A handler takes what the router and `readJSON` give it, and answers with a status, a body and the
-- next world. A follower of a log and a shell are states, with a function for each callback.
--
-- The command line (mock-docker/cli).
--   Cli/Demux                 mock-docker/cli/docker-handler.ts: the loops over the frames of a body
--   Cli/Flags                 mock-docker/cli/docker-handler.ts: options, messages of start and its like
--   Cli/Progress              mock-docker/cli/tty-output.ts: the tasks of compose commands and their frames
--   Cli/SocketClient          mock-docker/cli/socket-client.ts: processChunkedData, the data of a connection
--
-- JavaScript's objects are shared: a mutation changes the container that a table holds. The model
-- keeps the key of a resolved object and writes the changed object back under it.
--
-- The web stores (web/src). The socket's messages call the merge functions of the stores, live events
-- go to the event store, and a log terminal merges log lines with banners for events.
--   Web/Search, Web/LogStore  web/src/common/log-store.ts: findInsertIndex, flushPending, addLine, destroy
--   Web/EventStore            web/src/stores/eventStore.ts: insert, bulkLoad, forContainer, forStack
--   Web/Merging               the map updates that the stores share
--   Web/ContainerStore        web/src/stores/containerStore.ts
--   Web/StackStore            web/src/stores/stackStore.ts, updateStore.ts: deriveStatus, unmanagedStacks
--   Web/Summaries             web/src/stores/networkStore.ts, imageStore.ts, volumeStore.ts
--   Web/Utilities             web/src/common/util-common.ts: status names, filters, ports, .env files
-- Prelude has what they share: texts, numbers, lists and JavaScript's Map as an association list.
-- Tests has concrete worlds and an example for each theorem below that has conditions.
--
-- Bounds. The binary search runs on fuel, the length of the array, which is enough since the interval
-- shrinks in every round; the loop over the frames of a body runs on one round more than the body has
-- bytes, and a frame takes eight at least; the printing of a number n runs on n + 1 rounds of at most as
-- many digits. Times are milliseconds or nanoseconds as natural numbers; the product in makeEventAt is
-- rounded as a double is.
--
-- Parameters. SHA-256, the texts of a Date, upper and lower case, JSON.stringify, toFixed, the
-- decoding of a buffer, the floor of a share and Number of a text belong to the JavaScript runtime
-- (MockDocker/Runtime); decodeURIComponent, parseFloat, deterministicTimestamp, the test of a regular expression, the printing of a time in an event's key and the
-- conversion of ANSI colours are arguments too. A mutation takes the log generators as an argument:
-- MockDocker/Logs has those of the program.
--
-- Not modelled: the start-up of the daemon from compose files, but for a container's state, and its reset;
-- the statistics; Node's http and the reading of JSON and YAML; the command line's requests and tables; the
-- Vue components; the Go server. Texts are compared by code points, an object's keys keep the order of insertion, and the names
-- that every JavaScript object inherits are not keys.
pub mod Prelude
pub mod MockDocker
pub mod Cli
pub mod Web
pub mod Tests
