-- ===== src/Lib.antt =====
-- UptimeMesh: a dashboard that has probe agents check monitors in rounds, aggregates what they
-- report, and raises or clears alerts. This library models the dashboard's core in Go: the way
-- from the planning of a round to the persisted alert state, the agents' admission and their
-- connections, and the statements that delete or rewrite many rows.
--
-- How the parts interact. Once a second the scheduler
-- (dashboard/internal/scheduler/scheduler.go, `cycle`) plans a round for each monitor that is
-- due, stores a row, registers the round as in flight and hands the task to the assigned agents.
-- Results come in through `handleResult`, are kept as samples of the round in flight (round.go),
-- and when all are in, or the deadline is over, `finalize` closes the round: it aggregates,
-- rewrites the row (dashboard/internal/store/rounds.go), counts the hour, and moves the
-- monitor's alert state (dashboard/internal/alert/alert.go). Monitors of the push type are fed
-- from outside (push.go). A start recovers the rounds that were left open.
--
-- An agent connects with an enrollment key or with its credential
-- (dashboard/internal/hub/session.go), is written to or found among the rows of `agents`
-- (dashboard/internal/store/agents.go), and is registered with the hub. The operator approves,
-- rejects, revokes and deletes agents (dashboard/internal/api/agents.go). Once an hour rows that
-- are past their retention are deleted in batches (dashboard/internal/retention/retention.go).
--
-- Which file models which part:
-- - Alert.antt (Alert/Trace, Alert/Events): dashboard/internal/alert/alert.go. `apply` is
--   `Apply`; `run` applies it to the rounds of one monitor.
-- - CheckConfig.antt: shared/checkconfig/checkconfig.go, kinds, units, families and probe
--   configurations. StatusSpec.antt (StatusSpec/Codes, StatusSpec/Expanded):
--   shared/checkconfig/status.go, the expected status codes; `atoi` is bounded to 64 bits and
--   `itoa` runs on 20 digits, enough for 64 bits.
-- - Store/Id.antt: `IDFromHex` of dashboard/internal/store/db.go.
-- - Store/Rounds.antt: the statements on `rounds` and `results` of
--   dashboard/internal/store/rounds.go that the scheduler runs. Store/Orphans.antt:
--   `CloseOrphanOpenRounds` with all it calls.
-- - Store/States.antt: monitor_states.go, state_changes.go and `AddHourlyStat` of stats.go, all
--   under dashboard/internal/store.
-- - Scheduler/Plan.antt: `planRound`. Scheduler/Monitor.antt: `CheckPayload`,
--   `assignedAgentIDs`, and the record of dashboard/internal/store/monitors.go.
-- - Scheduler/Round.antt: `aggregate` and its data, of dashboard/internal/scheduler/round.go.
--   Scheduler/Flight.antt: `InFlightRound` and its methods, of the same file.
-- - Scheduler/World.antt: the state of the scheduler, its tables, and what a handler meets
--   outside.
-- - Scheduler/Dispatch.antt: `createRound`, `sendTask`, `AgentOnline`, `dispatchSerial`, `Kick`.
--   Scheduler/Cycle.antt: `cycle`. Scheduler/Registered.antt: histories of all these handlers.
-- - Scheduler/Intake.antt: `handleResult`. Scheduler/Finalize.antt: `finalize`, `applyAlert`,
--   `alarmDurationSec`. Scheduler/Push.antt: dashboard/internal/scheduler/push.go.
-- - Hub.antt (Hub/Registry, Hub/Presence): the registry of dashboard/internal/hub/hub.go.
-- - Store/Agents.antt (Store/Agents/Identity): the statements on `agents`. Hub/Session.antt:
--   `authenticate` and what a session refreshes and delivers; Hub/Reported and Hub/Live are
--   about those and about the open connections.
-- - Site.antt and its children: the rows of the agents together with the hub, `ServeWS` up to
--   its read loop, and the operator's requests; a history is a list of `Deed`s.
-- - Store/Monitors.antt (Store/Monitors/Cascade, Store/Monitors/Changes,
--   Store/Monitors/Channels): the statements of dashboard/internal/store/monitors.go on many
--   tables or many monitors.
-- - Store/Prune.antt (Store/Prune/Batches): the prune statements of stats.go and
--   state_changes.go. Retention.antt: one reconciliation.
-- - Store/Compact.antt (Store/Compact/Progress): `Compact`, `runCompact` and the goroutine that
--   reports its progress, of dashboard/internal/store/compact.go.
-- - Store/Usage.antt (Store/Usage/Epochs): the cache of the database's size in stats.go,
--   `DBStats`, `RefreshDBStats` and `invalidateDBStats`, as critical sections that interleave.
-- - Probe/Keyword.antt (Escapes, Found, Fuel under it): shared/probe/keyword.go.
-- - WebHub.antt (WebHub/Requests, WebHub/Delivery): the browsers' connections of
--   dashboard/internal/webhub/webhub.go.
-- - Prelude.antt and its children: shared names, tests on numbers, lists, maps keyed by text,
--   doubles. Examples.antt and its children: runs of the model at concrete inputs.
--
-- How the code is modelled. A Go function is a function on its arguments and the state it
-- changes, which it returns. A handler of the scheduler is one step: it reads the clock once,
-- and no other handler runs within it; the methods of a round in flight, whose mutex the source
-- takes per method, are steps of their own, in any order (Scheduler/Flight/Waiters.antt). Every
-- statement that may fail, the answers to pings, and the frames that the hub takes are inputs
-- (`World`, `Faults`). A table is the list of its rows. A map with text keys is an association
-- list, and a walk over it follows that list, where Go takes any order. An identifier is a text.
-- Times and durations are natural numbers of nanoseconds, stored times of seconds; where the
-- source subtracts, the sides are compared or the difference stops at 0 as the source's own
-- guard has it. Counters are unbounded natural numbers. A text of the source that is only
-- compared with constants is a data type of those constants. A double is an element of any type
-- with the operations used (`Float64`); what a theorem assumes of them is `Lawful`, which IEEE
-- 754 guarantees of small whole numbers and truncated whole numbers satisfy too. The loop that
-- decodes the escapes of a body has as much fuel as the body has bytes, which is enough since
-- each turn reads one at least. The other loops are structural on lists; that of the prune
-- statements runs on the number of batches which the source allows, 200 of 5000 rows, enough for
-- a million rows. The opening of a session is one step but for Site/Between.antt, where a
-- request comes between its two halves. The digest of secrets, the random ids and credentials
-- and the calendar are parameters or inputs.
--
-- Not modelled: the frames of a session's read loop other than the heartbeat, the waits of the
-- hub for pongs and test results, the notifier and its templates, the payloads of the browser
-- events and the snapshots that browsers ask for, the other HTTP handlers, imports and exports,
-- the agent client, the probes but for their search of keywords, sign-in, geography, the web
-- pages. Of these the scheduler sees only what `World` holds. JSON encoders are parameters.
pub mod Prelude
pub mod Alert
pub mod CheckConfig
pub mod Store
pub mod Scheduler
pub mod Hub
pub mod Site
pub mod Retention
pub mod Probe
pub mod WebHub
pub mod Examples
pub mod StatusSpec
