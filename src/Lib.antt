-- ===== src/Lib.antt =====
-- FairyClaw: a server that runs language-model agents in sessions. This library models the part of it
-- that decides when an agent runs and what it is told about the tasks that it delegated.
--
-- How the parts interact. Whatever happens to a session is an event that is published on the session
-- event bus (fairyclaw/core/events/bus.py). The bus keeps a queue for each session and a list of the
-- sessions that are ready; its workers take a session, dispatch one event of it and put it back if
-- it has more. The scheduler (fairyclaw/core/events/session_scheduler.py) handles the events: it puts
-- them into the mailbox of their session, waits a moment for more user messages, and asks for a
-- wakeup, again an event on the bus, on which it starts a turn of the planner. A session may
-- delegate tasks to sub-sessions; the registry of them (fairyclaw/core/agent/session/global_state.py)
-- groups them into batches, and the coordinator (fairyclaw/core/agent/planning/subtask_coordinator.py)
-- reports a batch to the main session when its last task ends. Timer jobs
-- (fairyclaw/core/runtime/) wake a session at an interval or by a cron expression. For a turn the history
-- of the session is compressed to a token budget (fairyclaw/capabilities/compression_hooks/) and
-- assembled into messages for the model (fairyclaw/core/agent/context/). Users talk to a session over a
-- gateway, whose bridge (fairyclaw/bridge/user_gateway.py) takes their messages and files in and pushes
-- the answers out, along the routes that sessions have or inherit.
--
-- Files.
--   Base, with its children: shared names, lists, texts, dictionaries and sets.
--   Json: the values that payloads carry.
--   Event: `RuntimeEvent`, `RuntimeEventEnvelope` and `SessionRuntimeState` of core/events/bus.py, one
--     function per method with the method's name.
--   Payload: core/events/payloads.py, and `resolve_runtime_preferences` of the scheduler.
--   Bus: `SessionEventBus`. `publish`, `pop_next_event` and `reschedule_session` are the methods that
--     hold the lock; `Step` is what a worker of `_worker_loop` does between two awaits.
--   Scheduler: `RuntimeSessionScheduler`. `begin_session` and `finish_session` are the parts of
--     `run_session` before and after the turn; the other functions have the methods' names. What a method does
--     under the lock is one function, and a wakeup that it publishes after is `pending` until
--     `publish_pending` puts it on the bus.
--   Subtask: `SessionSubTaskState` of core/agent/session/global_state.py, a function per method;
--     Subtask/Runs has the calls of it that delegate_task.py and message_subtask.py of
--     capabilities/agent_tools/scripts make.
--   Coordinator: `SubtaskCoordinator`. `begin_barrier` and `finish_barrier` are the two halves of
--     `publish_subtask_barrier_if_ready`, before and after its first await.
--   Cron: the cron functions of core/runtime/timer_models.py; Cron/Meaning says, apart from them, which
--     times an expression stands for.
--   Timer: `TimerJobRepository` of infrastructure/database/repository.py and `TimerRuntimeStore` of
--     core/runtime/timer_runtime_store.py; `create_job` of the latter is in Timer/Create.
--   History: the messages, content segments and tool rounds of core/agent/context/history_ir.py and
--     core/domain.py. Assembler: core/agent/context/llm_message_assembler.py; `assemble_from` is the loop of
--     `assemble`, `collect` that of `_collect_consecutive_tool_rounds`.
--   Compression: capabilities/compression_hooks/scripts/context_compression.py, a function for each of the
--     script's; Hook has `execute_hook`, whose two `while` loops are `unload_loop` and `drop_loop`.
--   Bridge: `UserGateway` of bridge/user_gateway.py. Bridge/Gateway has its state and, as `handle_...`, the
--     branches of `_handle_frame`; Bridge/Recent is `_RecentFrameSet`; Bridge/Messages and Bridge/Ingress
--     are models.py and ingress.py of core/gateway_protocol.
--   Patch: capabilities/code_repair_ops/scripts/repair_apply_unified_patch.py, `_apply_patch` and what it
--     calls, on the lines that `splitlines` gives.
--   Routes: `GatewaySessionRouteRepository` of infrastructure/database/repository.py, and
--     `_enrich_outbound_with_route` of the bridge.
--   Files: `GatewayFileService` of core/gateway_protocol/files.py, which takes and gives files in chunks,
--     and `get_for_session` of infrastructure/database/repository.py.
-- A component's proofs are in the files below it, and its examples in its Tests.
--
-- Bounds. All recursion is on lists, texts and numbers that the source loops over. The search of
-- `next_fire_at_for_cron` counts down its own `max_minutes_scan`. The loop of `get_chunks` runs on the
-- length of the content as fuel, and each turn takes at least one byte. The loops of the assembler and of the
-- compression run on the length of the history: a turn of the former reads an entry, and of the latter drops
-- one or unloads its images. The loop of `resolve` runs on one more than the number of rows, each of which
-- it visits once.
-- Numbers are natural: timestamps, counts and sizes; the `int` arguments of `create_job` are integers.
-- A method's update of a shared object is the new object; where a method awaits, the model either
-- makes the parts before and after it two functions, or takes the outcome of the awaited call as an
-- argument.
--
-- Not modelled: the turn of the planner itself, the handlers' registration, the stopping of the bus,
-- the dictionary forms of events, the database beyond the tables of timer jobs and routes, the gateway side of
-- the bridge and its adapters, telemetry and the task rows that the bridge sends, the tools and hooks, the model providers and the web front end. In the runs of the
-- scheduler no task is cancelled and no publication of a wakeup fails. The commit of an upload is one
-- step: its calls that store the file and publish the event succeed, and nothing runs in between.
-- `lower` knows the ASCII letters, and `isdigit` the ASCII digits.
pub mod Base
pub mod Cron
pub mod Timer
pub mod Files
pub mod Subtask
pub mod Coordinator
pub mod Json
pub mod Event
pub mod Payload
pub mod History
pub mod Assembler
pub mod Bridge
pub mod Routes
pub mod Patch
pub mod Compression
pub mod Bus
pub mod Scheduler
