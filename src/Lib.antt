-- ===== src/Lib.antt =====
-- Verification library of simple-ai-agent.
--
-- The program is a terminal assistant that calls tools on the user's behalf, and a night shift
-- that runs whole jobs in isolated workers while the user is away. Seven of its parts are
-- modelled.
--
-- The agent (core/). A step takes the user's input, asks the model, runs the tools that it wants
-- and reports to it, until the model answers or a limit is met.
--   Core.Json      the values of `json.loads`
--   Core.Protocol  protocol.py: from a text to calls, an answer or an error; Values has what it
--                  returns, Textual the markup of textual calls; Shape, Bodies and Parsed have
--                  what the parser returns, RoundTrip reads back what is written
--   Core.Registry  tool_registry.py: `ToolRegistry`; Select has what a profile selects
--   Core.Agent     agent.py and the values of llm/base.py: Batch has `_execute_one_tool_call` and
--                  `_execute_tool_batch`, with Order and Ran for what they do; Reading has what
--                  a reply is read as; Loop has `Agent._step`, with Transcript, Change, Turn,
--                  Calls, Bounds and Answers for what it does; Gated has `Agent.step`, which is
--                  `_step` in a privileged turn
-- The state is the agent's fields and the counters of a step, with the requests sent, the tools
-- called and the audits completed. The functions of `str` and `json` that the parser uses
-- (Reader; `json.loads` returns a value, raises JSONDecodeError, or raises another exception,
-- which `parse` lets out), the tools and the audit store (Tools) and the model's client (Llm)
-- are parameters; each tool and each request may raise. The recursion over the turns counts what
-- `range` has left.
--
-- The night shift (night_shifts/). A client creates a job and queues it; a local run takes a
-- queued job, calls a worker backend and files its result; review, approval and publication are
-- further transitions of the job's status. Each change of a job appends one event.
--   NightShifts.Models        models.py: statuses, budgets and their validation, jobs, events
--   NightShifts.StateMachine  state_machine.py: `allowed_transitions`, `validate_transition`
--   NightShifts.Protocol      protocol.py: tasks and results of workers
--   NightShifts.Storage       storage/sqlite.py: `JobStore` and `EventStore`, tables with a
--                             primary key; Table and Invariant have what they keep
--   NightShifts.Service       service.py: `create`, `transition`, `request_cancellation`;
--                             Local has `run_local`, with the final transitions
--   NightShifts.Policy        execution_policy.py: `executor_limits` and `inference_limits`, with
--                             the limits of executor.py and inference.py; Limits has what they do
--   Service.Trace, Service.Refinement, Service.History: what each call does to a job and to its
--                             trail, then any sequence of calls and runs; Race has two calls
--                             interleaved, Unlogged a transition whose event is refused
-- The state of the service is the database, with the number of identifiers drawn and the number
-- of readings of the clock. Parameters are `uuid4`, `utc_now`, and whether an event can be
-- written as JSON and stored (World; where a call appends an event that cannot be, it raises,
-- and what it wrote to the job stays. The theorems ask that no identifier repeats and that every
-- event can be stored, where they need it), the texts of two exceptions (Texts), and the backend
-- of a run (Backend): an interaction that asks at any moment whether cancellation was requested,
-- lets other actors call the service in between, and returns a result or raises.
--
-- Models for workers (night_shifts/executor.py, night_shifts/inference.py). On the host, the
-- executor runs one conversation with a model and passes the calls of tools on to a sandbox; the
-- gateway stands between it and the model, with a session for each client.
--   NightShifts.Inference          contracts/inference.py, contracts/worker_tool.py,
--                                  worker_capabilities.py; Transcript has what accepted messages are
--   NightShifts.Inference.Checks   `_validate_request` and `_validate_response` of the gateway
--   NightShifts.Inference.Gateway  `TrustedInferenceGateway`; Steps, History, Quota and Life have
--                                  what each call changes, and any sequence of calls
--   NightShifts.Executor           executor.py: `MediatedModelExecutor.execute`, the loop in Loop;
--                                  Planned, Steps, Invariant, Run, Bounds and Outcome have what a
--                                  run does
--   NightShifts.JobExecution       job_execution.py: `HostJobExecution.run`, which authorises the client,
--                                  runs the executor and cleans up; Settled has what it does
-- The executor's state is its local variables, with the requests and the calls made; the answers
-- to the n-th request, call, event and poll are parameters, each of which may raise
-- (Surroundings). The gateway's state is its sessions and the requests that the model was given;
-- a call is one step, and the tokens, the clock, the model and the size of the schemas are
-- parameters (Host). Arguments of a call are known by whether they are an object and how large
-- they are as JSON. The recursion over the turns counts what `range` has left.
--
-- Editing (editing/). A tool proposes a change of a file, and the user approves or rejects it.
--   Editing.Text     store.py: `_apply_exact_edit` and the methods of `str` that it uses
--   Editing.Disk     `pathlib.Path` and `shutil` as store.py uses them, with `_is_relative_to`
--                    and `_remove_path`
--   Editing.Spans    store.py: `_changes_overlap` and the functions below it
--   Editing.Model    model.py: `PendingEdit`
--   Editing.Store    store.py: `EditStore`; Propose has the proposals, Approve has `approve`, by
--                    the kind of the edit; Contract, Decision, Lifecycle, Landing, Atomic and
--                    Ancestor have what they do
-- The state is the store and the disk. A text is its list of code points, a path the list of its
-- components, resolved. A file is text, as it reads in UTF-8 with its newlines translated, or it
-- cannot be read so. Parameters are `difflib.SequenceMatcher`, `str.splitlines`, and what a text
-- reads as once it is written, if it can be encoded (TextTools); the file is emptied before the
-- text is encoded.
--
-- Requests to OpenAI (llm/openai_flex.py). A request may ask for the cheaper Flex tier, which may
-- refuse it for want of capacity.
--   Llm.Flex          the decision after a refusal, `_capacity_retry_decision`
--   Llm.Flex.Request  the loop of `create_openai_request`; Budget and Answer have what it does
-- A run of the loop is the list of its calls, the list of its sleeps, and its end. Durations are
-- whole milliseconds. Parameters are the client's replies, the random factors, `str.lower`, and
-- what `float` and `parsedate_to_datetime` read in a header. The recursion counts the attempts
-- that `range` has left, and its last clause is the code's own AssertionError.
--
-- Privileged turns (runtime/privileged_turn.py). The user arms the next turn of the head agent;
-- in it, a tool claims an operation, submits a review, waits for the user's decision, and is
-- handed off once. The elevated helper checks more.
--   Runtime.PrivilegedTurn  `PrivilegedTurn`; Status has what it shows, History and Moves
--                           have sequences of calls and what each changes, Handoff, Revoked and
--                           Budget what holds in all of them
-- The state is the object's fields. The value of the context variable, the readings of the clocks
-- and the dumped review are arguments of the calls, `uuid4` and `sha256` parameters. `wait` is
-- modelled by one look of its loop.
--
-- Tool profiles (runtime/tool_profiles.py). Each kind of agent has a list of the tools that it
-- may have.
--   Runtime.ToolProfiles  the lists, and `build_profile_registry`; Allowed has what an agent with such
--                         a registry calls
--
-- A call that may raise returns a result and the state, so that what it wrote before it raised
-- stays written (Common.Effects). Numbers of the source that may be negative are integers
-- (Common.Int). No definition needs fuel: each other recursion is on
-- a list, a text or an interaction.
--
-- Not modelled: the text encoding of database rows, where the texts of a job are taken to be
-- encodable, and of protocol lines; previews, diffs and messages; a model whose factory or
-- `cancel` raises, and the token counts of a usage; symbolic links, permissions and failing
-- disks; of the agent (core/) the callbacks, the texts of prompts and reports, the configuration
-- of clients and the schemas of tools; the other files of llm/, the tools (tools/), the rest of
-- the runtime, the terminal interface, and of the night shift the tool session, the backends,
-- snapshots, review bundles, and the preparation of images.
pub mod Common
pub mod Llm
pub mod NightShifts
pub mod Editing
pub mod Runtime
pub mod Core
