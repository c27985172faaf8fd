-- ===== src/Lib.antt =====
-- agents-system: a platform that runs LLM agents for many end users (Python, src/agents_system).
--
-- The parts that are modelled, and how they meet. An agent's tool call goes through one gate,
-- the interceptor, which asks the permission registry what the caller may do within the deployment's
-- ceiling, the memory policy what the role may keep, and the per-user store for the handle of the
-- turn's own subject. Turns are counted in the usage ledger, which is a table of the per-user store,
-- and are refused when a budget cap is reached. A user's recurring requests are rows of the same store,
-- which a scheduler claims one at a time. A message to a user that no user asked for goes through the
-- proactive queue, whose dispatcher asks the permission registry again before each send. A message
-- from a channel is a row of the outbox, which a worker claims under a lease, answers with one turn and
-- settles. The facts that a user asks to be remembered are rows of the per-user store too, and every
-- store of a user's data is registered, so that it can be exported and deleted. A query that a model
-- writes is scanned before it is parsed.
--
-- Prelude      names of the libraries, lists and tests over the native numbers, results of code that
--              may raise.
-- Dict         Python's dict as an association list in insertion order, with its laws.
-- Permissions  src/agents_system/permissions. Base: base.py, the tiers and the permission classes,
--              with `covers` of permission_registry.py. Registry: PermissionRegistry, its two dicts as
--              a record, each method from the registry to a result. ToolRules: evaluate_tool_spec.
--              Builtins: builtins.py. A class object is a value with an identity: its ancestors and
--              their tiers are in it, so `issubclass` is a walk up.
-- MemoryPolicy src/agents_system/memory_policy.py. A declared policy is what the role's mapping holds
--              under each key: absent, of the right type, or not.
-- Harness      src/agents_system/harness. Tools: ToolSpec and ToolRegistry of registry.py. Interceptor:
--              intercept of interceptor.py, every check in its order; its result is
--              the tool's or the failure, with the audit events that were emitted. The connector is a
--              parameter: a function of the tool, the input and the handle, with or without an
--              answer.
-- Proactive    src/agents_system/proactive.py. Quiet: ProactivePolicy.quiet_until. Queue:
--              InMemoryProactiveQueue, its list of messages and its claim times as a record. Dispatch:
--              submit, and what ProactiveDispatcher does with a claimed message; Room: its rate limits,
--              read off the queue's messages. Delivery: any
--              number of workers over one queue as a step relation, in which a worker may die between
--              its steps and a lease may run out under it.
-- Scope        src/agents_system/scope.py: InMemoryScope and InMemoryScopeProvider.
-- Usage        src/agents_system/usage.py: the ledger over Scope, and reached_cap.
-- Schedules    src/agents_system/schedules.py. Recurrence: when a schedule fires. Store:
--              InMemoryScheduleBackend and InMemoryScheduleStore over Scope. Runner:
--              ScheduledTurnRunner with the sender of Proactive; what the directory, the turn and the
--              sender's directory answer is an argument.
-- ExecutionLimits
--              src/agents_system/execution_limits.py: the limits that a deployment sets, against the
--              outbox lease.
-- Admission    src/agents_system/services/admission.py: TurnAdmissionLimiter as a record, and the turns
--              that wait for its slots and hold them as a step relation.
-- RetryPolicy  src/agents_system/services/retry_policy.py: is_transient_failure, over a heap of
--              exceptions in which a cause chain may be a cycle.
-- Outbox       src/agents_system/services/outbox.py and models/outbox.py: the tables as a record, each
--              transaction from the tables to a result, with the instants that the database's clock
--              gave. Claim: the loop of a claim, and the unique index over live leases that its
--              commit may break. Settle: what a worker reports. Steps: any order of
--              transactions as a step relation; a message may arrive with an instant before those of
--              others already there. Its other modules take the rows apart: what a
--              transaction changes (Changes, Effects, Fates), the order of a conversation (Keyed,
--              Siblings, InOrder, Order), the lease (Granted, Fenced, Fencing), crashes (Left,
--              Draining, Crashes), how a row ends (Ended, Backoff), the life of a row (Lifecycle,
--              Replies).
-- Worker       src/agents_system/services/webhook_worker.py: DeferredWebhookWorker. Process: the stages of
--              process_claimed_work, each returning what it did outside and the tables after it.
--              Failures: how a row ends. Poll: process_available over Admission and Outbox. Setup: the
--              constructor. What an adapter, a runtime, a directory, a retry classifier and JSON answer
--              are functions in the worker's record, and the database's answers a record of instants
--              and exceptions. Courses: the ways the processing may go; Acts, Turns, Transactions,
--              Commits, Fallbacks and Committed follow them.
-- SubjectData  src/agents_system/subject_data.py: SubjectDataRegistry, export_subject, delete_subject and
--              SubjectDataPurger.run_once. A store is the record of what it answers.
-- UserMemory   src/agents_system/user_memory.py: UserMemoryLimits, InMemoryFactBackend and UserFacts over
--              Scope. FactStore: InMemoryUserFactStore. Injection: injection_block. Views, Chosen and
--              Cap: what its steps leave to read. Splitting a text and hashing it are functions in a
--              record.
-- SqlGuard     src/agents_system/services/sql_guard.py: _check_tokens, the loop's variables as a record.
--              Nesting: what one token does to them. Levels: a query's open brackets, read off its tokens
--              alone. Accepted: a whole query.
-- Tests        runs on concrete inputs, and the theorems applied to them.
--
-- Conventions. A method that changes an object takes its state and returns it. A raise is the `err`
-- of a result, with the case that the message tells apart. Instants are microseconds since the
-- epoch, and a time zone is a fixed offset east of UTC; amounts of money are billionths of a dollar and
-- other floats millionths, exact where the program's sums round. Loops recurse on the list they run
-- over; the nine days of Recurrence.next_after and the eight rounds of is_transient_failure recurse on
-- the rounds that are left. Nine days are enough because every weekday recurs within them; the
-- eight rounds are the program's own bound.
--
-- Not modelled: the agent graph and the model providers, the loading of agent definitions, the SQL
-- guard's passes over the syntax tree, the PostgreSQL backends, the HTTP endpoints and the channels,
-- the audit store, the user-memory tools, configuration and logging. Those are either calls of third-party code or left for
-- an extension of this library. Zones with daylight saving, the texts of messages and the
-- locks around code that does not await are left out of the parts that are modelled.
pub mod Prelude
pub mod Dict
pub mod Permissions
pub mod MemoryPolicy
pub mod Harness
pub mod Proactive
pub mod Scope
pub mod Usage
pub mod Schedules
pub mod ExecutionLimits
pub mod Admission
pub mod RetryPolicy
pub mod Outbox
pub mod Worker
pub mod SubjectData
pub mod UserMemory
pub mod SqlGuard
pub mod Tests
