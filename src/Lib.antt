-- ===== src/Lib.antt =====
-- The workflow execution platform, modelled module by module.
--
-- A workflow spec (src/workflow-spec/) is a list of nodes. The engine (src/engine/) turns a spec of
-- plain steps into a run with one execution per step, kept in the database of src/core/; workers
-- claim executions, have an agent run them and complete them (src/apps/worker/), and a completion
-- promotes the steps whose dependencies are now completed. The session log (src/session/) keeps the
-- inputs of a session with a pointer that rewinds and appends move. The compiler (src/dsl-compiler/)
-- checks a spec against itself and against the registry (src/registry/) of images and functions,
-- and the scheduler (src/scheduler/) decides where data is placed.
--
-- Files and sources:
--   Prelude: lists, tests and tables that all parts share. Json: values of JSON columns.
--   Shared: src/shared/errors.ts and src/shared/database/transactions.ts. Code that runs on an open
--     transaction is a function from the database to an outcome: a result with the new database,
--     an error of the platform, or an aborted transaction. `with_transaction` commits or rolls back.
--   WorkflowSpec: the types of src/workflow-spec/domain/ and binding-refs.ts.
--   Core: src/core/. `Db` has the tables as lists of rows, in the order of their insertion, and
--     the serial ids that come next. Each repository (src/core/repositories/) is a module with its
--     SQL statements (src/core/repositories/queries/, src/core/database/schema.sql).
--   Session: src/session/session-log.ts. Session.Rows and Session.Steps have the invariant of the
--     two tables, Session.Refinement and Session.Rewind the operations against a history, and
--     Session.Machine any sequence of operations.
--   Engine: src/engine/, one file per source file. Engine.Claim, Plain, Promote, Complete, Scheduling, Submit and
--     Completion have the proofs.
--   DslCompiler: src/dsl-compiler/, and src/workflow-spec/validate.ts in DslCompiler.Compile.
--     DslCompiler.Document says what a document defines and references by its shape; Walk,
--     References, Plain, Registered, Profile and Acceptance have the proofs. The error messages are left out.
--   Registry: src/registry/. Domain has the data, GetEntry the reads, Unknown, Descriptor, Capability
--     and Validate the validation of validate.ts, and Admin the writes of admin.ts, conformance.ts
--     and repositories/. WellFormed and ReadCapability say what a value that is valid stands for;
--     EntryChecks, DescriptorLaws, ReuseLaws, CapabilityLaws, Tables, Registration, RegisterLaws, TrustTiers
--     and Soundness have the proofs.
--   Worker: src/apps/worker/. ArgText, Bindings and Dispatch are dispatch.ts, AgentClient is agent-client.ts
--     and Loop is worker-loop.ts. Failing, Attempt and Outcomes have the proofs on
--     one turn of the loop, and Advancing, Completing, Closing, OpenCount and Progress those on many turns.
--     Safety, Sorting, Requests, Given, Contents, Passing, Buildable and Registered have the proofs
--     on requests.
--   Scheduler: src/scheduler/. Scheduler.Placement has the operations, and Evict, Capacity, Access
--     Promotes and Decide the proofs.
--   Samples and the modules named Tests: runs at concrete inputs.
--
-- What stands for what:
--   A step of a transaction sees the database as its own statements left it. The rows of executions
--   that other transactions have locked are in `Db.locked`, which the claim's SKIP LOCKED reads;
--   a lock that only makes others wait changes no state here. A serial id that a rollback skips is
--   given again here. An optional map or list that is absent is the empty one, as all readers take
--   it. A property is one that an object has itself, and a lookup finds nothing on an object's
--   prototype, except where a request for an agent is built: there the read of a heavy parameter also
--   finds what every object inherits from `Object.prototype`, by the names that ECMAScript lists. The
--   bindings' own reads do not, since what they would find is no value of JSON text; nor does
--   an assignment to the key `__proto__` set a prototype. Times are whole milliseconds, sizes of
--   placements are not negative, and the doubles that hold costs are exact fractions. A JSON value
--   that is stored comes back as it was. Rows without an ORDER BY
--   come in the order of their insertion. `print` is JavaScript's String(n), and `size` a string's
--   length in UTF-16 units: both are arguments, and so is `ordered`, the database's order of names.
--   The network with the agent behind it is the argument `fetch`, JavaScript's printing of numbers and
--   of JSON the argument `printing`, and the yaml library, the JSON Schema and the cast of a document
--   that it accepts are fields of the compiler's `Deps`. Validation errors are data by what they
--   complain about. The keys of an object are distinct: where a proof needs it, it is a hypothesis.
--   Loops recurse on the lists that they run over, so none needs fuel.
--
-- Not modelled: the yaml and JSON Schema libraries, the wake listener, configuration (with
-- src/apps/worker/config.ts and main.ts), logging and connection pools (input and output), archive/
-- (older prototypes), and agent/, another program.
pub mod Prelude
pub mod Json
pub mod Shared
pub mod WorkflowSpec
pub mod Core
mod Samples
pub mod Session
pub mod Engine
pub mod Registry
pub mod DslCompiler
pub mod Scheduler
pub mod Worker
