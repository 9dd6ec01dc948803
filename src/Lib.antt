-- ===== src/Lib.antt =====
-- AI Knowledge System: the server's workflow kernel and its durable history, its provenance contract,
-- its next actions, and its capability runtime.
--
-- The program is a governed knowledge workbench. Its core is the workflow execution kernel, a class
-- that keeps, for each execution, the execution's record, a numbered log of events and the
-- provenance envelopes of the evidence it used. Workflow handlers do the work: the kernel calls a
-- handler's `start` and `advance`, applies the result, and checks each piece of provenance with the
-- provenance service. When an execution completes, the kernel asks a catalogue of policies which
-- actions may follow; a client selects one, approves it where approval is needed, and the kernel
-- spawns a child execution from it. The durable runtime puts a store behind the kernel: it runs an
-- operation in the kernel, writes the result to the store as a bundle, and takes the operation back
-- if the store refuses; a restarted kernel is filled from the store. The capability runtime keeps
-- discoveries: which capabilities fit a request, which one was selected and approved, and the schema
-- that was released for it. Beside these stand guards, pure functions that decide whether an
-- instruction, a publication or a tool call is admitted, and the validator of influence receipts,
-- which reads the kernel's provenance.
--
-- Parts and files:
--   Common (and Common/*): text, numbers, lists and maps as JavaScript has them. `trim` is on code
--     points; a `Map` is an association list in insertion order; a number is one of the few kinds
--     that the code tells apart.
--   Provenance/Types, Provenance/Service: server/provenance/types.ts and server/provenance/service.ts,
--     `ContextProvenanceService`. The issues that a method pushes are a concatenation of lists.
--     Provenance/Validity and Provenance/Emission hold the theorems.
--   NextActions/Types, NextActions/Policies, NextActions/Resolve: shared/next-actions.ts, the
--     catalogue, `getDefaultResultClass` and `resolveNextActionEnvelope`. NextActions/Partition and
--     NextActions/Catalogue hold the theorems.
--   Workflows/Types, Workflows/Json: server/workflows/types.ts, and values of type `unknown`.
--   Workflows/Kernel/*: server/workflows/kernel.ts, `WorkflowExecutionKernel`. State has the fields
--     and the private helpers, Log has `emit`, `transitionToFailure` and the recording of provenance,
--     Create has the constructor, `createExecution` and `discardExecution`, Control has `pause`,
--     `resume`, `cancel`, `fail`, `complete` and `generateNextActions`, Handling has `context`,
--     `invoke` and `applyHandlerResult`, Start has `start`, `advance` and `runToCompletion`, NextSteps
--     has the selection, its decision and the spawning, and Restore has `restoreExecution` and
--     `getProvenanceEnvelope`.
--   Workflows/Calls: every call of a kernel as a value, and the state that it leaves. `start` and
--     `advance` wait for a handler, and other calls may come in between; so the parts before and
--     after the `await`, and each call of the handler's context, are calls of their own.
--   Workflows/Ensures, Workflows/Wellformed, Workflows/Invariant, Workflows/Reach,
--     Workflows/History: what every call keeps. Wellformed says what holds of the maps between two
--     calls; Invariant proves once that a predicate is kept by every call if the few changes that the
--     methods are made of keep it; Reach and History use it twice.
--   Workflows/Transitions/*: what single methods do, on every branch.
--   Governance/Guards: server/governance/research-delta-guards.ts, the guards on instruction sources,
--     publications and tools; the one that parses dates is left out. Governance/Instructions,
--     Governance/Publication and Governance/Authority hold the theorems.
--   Durable/Types, Durable/Names, Durable/Checks, Durable/Contract: shared/execution-history.ts, the
--     records of a durable history, the names of its enumerations, and its assertions. An assertion
--     gives the error that it throws, or `none`. Durable/Valid/* and Durable/Identity hold the
--     theorems.
--   Durable/Store: server/workflows/execution-history-store.ts, the store's interface as a record of
--     functions on the store's state, the helpers that check what goes in and out, and the
--     unavailable store. Durable/Queries holds the theorem on list queries.
--   Durable/Snapshots: server/workflows/durable-runtime.ts, `snapshotToDurableHistory` and
--     `durableHistoryToSnapshot`, with Durable/RoundTrip.
--   Durable/Runtime, Durable/Runtime/Calls: durable-runtime.ts, `DurableWorkflowRuntime`, whose state
--     is the kernel's and the store's. The other modules under Durable/Runtime hold the theorems:
--     Unbound without a store, Persisted on what the store is asked for, Atomic and Mutation on
--     `mutate`, Restart, with Durable/Reordered, on a store that gives back what it has accepted, the
--     links in any order, Creation on `createExecution`.
--   Influence/Receipt: server/influence-receipt/reference-validator.ts, with Influence/References.
--   Capabilities/Types, Capabilities/Service: server/capabilities/types.ts, of service.ts the guards
--     of `discover` and `materialize`, and of policy.ts `evaluateCapabilityHealth`, with
--     Capabilities/Release.
--   Capabilities/Runtime, Capabilities/Payloads: server/capabilities/runtime.ts,
--     `CapabilityDiscoveryRuntime`, and what its events say.
--     Capabilities/Governed says what holds of a stored discovery; Capabilities/Turns,
--     Capabilities/Select and Capabilities/Calls show that the calls keep it, and Capabilities/Reach
--     has the states that calls lead to, those of `materialize` in two parts around its `await`.
--   Tests/*: the theorems at concrete inputs.
--
-- State and errors. A method is a function of the kernel's state. One that throws returns the state
-- as it then is, so that what an exception leaves behind can be spoken of. The clock and the random
-- UUIDs are a `World`, two sequences of strings, and the state counts the readings of each; where a
-- theorem needs that two UUIDs differ, it says so. A change of an execution object that the map holds
-- is a write to the map under its id. `structuredClone` makes what is returned independent of the
-- state, which values are anyway.
--
-- Parameters. What the code takes from elsewhere is an argument: the store behind its interface, the
-- SHA-256 fingerprints, `JSON.stringify`, `Date.parse`, and the survey of the capabilities' policies.
-- A theorem that needs something of one says so; the tests fill each with a concrete function. The
-- methods of the durable runtime run without another call in between.
--
-- Handlers. A handler's run is a tree: it ends in a result or an exception, and asks in between for
-- the time, for the provenance so far, for the recording of an envelope or for the validation of a
-- write. Which handlers are registered is an argument of the constructor.
--
-- Loops. The loops over lists are structural. `runToCompletion` is on fuel, since a handler may ask
-- to be advanced for ever; out of fuel it answers nothing. Where the handler makes progress in some
-- measure, fuel above the measure is enough. `runToCompletion` of the durable runtime is on fuel too.
--
-- Not modelled: the D1 store's SQL, the evaluation of the capabilities' policies and the resolution
-- of overlaps, canonical state, failure learning, the coding harness, the HTTP routes, the user
-- interface and the scripts. In records, fields of one possible value (schema names and versions) are
-- left out, and so are keys that a JavaScript object inherits.

pub mod Common
pub mod Provenance
pub mod NextActions
pub mod Workflows
pub mod Governance
pub mod Capabilities
pub mod Durable
pub mod Influence
pub mod Tests
