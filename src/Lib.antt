-- ===== src/Lib.antt =====
-- The core of an automation builder for vaults. A user draws a graph of conditions and actions in
-- the editor (packages/frontend); the backend (packages/backend) turns it into the calldata of the
-- vault contract and follows the chain with an indexer; an assistant's server (packages/mcp) proposes
-- and signs such automations, and deposits and withdrawals, in the owner's name, behind a gate that
-- asks the owner; packages/shared holds what these three agree on.
--
-- Prelude: lists, results, and methods that act on a state and may throw.
--   `Exec` is a method: what it did before a throw stays done.
-- Shared: packages/shared/src. Strings that the code takes apart are lists of code units (Shared/Text).
--   Shared/Amount is amount.ts: `toBaseUnits` is `to_base_units`, `fromBaseUnits` is `from_base_units`;
--   Shared/Roles is `resolveFieldRole` of step-roles.ts; Shared/Schema has the schemas and values of
--   validation.ts, whose validators are not modelled.
-- Graph: packages/frontend/src/features/automation-editor/lib. Graph.antt has the types of types.ts;
--   Graph/Bfs, Graph/Wiring and Graph/Steps are graph-to-steps.ts (the breadth-first numbering, the
--   two next indices of a node, the list of steps); Graph/Connect is is-valid-connection.ts;
--   Graph/Incoming is the count of incoming edges, which three files repeat; Graph/Validate is
--   validate-graph.ts, with `hasCycle` in Graph/Validate/Cycle.
-- Store: packages/frontend/src/features/automation-editor/store/editor-store.ts. Store.antt has its state,
--   Store/Defaults the parameters of a new node, Store/History undo and redo, Store/Edits the edits of the
--   graph, Store/Validation `runValidation`, Store/Variables the context variables, Store/Steps the other
--   actions, Store/Actions all of them as one type and the states they lead to. React Flow, the layout,
--   `validateParams` and the clock are arguments; the timer of a validation is a flag.
-- Indexer: packages/backend/src/indexer. Indexer/Planner is range-planner.ts, Indexer/Fetch is
--   `fetchLogs` of indexer.service.ts over a node that acts on a state of its own. Indexer/Rows is
--   event-mapper.ts, Indexer/Persist is `persist` of indexer.service.ts, Indexer/Events is its
--   `persistVaultEvents`, Indexer/Failures is failure-ingest.service.ts, all over the interfaces of
--   Indexer/Tables: tables of the database with what Prisma documents of its calls. Indexer/Tick is `tick`,
--   which puts these together, with the cursor of indexer-cursor.store.ts.
-- Context: packages/backend/src/automation/context.service.ts. Context/Slots is `allocateSlots`,
--   Context/Expand is `buildExpandedContext`. Both use plain objects, whose inherited members the model has.
-- Encoding: `inferOwnerOnly` and `bfs` of packages/backend/src/automation/encoding.service.ts, which
--   number the steps as the editor does.
-- Mcp: packages/mcp/src. Mcp/Gate is policy-gate.ts, Mcp/Confirmation is confirmation.ts, Mcp/Drafts
--   is draft-store.ts, Mcp/Tokens is token-utils.ts and vault-guard.ts, Mcp/Limits and Mcp/Money are
--   tools/money-movement.ts, Mcp/Inspect and Mcp/Deploy are tools/deploy-automation.ts,
--   Mcp/Intent is intent-check.ts. A tool runs its checks and hands the signing to `guard`, which asks a
--   confirmation provider; index.ts puts that together from elicitation and the page of confirmation.ts
--   (Mcp/Confirmation/Server).
--
-- The world. The audit log, the user, the backend, the node and the chain are parameters: methods on a
-- state of any type, which may throw. Nothing is assumed of them but what a theorem names. Clocks and
-- random tokens are arguments. A call of the database that fails is not modelled.
--
-- Loops. `windows` takes one unit of fuel for each block that is left, `fetch_logs` one for each block of
-- its window, since halves are shorter; `bfs_order` one for each edge and two more, since all names but
-- the first are targets of edges and none is queued twice; `search_from` likewise, since each round takes
-- an entry off the stack and each edge puts one on it at most once; `dfs` of hasCycle takes one unit for each
-- node, since each visit takes a white one. The theorems about these functions
-- hold of the functions with that fuel, so it is enough.
--
-- Numbers. Block numbers, decimals and basis points are natural numbers; `done` is 2 ^ 32 - 1.
--
-- Not modelled: the user interface, the wallet, the HTTP layer, the database itself and the ABI encoder; of the
-- backend also the protocol flows of the indexer, the encoding of parameters, the price services, the
-- portfolio and the cockpit; the contracts, which are not TypeScript, and their generated types.
pub mod Prelude
pub mod Indexer
pub mod Graph
pub mod Context
pub mod Encoding
pub mod Shared
pub mod Mcp
pub mod Store
