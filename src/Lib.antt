-- ===== src/Lib.antt =====
-- A model of the core of Jabr, an orchestrator for agents that speak A2A.
--
-- A request reaches the orchestrator through HTTP handlers that limit its rate and drop duplicates.
-- The orchestrator creates a task, routes its text to an agent, checks that the caller may use the
-- agent, charges the agent's budget, delegates, and follows the handovers in the answer with child
-- tasks. The task store keeps tasks, retries and dead letters. A token server gives callers access
-- tokens and exchanges refresh tokens. Plugins listen to the program's events on a bus.
--
-- Files, with the source that each models:
--   Base, Base/...: Boolean tests, lists, JavaScript's `Map` as an association list in order of
--     insertion, and texts. Lower case, trimming and splitting are those of ASCII.
--   RateLimit: src/adapters/rate-limit.ts. `check`, `get_snapshot` and `reset` are the methods. Clocks
--     are arguments in microseconds, so that `Math.ceil` to milliseconds is a rounding.
--   IdempotencyLock: src/adapters/idempotency-lock.ts. `acquire`, `is_locked`, `gc`, `get_snapshot` and
--     `reset` are the methods; clocks as above.
--   TokenStore: src/security/token-store.ts, a function for each method. Times are seconds.
--   TaskStore: the data of src/ports/task-store.ts, and `TaskStorePort`, the operations that the
--     orchestrator uses, none of which throws, with the laws that it relies on.
--   TaskMemory: src/adapters/task-memory.ts, a function for each method; TaskMemory/Port fills the port.
--   Agents: cards, configuration and callers of src/types/types.ts. Optional ports are flags.
--   World: what the orchestrator reads and writes: the task store, the memory log, delegations,
--     events, metrics. `Act` is a state monad with errors that keeps the state on a throw, as
--     JavaScript does. The answers of agents, budgets, consensus, knowledge and kanban,
--     whether the memory takes a line or throws, and clocks, ids and `JSON.parse`, are the
--     `Environment`, an argument of the model.
--   World/Keeps, World/Returns, World/Takes: rules for invariants of actions, for actions that never
--     throw, and for the number of delegations.
--   Handover: src/security/handover-chain.ts and the handover marker of src/types/types.ts.
--   ToolRouter: src/core/tool-router.ts: Routing (`routeTask`), Delegation (`delegateTask`,
--     `deductBudget`, `delegateToMultiple`), Consensus (`executeConsensus`), Verification
--     (`shouldVerifyTask`, `runVerification`), Events (the emissions and `syncToKanban`).
--   Jabir: src/core/jabir.ts. Job is the arguments of `executeWithDepth`, Execution its body, cut at
--     its comments: begin, attempt, conclude, hand_over, adopt, complete, recover.
--   Settlement: src/adapters/x402/settlement-ledger.ts, a function for each method; Token has the types,
--     Chain the check of a proof. The keyed hash, the printing of numbers, ids, times and the reply
--     of the chain RPC are arguments.
--   ApiKeys: src/security/api-key-registry.ts. AuthMiddleware: the table of scopes of
--     src/security/auth-middleware.ts.
--   Jwt: src/security/jwt.ts. `Crypto` holds the secret, the lifetimes and what the platform does:
--     SHA-256, HMAC, base64url and JSON. Jwt/Sample is a platform for the tests.
--   OAuth: the grants of src/security/oauth-server.ts over the token store, cut where the source returns
--     or throws; OAuth/Routes is `handleOAuthRoutes`.
--   Subscriptions: src/adapters/subscription-manager.ts, a function for each method.
--   EventBus: src/ports/plugin-event-bus.ts. `each` is the loop over a snapshot; what a handler does to
--     the bus is a list of calls. EventBus/Chains is what the middleware is to make of a payload.
--   PluginRegistry: src/core/plugin-registry.ts over the bus, with Metadata for its checks. A `Turn` is
--     what one turn of a loop leaves, and the hooks it called.
--   DynamicRegistry: src/adapters/dynamic-registry.ts. `attempts` counts the attempts of
--     `discoverWithRetry` that are left, from 30 down.
--   ContextCompressor: src/adapters/context-compressor.ts. `take_recent` is the loop from the end of the
--     entries, `trim_keep` the `while`.
--   Wire: the wire format of the A2A protocol, src/adapters/a2a/serialize.ts, with a child for each group of
--     types of src/types/a2a-v1.ts. Wire holds the JavaScript values and the readers of keys; a parser
--     returns what it throws. Wire/Roundtrip has the normal form of each type, as it is after one trip,
--     and Wire/Lenient the two spellings of keys.
--   PushConfigs: the push configurations of src/adapters/http/a2a-server.ts, a function for each method.
--     The requests are those of Wire. PushConfigs/Effects is what each call is to make of one configuration.
--   SendMessage: _v1RunSendMessage of src/adapters/http/a2a-server.ts. `Surroundings` are what it takes from
--     the agent and the platform; SendMessage/Due has the answers and the posts that are due.
--   Drain: `shutdown`, `stop` and the drain helpers of src/adapters/http/a2a-server.ts. A waiter is a pending
--     promise; an `Event` is what happens to the server.
--   Headroom: src/adapters/headroom/headroom.ts, a function for each method.
--
-- Bounds and fuel: `executeWithDepth` calls itself under a depth below MAX_HANDOVER_DEPTH = 3, so
-- the model's `run` has fuel, and `execute` starts it with 4, one more than the levels of handover.
-- Without fuel `run` would do nothing; the termination result below is that this is never reached.
--
-- Numbers: amounts, times and lengths are natural numbers, those of the wire format integers; scores and rates in [0, 1] are in
-- thousandths, and the tie-break of routing is exact where the code rounds floats.
--
-- Not modelled: HTTP, WebSocket and stdio transports, the SQLite stores, language models and the
-- prompts of agents, Gun.js, MCP, IPFS, configuration and process wiring. These are input and output,
-- third-party code, or tables. `Promise.all` is the schedule in which agents answer in order.
pub mod Agents
pub mod ApiKeys
pub mod AuthMiddleware
pub mod Base
pub mod ContextCompressor
pub mod Drain
pub mod DynamicRegistry
pub mod EventBus
pub mod Handover
pub mod Headroom
pub mod IdempotencyLock
pub mod Jabir
pub mod Jwt
pub mod OAuth
pub mod PluginRegistry
pub mod PushConfigs
pub mod RateLimit
pub mod SendMessage
pub mod Settlement
pub mod Subscriptions
pub mod TaskMemory
pub mod TaskStore
pub mod TokenStore
pub mod ToolRouter
pub mod Wire
pub mod World
