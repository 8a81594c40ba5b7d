-- ===== src/Lib.antt =====
-- Verification of LiquidBot, a bot that watches Aave V3 positions on Base and liquidates those that
-- fall below a health factor of 1. The repository has two implementations: backend, and its
-- rewrite backend-v2, whose planner, risk set and indexes come first here.
--
-- `Prelude` holds what the modules share: Boolean tests, lists, the stable sort of
-- `Array.prototype.sort`, strings as lists of UTF-16 units, and integers for a `bigint` that may be
-- negative. `JsMap` is the built-in `Map` and `Set`, in insertion order, with its laws; `Bounded`
-- is the pattern of a map that evicts its extreme entry when it is full, which the hot and warm
-- sets and both priority queues use.
--
-- * `Planner` (backend-v2/src/execution/liquidationPlanner.ts): `Types` the data, `Amounts` the
--   1e18 arithmetic, `Fetch` the prefetch of prices, decimals and configurations with both caches,
--   `Score` the scoring of pairs, `Select` the choice, `Plans` the two builders. Prices, decimals
--   and configurations come from parameters.
-- * `ActiveRiskSet` (backend-v2/src/risk/ActiveRiskSet.ts): the users at risk; its methods under
--   their names. An update of the user index that a method starts is a part of the method's result.
-- * `TokenExtractor` (backend-v2/src/predictive/tokenExtractor.ts) and `UserIndex`
--   (backend-v2/src/predictive/UserIndex.ts): the tokens of a user's reserves, and the index from
--   tokens to users that the risk set keeps up to date with them.
-- * `DirtyQueue` (backend-v2/src/realtime/dirtyQueue.ts), `AttemptHistory`
--   (backend-v2/src/execution/attemptHistory.ts) and `PlanCache`
--   (backend-v2/src/execution/PlanCache.ts): what waits, what was tried, and what is ready.
-- * `ChainlinkListener` (backend-v2/src/prices/ChainlinkListener.ts) and `PriceMath`
--   (backend-v2/src/prices/priceMath.ts): the prices. `Fetch` and `Addressed` have the layers of
--   caches and feeds, `Refines` and `Layers` compare them with the order of the sources, `Feeds` is
--   about the configured feeds. A call that may throw is an action on the state.
-- * `HealthFactorChecker` (backend-v2/src/risk/HealthFactorChecker.ts) and `VerifierLoop`
--   (backend-v2/src/risk/verifierLoop.ts): the batches of the dirty queue are checked, the risk set
--   follows, and the users to liquidate are handed on. The multicall is a parameter.
-- * `Safety`, `TxBroadcaster` and `ExecutorClient` (backend-v2/src/execution/safety.ts,
--   txBroadcaster.ts and executorClient.ts): the checks before a liquidation is sent, and the
--   replacement of transactions until one is mined. The wallet and the network are parameters.
-- * `PredictiveLoop` (backend-v2/src/predictive/PredictiveLoop.ts): a price that moves has the users
--   of its token checked, and plans prepared; it composes the index, the checker, the risk set, the
--   planner and the plan cache. `Turns` has the turns of calls that overlap.
-- * `PriorityQueues` (backend/src/execution/PriorityQueues.ts): the hot and the warm queue.
-- * `HotSetTracker` (backend/src/services/HotSetTracker.ts) with `Addresses`
--   (backend/src/utils/Address.ts): the users near liquidation.
-- * `GlobalRpcRateLimiter` (backend/src/services/GlobalRpcRateLimiter.ts): the token bucket; a call
--   that waits is a value, so that calls, ends of sleeps and refills come in any order.
-- * `MicroVerifyCache` (backend/src/services/microVerify/MicroVerifyCache.ts): recent reads of
--   health factors and the reads in flight; a promise is a number, and its callbacks are a call.
-- * `PredictiveDedupCache` (backend/src/predictive/PredictiveDedupCache.ts): the candidates that were
--   evaluated lately, in a cache that evicts the least recently used one.
-- * `PredictiveBudgetTracker` (backend/src/predictive/PredictiveBudgetTracker.ts): the budgets of
--   predictive evaluation; `Overlap` has the calls of the orchestrator on signals that overlap
--   (backend/src/risk/PredictiveOrchestrator.ts).
-- * `NearBandFilter` (backend/src/predictive/NearBandFilter.ts): the users near liquidation.
-- * `FallbackOrchestrator` (backend/src/predictive/FallbackOrchestrator.ts): which users are evaluated
--   when the provider is unhealthy or a price drops, with the near band.
-- * `ReserveEventCoalescer` (backend/src/services/ReserveEventCoalescer.ts): the batches of reserve
--   events; timers are calls that come in any order with the others.
-- * `GasBurstManager` (backend/src/exec/fastpath/GasBurstManager.ts): the timed replacement of
--   transactions. Two checks of a transaction may overlap: `Counts` has the moves as a relation.
-- * `ScanRegistry` (backend/src/services/ScanRegistry.ts): one scan at a time for a key.
--
-- Every model is a function on an explicit state. Time is an argument of the calls that read it.
-- Health factors and dollars are whole numbers of units of 1e-18, and tokens of the rate limiter
-- whole thousandths, where the source has floating-point numbers and rounds. Prices are naturals in
-- the planner, where the source would let a negative one through. Log lines, metrics and reports are
-- left out. Loops run over lists and end with them, but for two that take fuel: the rounds of a
-- wait of the broadcaster, for which the delay divided by half a second and two more are enough, and
-- the batches of the checker, for which the number of users is enough if the batch size is not 0.
--
-- Not modelled: the larger services of backend, the audit and the swap quotes, the HTTP and
-- websocket interfaces, the configuration, the scripts and the contracts.
pub mod Prelude
pub mod JsMap
pub mod Addresses
pub mod Planner
pub mod PriorityQueues
pub mod HotSetTracker
pub mod UserIndex
pub mod DirtyQueue
pub mod AttemptHistory
pub mod PlanCache
pub mod TokenExtractor
pub mod ActiveRiskSet
pub mod GlobalRpcRateLimiter
pub mod MicroVerifyCache
pub mod PredictiveDedupCache
pub mod TxBroadcaster
pub mod Safety
pub mod ExecutorClient
pub mod HealthFactorChecker
pub mod VerifierLoop
pub mod ChainlinkListener
pub mod PriceMath
pub mod PredictiveBudgetTracker
pub mod ScanRegistry
pub mod PredictiveLoop
pub mod NearBandFilter
pub mod GasBurstManager
pub mod FallbackOrchestrator
pub mod ReserveEventCoalescer
mod Tests
