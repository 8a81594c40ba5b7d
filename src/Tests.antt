-- ===== src/Tests.antt =====
-- Runs of the models, and the theorems at concrete inputs.
mod Planner
mod PriorityQueues
mod HotSetTracker
mod UserIndex
mod Histories
mod ActiveRiskSet
mod GlobalRpcRateLimiter
mod MicroVerifyCache
mod PredictiveDedupCache
mod Execution
mod Verifier
mod Budgets
mod Predictive
mod GasBursts
mod Coalescing
mod Prices
