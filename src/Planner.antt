-- ===== src/Planner.antt =====
-- backend-v2/src/execution/liquidationPlanner.ts: which debt to repay for which collateral, and how
-- much of each.
pub mod Types
pub mod Amounts
pub mod Fetch
pub mod Score
pub mod Select
pub mod Plans
