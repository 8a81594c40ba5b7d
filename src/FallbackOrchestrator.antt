-- ===== src/FallbackOrchestrator.antt =====
-- backend/src/predictive/FallbackOrchestrator.ts: which users the predictive engine evaluates, from the
-- health of the provider, the last price shock and the near band. Log lines are left out. A shock with
-- a time to come has age 0 here and a negative one in the source, and both are recent.
pub mod Chosen
use liquid_bot.Prelude.{
  ℕ, ◌-◌, Bool, true, false, not, ◌&&◌, ◌||◌, Option, none, some, List, [], ◌∷◌, length, take, ltb,
  leb, ◌==◌, if◌then◌else◌,
}
use liquid_bot.Prelude.Text.{Text}
use liquid_bot.NearBandFilter.{UserSnapshot, NearBandFilterConfig, filter}

pub record FallbackOrchestratorConfig : Type 0 where
  pub enabled : Bool
  pub near_only : Bool
  pub max_target_users_per_tick : ℕ
  pub price_shock_drop_bps : ℕ

pub record PriceShockSignal : Type 0 where
  pub asset : Text
  pub drop_bps : ℕ
  pub timestamp : ℕ

pub data FallbackReason : Type 0 where
  ws_unhealthy price_shock passive near_band_only : FallbackReason

pub record FallbackEvaluationResult : Type 0 where
  pub should_evaluate : Bool
  pub reason : FallbackReason
  pub user_snapshots : List UserSnapshot

pub record FallbackOrchestrator : Type 0 where
  pub config : FallbackOrchestratorConfig
  pub near_band : NearBandFilterConfig
  pub provider_healthy : Bool
  pub last_price_shock : Option PriceShockSignal

unfoldable pub new_orchestrator :
    FallbackOrchestratorConfig → NearBandFilterConfig → FallbackOrchestrator
new_orchestrator c band = record {
  config = c;
  near_band = band;
  provider_healthy = true;
  last_price_shock = none;
}

unfoldable pub set_provider_health : Bool → FallbackOrchestrator → FallbackOrchestrator
set_provider_health is_healthy o = record o { provider_healthy = is_healthy }

unfoldable pub record_price_shock : PriceShockSignal → FallbackOrchestrator → FallbackOrchestrator
record_price_shock signal o = record o { last_price_shock = some signal }

abbrev pub recent_price_shock_threshold_ms : ℕ
recent_price_shock_threshold_ms = 60000

abbrev pub is_recent_shock : ℕ → ℕ → Option PriceShockSignal → Bool
is_recent_shock limit now none = false
is_recent_shock limit now (some shock) =
    if ltb recent_price_shock_threshold_ms (now - shock.timestamp)
    then false
    else leb limit shock.drop_bps

unfoldable pub has_recent_price_shock : ℕ → FallbackOrchestrator → Bool
has_recent_price_shock now o = is_recent_shock o.config.price_shock_drop_bps now o.last_price_shock

abbrev pub passive_result : FallbackEvaluationResult
passive_result = record { should_evaluate = false; reason = passive; user_snapshots = [] }

-- The users of the fallback mode before the cap.
abbrev pub user_set : FallbackOrchestrator → List UserSnapshot → List UserSnapshot
user_set o users = if o.config.near_only then (filter o.near_band users).kept else users

-- `shouldEvaluate` when it is enabled, in the fallback mode or not.
unfoldable pub fallback_result :
    Bool → FallbackOrchestrator → List UserSnapshot → FallbackEvaluationResult
fallback_result is_unhealthy o users = record {
  should_evaluate = true;
  reason = if is_unhealthy then ws_unhealthy else price_shock;
  user_snapshots = take o.config.max_target_users_per_tick (user_set o users);
}

unfoldable pub healthy_result : FallbackOrchestrator → List UserSnapshot → FallbackEvaluationResult
healthy_result o users =
    let near = take o.config.max_target_users_per_tick (filter o.near_band users).kept in
    if o.config.near_only
    then record {
      should_evaluate = ltb 0 (length near);
      reason = near_band_only;
      user_snapshots = near;
    }
    else passive_result

unfoldable pub should_evaluate_users :
    ℕ → List UserSnapshot → FallbackOrchestrator → FallbackEvaluationResult
unfolding fallback_result healthy_result has_recent_price_shock
should_evaluate_users now users o =
    if not o.config.enabled
    then passive_result
    else if not o.provider_healthy || has_recent_price_shock now o
    then fallback_result (not o.provider_healthy) o users
    else healthy_result o users

pub record HealthStatus : Type 0 where
  pub provider_healthy : Bool
  pub last_price_shock : Option PriceShockSignal
  pub recent_shock : Bool

unfoldable pub get_health_status : ℕ → FallbackOrchestrator → HealthStatus
unfolding has_recent_price_shock
get_health_status now o = record {
  provider_healthy = o.provider_healthy;
  last_price_shock = o.last_price_shock;
  recent_shock = has_recent_price_shock now o;
}
