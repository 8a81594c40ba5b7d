-- ===== src/FallbackOrchestrator/Chosen.antt =====
-- Which users are evaluated, in one equation for all modes.
use liquid_bot.Prelude.{
  ℕ, ◌≤◌, ◌≡◌, sym, ap, ◌∙◌, Bool, true, not, ◌&&◌, ◌||◌, List, [], arith, length, take,
  length-take, keep, if◌then◌else◌,
}
use liquid_bot.NearBandFilter.{UserSnapshot, NearBandFilterConfig, should_check}
use liquid_bot.NearBandFilter.Range.{filter-Keeps}
use liquid_bot.FallbackOrchestrator.{
  FallbackOrchestrator, FallbackOrchestratorConfig, passive_result, user_set, fallback_result,
  healthy_result, has_recent_price_shock, should_evaluate_users,
}

-- The users to choose from.
abbrev pub targets : FallbackOrchestrator → List UserSnapshot → List UserSnapshot
targets o users = if o.config.near_only then keep (should_check o.near_band) users else users

abbrev pub is_active : ℕ → FallbackOrchestrator → Bool
is_active now o =
    o.config.enabled
    && (o.config.near_only || (not o.provider_healthy || has_recent_price_shock now o))

user_set-targets :
    (o : FallbackOrchestrator) (users : List UserSnapshot) → user_set o users ≡ targets o users
user_set-targets o users =
    ap (λ (xs : List UserSnapshot). if o.config.near_only then xs else users)
      (filter-Keeps o.near_band users).0

chosen_by :
    (enabled healthy shock : Bool) (o : FallbackOrchestrator) (users : List UserSnapshot)
    → (if not enabled
        then passive_result
        else if not healthy || shock
        then fallback_result (not healthy) o users
        else healthy_result o users).user_snapshots
      ≡ (if enabled && (o.config.near_only || (not healthy || shock))
          then take o.config.max_target_users_per_tick (user_set o users)
          else [])
unfolding fallback_result healthy_result
chosen_by enabled healthy shock o users = ground arith

-- `shouldEvaluate` gives the first users of the near band, or of all where it is not near only, up to
-- the cap, when it is enabled and is near only, or the provider is unhealthy, or a recent shock is
-- large enough; otherwise it gives none. They are never more than the cap.
pub should_evaluate_users-Chooses :
    (now : ℕ) (users : List UserSnapshot) (o : FallbackOrchestrator)
    → ((should_evaluate_users now users o).user_snapshots ≡ (
        if is_active now o then take o.config.max_target_users_per_tick (targets o users) else []))
      × (length (should_evaluate_users now users o).user_snapshots
          ≤ o.config.max_target_users_per_tick)
unfolding should_evaluate_users
should_evaluate_users-Chooses now users o =
    let cap = o.config.max_target_users_per_tick in
    let chosen =
      chosen_by o.config.enabled o.provider_healthy (has_recent_price_shock now o) o users
      ∙ ap (λ (xs : List UserSnapshot). if is_active now o then take cap xs else [])
          (user_set-targets o users) in
    let short = length-take cap (targets o users) in
    let count = ap length chosen in (chosen, ground (arith, short, count))

-- The same when it evaluates near users only.
near_targets :
    FallbackOrchestratorConfig → NearBandFilterConfig → List UserSnapshot → List UserSnapshot
near_targets c band users =
    if c.enabled then take c.max_target_users_per_tick (keep (should_check band) users) else []

active_near :
    (now : ℕ) (o : FallbackOrchestrator) (users : List UserSnapshot)
    → o.config.near_only ≡ true
    → (if is_active now o then take o.config.max_target_users_per_tick (targets o users) else [])
      ≡ near_targets o.config o.near_band users
unfolding near_targets
active_near now o users near = ground (arith, near)

-- When it evaluates near users only, neither the health of the provider nor a price shock nor the time
-- changes the users that it gives.
pub should_evaluate_users-near_only :
    (now later : ℕ) (users : List UserSnapshot) (o p : FallbackOrchestrator)
    → o.config.near_only ≡ true
    → p.config ≡ o.config
    → p.near_band ≡ o.near_band
    → (should_evaluate_users later users p).user_snapshots
      ≡ (should_evaluate_users now users o).user_snapshots
should_evaluate_users-near_only now later users o p near same band =
    let near' : p.config.near_only ≡ true = ap (λ c. c.near_only) same ∙ near in
    let a = (should_evaluate_users-Chooses now users o).0 in
    let b = (should_evaluate_users-Chooses later users p).0 in
    b
    ∙ active_near later p users near'
    ∙ ap (λ c. near_targets c p.near_band users) same
    ∙ ap (λ e. near_targets o.config e users) band
    ∙ sym (a ∙ active_near now o users near)
