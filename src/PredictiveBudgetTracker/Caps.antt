-- ===== src/PredictiveBudgetTracker/Caps.antt =====
-- What the budgets limit, and what they do not.
use liquid_bot.Prelude.{
  ℕ, ◌+◌, ◌-◌, ◌≤◌, ◌≡◌, refl, ap, ◌∙◌, true, false, Option, none, some, List, arith, length,
  length-take, leb, min, if◌then◌else◌, Bool-cases, inl, inr, beq_self,
}
use liquid_bot.Prelude.Sort.{sort, length-sort}
use liquid_bot.Prelude.Text.{Text, text_key, truthy}
use liquid_bot.JsMap
use liquid_bot.JsMap.{JsMap}
use liquid_bot.JsMap.Laws.{get-set}
use liquid_bot.PredictiveBudgetTracker.{
  BudgetConfig, BudgetTracker, start_tick, count_or_zero, asset_count, check_asset,
  can_evaluate_users, count_asset, record_users_evaluated, RatedUser, room, is_allowed, is_behind,
  downsample_to_fit,
}

length-downsample-refused :
    (c : BudgetConfig) (users : List RatedUser) (asset : Option Text) (t : BudgetTracker)
    → is_allowed (can_evaluate_users c (length users) asset t) ≡ false
    → length (downsample_to_fit c users asset t) ≡ min (room c asset t) (length users)
unfolding downsample_to_fit
length-downsample-refused c users asset t no_room =
    rw (no_room, if◌then◌else◌)
      (length-take (room c asset t) (sort is_behind users)
        ∙ ap (min (room c asset t)) (length-sort is_behind users))

allowed-le-room :
    (c : BudgetConfig) (n : ℕ) (asset : Option Text) (t : BudgetTracker)
    → is_allowed (can_evaluate_users c n asset t) ≡ true
    → n ≤ room c asset t
unfolding can_evaluate_users check_asset room
allowed-le-room c n none t h = ground arith
allowed-le-room c n (some asset) t h = ground arith

-- What is left fits in the room that there is.
pub length-downsample-le :
    (c : BudgetConfig) (users : List RatedUser) (asset : Option Text) (t : BudgetTracker)
    → length (downsample_to_fit c users asset t) ≤ room c asset t
unfolding downsample_to_fit
length-downsample-le c users asset t =
    elim (Bool-cases (is_allowed (can_evaluate_users c (length users) asset t))) [
      | inl y ↦ rw (y, if◌then◌else◌) (allowed-le-room c (length users) asset t y)
      | inr n ↦ omega (arith, length-downsample-refused c users asset t n)
    ]

-- Whatever the check says, for instance that the budget of the hour is spent or that there were too
-- many ticks in this minute, as many users are left as there is room for by the tick and the asset.
pub length-downsample_to_fit :
    (c : BudgetConfig) (users : List RatedUser) (asset : Option Text) (t : BudgetTracker)
    → length (downsample_to_fit c users asset t) ≡ min (room c asset t) (length users)
unfolding downsample_to_fit
length-downsample_to_fit c users asset t =
    elim (Bool-cases (is_allowed (can_evaluate_users c (length users) asset t))) [
      | inl y ↦ rw (y, if◌then◌else◌) (omega (arith, allowed-le-room c (length users) asset t y))
      | inr n ↦ length-downsample-refused c users asset t n
    ]

-- A tick starts with the counts of the assets as they were.
pub start_tick-count :
    (now : ℕ) (asset : Text) (t : BudgetTracker)
    → asset_count asset (start_tick now t) ≡ asset_count asset t
unfolding start_tick asset_count
start_tick-count now asset t = elim (Bool-cases (leb 60000 (now - t.minute_start_time))) [
  | inl m ↦ elim (Bool-cases (leb 3600000 (now - t.hour_start_time))) [
    | inl h ↦ rw (m, h) refl
    | inr h ↦ rw (m, h) refl
  ]
  | inr m ↦ elim (Bool-cases (leb 3600000 (now - t.hour_start_time))) [
    | inl h ↦ rw (m, h) refl
    | inr h ↦ rw (m, h) refl
  ]
]

pub record-count_same :
    (c : BudgetConfig) (n : ℕ) (symbol : Text) (t : BudgetTracker)
    → truthy symbol ≡ true
    → asset_count symbol (record_users_evaluated c n (some symbol) t) ≡ asset_count symbol t + n
unfolding record_users_evaluated count_asset asset_count
record-count_same c n symbol t full =
    let count = asset_count symbol t + n in
    rw (full, if◌then◌else◌)
      (ap count_or_zero (get-set symbol symbol count t.users_per_asset_this_signal)
        ∙ ap
            (λ b.
              count_or_zero
                (if b then some count else JsMap.get symbol t.users_per_asset_this_signal))
            (beq_self symbol))

pub record-count_other :
    (c : BudgetConfig) (n : ℕ) (symbol asset : Text) (t : BudgetTracker)
    → text_key.beq symbol asset ≡ false
    → asset_count asset (record_users_evaluated c n (some symbol) t) ≡ asset_count asset t
unfolding record_users_evaluated count_asset asset_count
record-count_other c n symbol asset t other =
    let count = asset_count symbol t + n in
    elim (Bool-cases (truthy symbol)) [
      | inr e ↦ rw (e, if◌then◌else◌) refl
      | inl e ↦
          rw (e, if◌then◌else◌)
            (ap count_or_zero (get-set symbol asset count t.users_per_asset_this_signal)
              ∙ ap
                  (λ b.
                    count_or_zero
                      (if b then some count else JsMap.get asset t.users_per_asset_this_signal))
                  other)
    ]
