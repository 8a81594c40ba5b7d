-- ===== src/MicroVerifyCache/Reads.antt =====
-- What a read of the cache finds after the other calls.
use liquid_bot.Prelude.{
  ℕ, ap, sym, ◌+◌, ◌<◌, ◌≡◌, refl, ◌∙◌, Bool, true, ◌&&◌, Option, none, some, [], ◌∷◌, ◌++◌, arith,
  ltb, if◌then◌else◌, Bool-cases, inl, inr, beq_self,
}
use liquid_bot.Prelude.Text.{Text, text_eq, text_key, to_lower_case}
use liquid_bot.JsMap
use liquid_bot.JsMap.{keys}
use liquid_bot.JsMap.Laws.{get-set}
use liquid_bot.MicroVerifyCache.{
  CachedHfResult, CacheEntry, MicroVerifyCache, is_enabled, is_valid, colon, get_cache_key,
  starts_with, serve, get, set, invalidate_user, settle,
}
use liquid_bot.MicroVerifyCache.Keys.{HasNoColon, starts_with-append, get-delete_picked_all}

abbrev served : ℕ → Option CacheEntry → Option CachedHfResult
served now none = none
served now (some entry) = if is_valid now entry then some entry.result else none

serve_lem :
    (key : Text) (now : ℕ) (o : Option CacheEntry) (c : MicroVerifyCache)
    → (serve key now o c).1 ≡ served now o
unfolding serve
serve_lem key now none c = refl
serve_lem key now (some entry) c = elim (Bool-cases (is_valid now entry)) [
  | inl y ↦ rw (y, if◌then◌else◌) refl
  | inr n ↦ rw (n, if◌then◌else◌) refl
]

-- A read, as the settings and the entry decide it.
get_lem :
    (user tag : Text) (now : ℕ) (c : MicroVerifyCache)
    → (get user tag now c).1
      ≡ (if is_enabled c then served now (JsMap.get (get_cache_key user tag) c.cache) else none)
unfolding get
get_lem user tag now c = elim (Bool-cases (is_enabled c)) [
  | inl y ↦ rw (y, if◌then◌else◌) (serve_lem (get_cache_key user tag) now _ c)
  | inr n ↦ rw (n, if◌then◌else◌) refl
]

get_from :
    (user tag : Text) (now : ℕ) (c : MicroVerifyCache) (ttl : ℕ) (o : Option CacheEntry)
    → c.ttl_ms ≡ ttl
    → JsMap.get (get_cache_key user tag) c.cache ≡ o
    → (get user tag now c).1 ≡ (if ltb 0 ttl then served now o else none)
get_from user tag now c ttl o same found =
    get_lem user tag now c
    ∙ ap (λ t. if ltb 0 t then served now (JsMap.get (get_cache_key user tag) c.cache) else none)
        same
    ∙ ap (λ r. if ltb 0 ttl then served now r else none) found

set_ttl :
    (user tag : Text) (result : CachedHfResult) (now : ℕ) (c : MicroVerifyCache)
    → (set user tag result now c).ttl_ms ≡ c.ttl_ms
unfolding set
set_ttl user tag result now c = elim (Bool-cases (is_enabled c)) [
  | inl y ↦ rw (y, if◌then◌else◌) refl
  | inr n ↦ rw (n, if◌then◌else◌) refl
]

set_found :
    (user tag : Text) (result : CachedHfResult) (now : ℕ) (c : MicroVerifyCache)
    → is_enabled c ≡ true
    → JsMap.get (get_cache_key user tag) (set user tag result now c).cache
      ≡ some (record { result = result; expires_at = now + c.ttl_ms })
unfolding set
set_found user tag result now c y =
    rw (y, if◌then◌else◌)
      (get-set k k (record { result = result; expires_at = now + c.ttl_ms }) c.cache
        ∙ rw (beq_self k, if◌then◌else◌) refl)
  where
    k : Text
    k = get_cache_key user tag

enabled_answer :
    (result : CachedHfResult) (ttl expires later : ℕ) (o : Option CacheEntry)
    → (ltb 0 ttl ≡ true → o ≡ some (record { result = result; expires_at = expires }))
    → (if ltb 0 ttl then served later o else none)
      ≡ (if ltb 0 ttl && ltb later expires then some result else none)
enabled_answer result ttl expires later o found = elim (Bool-cases (ltb 0 ttl)) [
  | inl y ↦ rw (y, if◌then◌else◌) (ap (served later) (found y))
  | inr n ↦ rw (n, if◌then◌else◌) refl
]

-- A result that was set is found until its time to live has passed and not longer, and only if the
-- cache is enabled.
pub get-set_same :
    (user tag : Text) (result : CachedHfResult) (now later : ℕ) (c : MicroVerifyCache)
    → (get user tag later (set user tag result now c)).1
      ≡ (if is_enabled c && ltb later (now + c.ttl_ms) then some result else none)
get-set_same user tag result now later c =
    get_from user tag later (set user tag result now c) c.ttl_ms _ (set_ttl user tag result now c)
      refl
    ∙ enabled_answer result c.ttl_ms (now + c.ttl_ms) later _ (set_found user tag result now c)

settle_same :
    (user tag : Text) (result : CachedHfResult) (now : ℕ) (c : MicroVerifyCache)
    → ((settle user tag (some result) now c).cache ≡ (set user tag result now c).cache)
      × ((settle user tag (some result) now c).ttl_ms ≡ (set user tag result now c).ttl_ms)
unfolding settle
settle_same user tag result now c = (refl, refl)

invalidate_user_ttl :
    (user : Text) (c : MicroVerifyCache) → (invalidate_user user c).ttl_ms ≡ c.ttl_ms
unfolding invalidate_user
invalidate_user_ttl user c = elim (Bool-cases (is_enabled c)) [
  | inl y ↦ rw (y, if◌then◌else◌) refl
  | inr n ↦ rw (n, if◌then◌else◌) refl
]

invalidate_user_found :
    (user other tag : Text) (c : MicroVerifyCache)
    → HasNoColon (to_lower_case user)
    → HasNoColon (to_lower_case other)
    → is_enabled c ≡ true
    → JsMap.get (get_cache_key other tag) (invalidate_user user c).cache ≡ (
        if text_eq (to_lower_case user) (to_lower_case other)
        then none
        else JsMap.get (get_cache_key other tag) c.cache)
unfolding invalidate_user get_cache_key
invalidate_user_found user other tag c hu ho y =
    rw (y, if◌then◌else◌)
      (get-delete_picked_all (λ key. starts_with key (to_lower_case user ++ (colon ∷ []))) k c.cache
        ∙ ap (λ b. if b then none else JsMap.get k c.cache)
            (starts_with-append (to_lower_case user) (to_lower_case other) tag hu ho))
  where
    k : Text
    k = get_cache_key other tag

-- After the invalidation of a user no read for the user, at any block tag, finds a result, and the
-- reads for all other users find what they found, for addresses without a colon.
pub get-invalidate_user :
    (user other tag : Text) (now : ℕ) (c : MicroVerifyCache)
    → HasNoColon (to_lower_case user)
    → HasNoColon (to_lower_case other)
    → (get other tag now (invalidate_user user c)).1 ≡ (
        if text_eq (to_lower_case user) (to_lower_case other)
        then none
        else (get other tag now c).1)
get-invalidate_user user other tag now c hu ho = elim (Bool-cases (is_enabled c)) [
  | inl y ↦
      get_from other tag now (invalidate_user user c) c.ttl_ms _ (invalidate_user_ttl user c)
        (invalidate_user_found user other tag c hu ho y)
      ∙ elim (Bool-cases (text_eq (to_lower_case user) (to_lower_case other))) [
        | inl t ↦ rw (y, if◌then◌else◌) (rw (t, if◌then◌else◌) refl)
        | inr f ↦ rw (f, if◌then◌else◌) (sym (get_lem other tag now c))
      ]
  | inr n ↦
      get_from other tag now (invalidate_user user c) c.ttl_ms _ (invalidate_user_ttl user c) refl
      ∙ rw (n, if◌then◌else◌)
          (elim (Bool-cases (text_eq (to_lower_case user) (to_lower_case other))) [
            | inl t ↦ rw (t, if◌then◌else◌) refl
            | inr f ↦
                rw (f, if◌then◌else◌) (sym (get_lem other tag now c ∙ rw (n, if◌then◌else◌) refl))
          ])
]

-- In an enabled cache, a request that was in flight when its user was invalidated still stores its
-- result, which reads find until its time to live has passed.
pub get-settle_invalidated :
    (user tag : Text) (result : CachedHfResult) (now later : ℕ) (c : MicroVerifyCache)
    → is_enabled c ≡ true
    → later < now + c.ttl_ms
    → (get user tag later (settle user tag (some result) now (invalidate_user user c))).1
      ≡ some result
get-settle_invalidated user tag result now later c y soon =
    let d = invalidate_user user c in
    get_from user tag later (settle user tag (some result) now d) d.ttl_ms _
      ((settle_same user tag result now d).1 ∙ set_ttl user tag result now d)
      (ap (JsMap.get (get_cache_key user tag)) (settle_same user tag result now d).0)
    ∙ enabled_answer result d.ttl_ms (now + d.ttl_ms) later _ (set_found user tag result now d)
    ∙ ap (λ t. if ltb 0 t && ltb later (now + t) then some result else none)
        (invalidate_user_ttl user c)
    ∙ ap (λ b. if b then some result else none) (both (ltb 0 c.ttl_ms) y)
  where
    both : (b : Bool) → b ≡ true → (b && ltb later (now + c.ttl_ms)) ≡ true
    both b h = ground arith
