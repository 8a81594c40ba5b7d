-- ===== src/Addresses.antt =====
-- backend/src/utils/Address.ts. The flag is `config.addressNormalizeLowercase`.
use liquid_bot.Prelude.{
  ◌≡◌, refl, Bool, true, false, List, [], ◌∷◌, not, ◌||◌, ◌&&◌, map, if◌then◌else◌, ap, ◌∙◌, arith,
  Bool-cases, inl, inr,
}
use liquid_bot.JsMap
use liquid_bot.JsMap.{JsSet, includes}
use liquid_bot.JsMap.Laws.{has-set}
use liquid_bot.JsMap.Sets.{has-set_of, includes-keys}
use liquid_bot.Prelude.Text.{
  Text, text_key, to_lower_case, truthy, to_lower_case-to_lower_case, truthy-to_lower_case,
}

unfoldable pub normalize_address : Bool → Text → Text
normalize_address lowercase address =
    if truthy address then if lowercase then to_lower_case address else address else address

unfoldable pub normalize_addresses : Bool → List Text → List Text
unfolding normalize_address
normalize_addresses lowercase addresses = map (normalize_address lowercase) addresses

unfoldable pub addresses_equal : Bool → Text → Text → Bool
unfolding normalize_address
addresses_equal lowercase addr1 addr2 =
    if not (truthy addr1) || not (truthy addr2)
    then false
    else text_key.beq (normalize_address lowercase addr1) (normalize_address lowercase addr2)

pub normalize_address-normalize_address :
    (lowercase : Bool) (address : Text)
    → normalize_address lowercase (normalize_address lowercase address)
      ≡ normalize_address lowercase address
unfolding normalize_address
normalize_address-normalize_address true [] = refl
normalize_address-normalize_address false [] = refl
normalize_address-normalize_address false (c ∷ address) = refl
normalize_address-normalize_address true (c ∷ address) =
    rw (truthy-to_lower_case (c ∷ address) refl, if◌then◌else◌)
      (to_lower_case-to_lower_case (c ∷ address))

-- The loop of `addressSetIntersection`.
unfoldable pub keep_common : JsSet Text → List Text → JsSet Text → JsSet Text
keep_common b [] common = common
keep_common b (addr ∷ a) common =
    keep_common b a (if JsMap.has addr b then JsMap.add addr common else common)

unfoldable pub address_set_intersection : Bool → List Text → List Text → JsSet Text
unfolding normalize_addresses keep_common
address_set_intersection lowercase set_a set_b =
    keep_common (JsMap.set_of (normalize_addresses lowercase set_b))
      (JsMap.keys (JsMap.set_of (normalize_addresses lowercase set_a))) []

has-keep_common :
    (k : Text) (b : JsSet Text) (a : List Text) (common : JsSet Text)
    → JsMap.has k (keep_common b a common) ≡ ((includes k a && JsMap.has k b) || JsMap.has k common)
unfolding keep_common includes
has-keep_common k b [] common = refl
has-keep_common k b (addr ∷ a) common =
    let more = has-set addr k tt common in
    let rest = has-keep_common k b a (if JsMap.has addr b then JsMap.add addr common else common) in
    rest ∙ elim (Bool-cases (text_key.beq addr k)) [
      | inr n ↦ ground (arith, n, more)
      | inl y ↦
          let same : addr ≡ k = (text_key.beq_iff addr k).0 y in
          let there = ap (λ (j : Text). JsMap.has j b) same in ground (arith, y, more, there)
    ]

-- The intersection holds exactly the normalized addresses that are among the normalized ones of both.
pub has-address_set_intersection :
    (lowercase : Bool) (set_a set_b : List Text) (k : Text)
    → JsMap.has k (address_set_intersection lowercase set_a set_b) ≡ (
        includes k (normalize_addresses lowercase set_a)
        && includes k (normalize_addresses lowercase set_b))
unfolding address_set_intersection JsMap.has
has-address_set_intersection lowercase set_a set_b k =
    let a = JsMap.set_of (normalize_addresses lowercase set_a) in
    let b = JsMap.set_of (normalize_addresses lowercase set_b) in
    let kept = has-keep_common k b (JsMap.keys a) [] in
    let in_a = includes-keys k a ∙ has-set_of k (normalize_addresses lowercase set_a) in
    let in_b = has-set_of k (normalize_addresses lowercase set_b) in
    ground (arith, kept, in_a, in_b)
