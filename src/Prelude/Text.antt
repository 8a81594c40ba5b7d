-- ===== src/Prelude/Text.antt =====
-- Strings as lists of UTF-16 units. The case of a letter is changed for ASCII letters only, which
-- is what addresses and token symbols hold.
use Prim.Native.Nat.{ℕ, zero, suc, ◌+◌, ◌-◌, ◌/◌, ◌%◌}
use Prim.Native.Char.{code}
use Prim.Native.String.{String}
use mathlib.Core.Path.{◌≡◌, refl, ap₂}
use mathlib.Core.Bool.{Bool, true, false, ◌&&◌}
use mathlib.Core.List.{List, [], ◌∷◌, ◌++◌, map}
use mathlib.Core.Logic.{◌↔◌}
use native.Mathlib.Omega.{arith}
use liquid_bot.Prelude.Tests.{ltb, leb, ◌==◌, if◌then◌else◌, Eq}

abbrev pub Text : Type 0
Text = List ℕ

-- The units of a literal.
abbrev pub codes : String → Text
codes String.[] = []
codes (String.◌∷◌ c s) = code c ∷ codes s

unfoldable pub text_eq : Text → Text → Bool
text_eq [] [] = true
text_eq [] (b ∷ bs) = false
text_eq (a ∷ as_) [] = false
text_eq (a ∷ as_) (b ∷ bs) = (a == b) && text_eq as_ bs

pub text_eq_iff : (s t : Text) → (text_eq s t ≡ true) ↔ (s ≡ t)
unfolding text_eq
text_eq_iff [] [] = (λ _. refl, λ _. refl)
text_eq_iff [] (b ∷ bs) = (λ h. cc, λ h. cc)
text_eq_iff (a ∷ as_) [] = (λ h. cc, λ h. cc)
text_eq_iff (a ∷ as_) (b ∷ bs) =
    (λ h. ground (arith, text_eq_iff as_ bs), λ h. ground (arith, text_eq_iff as_ bs))

instance abbrev pub text_key : Eq Text
text_key = record { beq = text_eq; beq_iff = text_eq_iff }

unfoldable pub lower_unit : ℕ → ℕ
lower_unit c = if leb b'A' c && leb c b'Z' then c + 32 else c

unfoldable pub upper_unit : ℕ → ℕ
upper_unit c = if leb b'a' c && leb c b'z' then c - 32 else c

-- `s.toLowerCase()`
unfoldable pub to_lower_case : Text → Text
unfolding lower_unit
to_lower_case s = map lower_unit s

-- `s.toUpperCase()`
unfoldable pub to_upper_case : Text → Text
unfolding upper_unit
to_upper_case s = map upper_unit s

lower_unit-lower_unit : (c : ℕ) → lower_unit (lower_unit c) ≡ lower_unit c
unfolding lower_unit
lower_unit-lower_unit c = ground arith

pub to_lower_case-to_lower_case : (s : Text) → to_lower_case (to_lower_case s) ≡ to_lower_case s
unfolding to_lower_case
to_lower_case-to_lower_case [] = refl
to_lower_case-to_lower_case (c ∷ s) =
    ap₂ ◌∷◌ (lower_unit-lower_unit c) (to_lower_case-to_lower_case s)

upper_unit-upper_unit : (c : ℕ) → upper_unit (upper_unit c) ≡ upper_unit c
unfolding upper_unit
upper_unit-upper_unit c = ground arith

pub to_upper_case-to_upper_case : (s : Text) → to_upper_case (to_upper_case s) ≡ to_upper_case s
unfolding to_upper_case
to_upper_case-to_upper_case [] = refl
to_upper_case-to_upper_case (c ∷ s) =
    ap₂ ◌∷◌ (upper_unit-upper_unit c) (to_upper_case-to_upper_case s)

-- `if (s)`: every string but the empty one.
abbrev pub truthy : Text → Bool
truthy [] = false
truthy (c ∷ s) = true

pub truthy-to_lower_case : (s : Text) → truthy s ≡ true → truthy (to_lower_case s) ≡ true
unfolding to_lower_case
truthy-to_lower_case [] h = cc
truthy-to_lower_case (c ∷ s) h = refl

-- The decimal digits of a number; the fuel is at least their number.
unfoldable pub digits : ℕ → ℕ → Text
digits zero n = []
digits (suc fuel) n =
    let rest = digits fuel (n / 10) in
    let unit = 48 + n % 10 in if ltb n 10 then unit ∷ [] else rest ++ (unit ∷ [])

-- `n.toString()` for a number that is not negative.
unfoldable pub decimal : ℕ → Text
unfolding digits
decimal n = digits (suc n) n
