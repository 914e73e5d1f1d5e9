-- ===== src/Base/Text.antt =====
-- Texts: Go's string comparison, joining, `strings.Contains`, `strings.HasPrefix`, `strconv.Itoa`.
use Prim.Native.Nat.{ℕ, zero, suc, ◌/◌, ◌%◌, ◌<◌}
use Prim.Native.String
use Prim.Native.String.{String}
use text.Mathlib.Text.{◌==◌, find?, starts_with}
use text.Mathlib.TextLemmas.{append_assoc}
use text.Mathlib.TextEquality.{eq_iff}
use text.Mathlib.TextPositions.{eq_refl}
use mathlib.Core.Path.{◌≡◌, refl, sym}
use mathlib.Core.Logic.{◌≢◌, ◌↔◌, ◌⊎◌, inl, inr}
use mathlib.Core.Bool.{Bool, true, false}
use mathlib.Core.Option.{none, some}
use native.Mathlib.Omega.{arith}
use kubevela_catalog.Base.Tests.{ltb, Bool-cases, if◌then◌else◌}

abbrev pub str_eq : String → String → Bool
str_eq s t = s == t

pub str_eq_iff : (s t : String) → (str_eq s t ≡ true) ↔ (s ≡ t)
str_eq_iff s t = eq_iff s t

pub str_eq_refl : (s : String) → str_eq s s ≡ true
str_eq_refl s = eq_refl s

-- to split on a comparison, with what it says of the texts
pub str_eq_cases :
    (s t : String) → ((str_eq s t ≡ true) × (s ≡ t)) ⊎ ((str_eq s t ≡ false) × (s ≢ t))
str_eq_cases s t = elim (Bool-cases (str_eq s t)) [
  | inl e ↦ inl (e, (str_eq_iff s t).0 e)
  | inr e ↦ inr (e, λ same. absurd (cc (e, (str_eq_iff s t).1 same)))
]

-- s + t
infixr 66 ◌<>◌
abbrev pub ◌<>◌ : String → String → String
s <> t = String.◌++◌ s t

pub concat_assoc : (s t u : String) → s <> t <> u ≡ (s <> t) <> u
concat_assoc s t u = sym (append_assoc s t u)

-- strings.Contains(s, t)
unfoldable pub contains : String → String → Bool
contains s t = elim (find? s t) [ none ↦ false | some i ↦ true ]

-- strings.HasPrefix(s, t)
unfoldable pub has_prefix : String → String → Bool
has_prefix s t = starts_with s t

-- A digit below ten.
abbrev digit : ℕ → String
digit zero = "0"
digit (suc zero) = "1"
digit (suc (suc zero)) = "2"
digit (suc (suc (suc zero))) = "3"
digit (suc (suc (suc (suc zero)))) = "4"
digit (suc (suc (suc (suc (suc zero))))) = "5"
digit (suc (suc (suc (suc (suc (suc zero)))))) = "6"
digit (suc (suc (suc (suc (suc (suc (suc zero))))))) = "7"
digit (suc (suc (suc (suc (suc (suc (suc (suc zero)))))))) = "8"
digit _ = "9"

digits : ℕ → ℕ → String
digits zero n = ""
digits (suc f) n =
    let rest = digits f (n / 10) <> digit (n % 10) in if ltb n 10 then digit n else rest

-- strconv.Itoa of a natural number; more fuel than the number is enough
unfoldable pub itoa : ℕ → String
unfolding digits
itoa n = digits (suc n) n

digits_fuel : (f g n : ℕ) → n < f → n < g → digits f n ≡ digits g n
unfolding digits
digits_fuel zero g n h k = elim h [ ]
digits_fuel (suc f) zero n h k = elim k [ ]
digits_fuel (suc f) (suc g) n h k = ground (arith, digits_fuel f g (n / 10))

itoa_1234 : itoa 1203 ≡ "1203"
unfolding itoa
itoa_1234 = refl
