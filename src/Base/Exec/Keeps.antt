-- ===== src/Base/Exec/Keeps.antt =====
-- Invariants of the calls made: one rule for each way to build a function.
use mathlib.Core.Path.{◌≡◌, refl}
use mathlib.Core.Bool.{Bool, true, false}
use mathlib.Core.Option.{Option, none, some}
use mathlib.Core.List.{List, [], ◌∷◌}
use kubevela_catalog.Base.Tests.{if◌then◌else◌}
use kubevela_catalog.Base.Exec.{
  Ctl, next, stop, panic, Exec, Func, Result, ok, err, pure, return, fault, ask, deref, or_else,
  on_error, continue, ◌>>=◌, call,
}

-- Whatever way `m` ends, the calls made satisfy `P` if they did before.
pub record Keeps {C R A : Type 0} (P : List C → Type 0) (m : Exec C R A) : Type 0 where
  pub at : (h : List C) → P h → P (m h).1

module _ {C R A : Type 0} {P : List C → Type 0} where
  pub Keeps-pure : (a : A) → Keeps P (pure {R = R} a)
  unfolding pure
  Keeps-pure a = record { at = λ h p. p }

  pub Keeps-return : (r : R) → Keeps P (return {A = A} r)
  unfolding return
  Keeps-return r = record { at = λ h p. p }

  pub Keeps-fault : Keeps P (fault {R = R} {A = A})
  unfolding fault
  Keeps-fault = record { at = λ h p. p }

  pub Keeps-deref : (o : Option A) → Keeps P (deref {R = R} o)
  unfolding deref
  Keeps-deref none = Keeps-fault
  Keeps-deref (some a) = Keeps-pure a

  pub Keeps-or_else :
      {E : Type 0} (r : Result E A) (f : E → Exec C R A)
      → ((e : E) → Keeps P (f e))
      → Keeps P (or_else r f)
  unfolding or_else
  Keeps-or_else (ok a) f k = Keeps-pure a
  Keeps-or_else (err e) f k = k e

  -- A branch may use what the test said; the branch not taken comes first.
  pub Keeps-if :
      (test : Bool) (taken other : Exec C R A)
      → (test ≡ false → Keeps P other)
      → (test ≡ true → Keeps P taken)
      → Keeps P (if test then taken else other)
  Keeps-if false taken other keeps_no keeps_yes = keeps_no refl
  Keeps-if true taken other keeps_no keeps_yes = keeps_yes refl

module _ {C R : Type 0} {P : List C → Type 0} where
  pub Keeps-on_error :
      {E : Type 0} (o : Option E) (f : E → Exec C R Unit)
      → ((e : E) → Keeps P (f e))
      → Keeps P (on_error o f)
  unfolding on_error
  Keeps-on_error none f k = Keeps-pure tt
  Keeps-on_error (some e) f k = k e

  pub Keeps-call : {S : Type 0} (m : Func C S) → Keeps P m → Keeps P (call {R = R} m)
  unfolding call
  Keeps-call m k = record { at = λ h p. k.at h p }

module _ {C R A B : Type 0} {P : List C → Type 0} where
  continue-Keeps :
      (r : Ctl R A) (f : A → Exec C R B) (h : List C)
      → ((a : A) → Keeps P (f a))
      → P h
      → P (continue r f h).1
  continue-Keeps (next a) f h k p = (k a).at h p
  continue-Keeps (stop r) f h k p = p
  continue-Keeps panic f h k p = p

  pub Keeps-bind :
      (first : Exec C R A) (rest : A → Exec C R B)
      → Keeps P first
      → ((value : A) → Keeps P (rest value))
      → Keeps P (first >>= rest)
  unfolding ◌>>=◌
  Keeps-bind first rest keeps_first keeps_rest = record {
    at = λ h before.
        let (r, h') = first h in continue-Keeps r rest h' keeps_rest (keeps_first.at h before);
  }

-- All calls made are of one sort.
abbrev pub AllCalls : {C : Type 0} → (C → Type 0) → List C → Type 0
AllCalls P [] = Unit
AllCalls P (c ∷ h) = P c × AllCalls P h

module _ {C R A : Type 0} {P : C → Type 0} where
  pub Keeps-ask : (c : C) (answer : List C → A) → P c → Keeps (AllCalls P) (ask {R = R} c answer)
  unfolding ask
  Keeps-ask c answer p = record { at = λ h all. (p, all) }

pub ruleset keeps_rules = (
  Keeps-ask, Keeps-pure, Keeps-return, Keeps-fault, Keeps-deref, Keeps-or_else, Keeps-if,
  Keeps-on_error, Keeps-call, Keeps-bind,
)
