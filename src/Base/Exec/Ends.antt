-- ===== src/Base/Exec/Ends.antt =====
-- How a function ends: one rule for each way to build a function.
use mathlib.Core.Path.{◌≡◌, refl}
use mathlib.Core.Bool.{Bool, true, false}
use mathlib.Core.Option.{Option, none, some}
use mathlib.Core.List.{List}
use kubevela_catalog.Base.Tests.{if◌then◌else◌}
use kubevela_catalog.Base.Exec.Keeps.{Keeps}
use kubevela_catalog.Base.Exec.{
  Ctl, next, stop, panic, Exec, Result, ok, err, pure, return, fault, ask, deref, or_else, on_error,
  continue, ◌>>=◌,
}

-- `Q` of the result of an early return, `N` of the value that goes on, `P` of a panic
abbrev pub Outcome : {R A : Type 0} → (R → Type 0) → Type 0 → (A → Type 0) → Ctl R A → Type 0
Outcome Q P N (next a) = N a
Outcome Q P N (stop r) = Q r
Outcome Q P N panic = P

-- However many calls were made before, and whatever they were, `m` ends in such a way.
pub record Ends {C R A : Type 0} (Q : R → Type 0) (P : Type 0) (N : A → Type 0) (m : Exec C R A)
    : Type 0 where
  pub at : (h : List C) → Outcome Q P N (m h).0

Outcome-weaken :
    {R A : Type 0} (Q : R → Type 0) (P : Type 0) (M N : A → Type 0) (r : Ctl R A)
    → Outcome Q P M r
    → ((a : A) → M a → N a)
    → Outcome Q P N r
Outcome-weaken Q P M N (next a) o k = k a o
Outcome-weaken Q P M N (stop r) o k = o
Outcome-weaken Q P M N panic o k = o

module _ {C R A : Type 0} (Q : R → Type 0) (P : Type 0) (N : A → Type 0) where
  pub Ends-pure : (a : A) → N a → Ends {C = C} Q P N (pure a)
  unfolding pure
  Ends-pure a n = record { at = λ h. n }

  pub Ends-return : (r : R) → Q r → Ends {C = C} Q P N (return r)
  unfolding return
  Ends-return r q = record { at = λ h. q }

  pub Ends-fault : P → Ends {C = C} Q P N fault
  unfolding fault
  Ends-fault p = record { at = λ h. p }

  pub Ends-ask :
      (c : C) (answer : List C → A) → ((h : List C) → N (answer h)) → Ends Q P N (ask c answer)
  unfolding ask
  Ends-ask c answer n = record { at = λ h. n h }

  pub Ends-deref : (o : Option A) → P → ((a : A) → N a) → Ends {C = C} Q P N (deref o)
  unfolding deref
  Ends-deref none p k = Ends-fault p
  Ends-deref (some a) p k = Ends-pure a (k a)

  pub Ends-or_else :
      {E : Type 0} (r : Result E A) (f : E → Exec C R A)
      → ((a : A) → r ≡ ok a → N a)
      → ((e : E) → Ends Q P N (f e))
      → Ends Q P N (or_else r f)
  unfolding or_else
  Ends-or_else (ok a) f n k = Ends-pure a (n a refl)
  Ends-or_else (err e) f n k = k e

  pub Ends-on_error :
      {E : Type 0} (o : Option E) (f : E → Exec C R Unit) {N' : Unit → Type 0}
      → N' tt
      → ((e : E) → Ends Q P N' (f e))
      → Ends Q P N' (on_error o f)
  unfolding on_error pure
  Ends-on_error none f n k = record { at = λ h. n }
  Ends-on_error (some e) f n k = k e

  pub Ends-weaken :
      (M : A → Type 0) (m : Exec C R A) → Ends Q P M m → ((a : A) → M a → N a) → Ends Q P N m
  Ends-weaken M m e k = record { at = λ h. Outcome-weaken Q P M N (m h).0 (e.at h) k }

  pub Ends-if :
      (b : Bool) (m n : Exec C R A)
      → (b ≡ true → Ends Q P N m)
      → (b ≡ false → Ends Q P N n)
      → Ends Q P N (if b then m else n)
  Ends-if true m n km kn = km refl
  Ends-if false m n km kn = kn refl

module _ {C R A B : Type 0} (Q : R → Type 0) (P : Type 0) (N : A → Type 0) (M : B → Type 0) where
  continue-Outcome :
      (r : Ctl R A) (f : A → Exec C R B) (h : List C)
      → Outcome Q P N r
      → ((a : A) → N a → Ends Q P M (f a))
      → Outcome Q P M (continue r f h).0
  continue-Outcome (next a) f h n k = (k a n).at h
  continue-Outcome (stop r) f h q k = q
  continue-Outcome panic f h p k = p

  pub Ends-bind :
      (m : Exec C R A) (f : A → Exec C R B)
      → Ends Q P N m
      → ((a : A) → N a → Ends Q P M (f a))
      → Ends Q P M (m >>= f)
  unfolding ◌>>=◌
  Ends-bind m f km kf = record {
    at = λ h. let (r, h') = m h in continue-Outcome r f h' (km.at h) kf;
  }

pub Ends-deref_eq :
    {C R A : Type 0} (o : Option A)
    → Ends {C = C} {R = R} (λ r. Unit) Unit (λ a. o ≡ some a) (deref o)
unfolding deref pure fault
Ends-deref_eq none = record { at = λ h. tt }
Ends-deref_eq (some a) = record { at = λ h. refl }

-- a pointer that is known to lead to a value
pub Ends-deref_known :
    {C R A : Type 0} (o : Option A) (v : A)
    → o ≡ some v
    → Ends {C = C} {R = R} (λ r. Unit) Unit (λ a. a ≡ v) (deref o)
unfolding deref pure
Ends-deref_known o v e = rw e (record { at = λ h. refl })

-- An invariant of the calls made may rest on what is known of the value that goes on.
module _ {C R A B : Type 0} (P : List C → Type 0) (N : A → Type 0) where
  continue-after :
      (r : Ctl R A) (f : A → Exec C R B) (h : List C)
      → Outcome (λ r. Unit) Unit N r
      → ((a : A) → N a → Keeps P (f a))
      → P h
      → P (continue r f h).1
  continue-after (next a) f h n k p = (k a n).at h p
  continue-after (stop r) f h n k p = p
  continue-after panic f h n k p = p

  pub Keeps-bind_after :
      (m : Exec C R A) (f : A → Exec C R B)
      → Keeps P m
      → Ends (λ r. Unit) Unit N m
      → ((a : A) → N a → Keeps P (f a))
      → Keeps P (m >>= f)
  unfolding ◌>>=◌
  Keeps-bind_after m f keeps ends k = record {
    at = λ h p. let (r, h') = m h in continue-after r f h' (ends.at h) k (keeps.at h p);
  }
