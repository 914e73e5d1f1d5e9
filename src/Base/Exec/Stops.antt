-- ===== src/Base/Exec/Stops.antt =====
-- What a function that ends without a panic returns: one rule for each way to build a function.
use mathlib.Core.Bool.{Bool, true, false}
use mathlib.Core.Option.{Option, none, some}
use mathlib.Core.List.{List}
use kubevela_catalog.Base.Tests.{if◌then◌else◌}
use kubevela_catalog.Base.Exec.{
  Ctl, next, stop, panic, Exec, Func, Result, ok, err, pure, return, fault, ask, deref, or_else,
  on_error, returned, call, ◌>>=◌,
}
use kubevela_catalog.Base.Exec.Ends.{
  Outcome, Ends, Ends-pure, Ends-return, Ends-fault, Ends-ask, Ends-bind,
}

-- Whatever way `m` ends, a result that it returns satisfies `Q`, and a value that it yields `N`; it
-- panics only if `P` holds.
pub record Stops {C R A : Type 0} (Q : R → Type 0) (P : Type 0) (N : A → Type 0) (m : Exec C R A)
    : Type 0 where
  pub ends : Ends Q P N m

-- of the value of a part of a function, nothing is said
abbrev pub Any : {A : Type 0} → A → Type 0
Any a = Unit

module _ {C R A : Type 0} {Q : R → Type 0} {P : Type 0} {N : A → Type 0} where
  pub Stops-pure : (a : A) → N a → Stops {C = C} Q P N (pure a)
  Stops-pure a n = record { ends = Ends-pure _ _ _ a n }

  pub Stops-return : (r : R) → Q r → Stops {C = C} Q P N (return r)
  Stops-return r q = record { ends = Ends-return _ _ _ r q }

  pub Stops-fault : P → Stops {C = C} Q P N fault
  Stops-fault p = record { ends = Ends-fault _ _ _ p }

  pub Stops-deref : (o : Option A) → P → ((a : A) → N a) → Stops {C = C} Q P N (deref o)
  unfolding deref
  Stops-deref none p n = Stops-fault p
  Stops-deref (some a) p n = Stops-pure a (n a)

  pub Stops-ask :
      (c : C) (answer : List C → A) → ((h : List C) → N (answer h)) → Stops Q P N (ask c answer)
  Stops-ask c answer n = record { ends = Ends-ask _ _ _ c answer n }

  pub Stops-or_else :
      {E : Type 0} (r : Result E A) (f : E → Exec C R A)
      → ((a : A) → N a)
      → ((e : E) → Stops Q P N (f e))
      → Stops Q P N (or_else r f)
  unfolding or_else
  Stops-or_else (ok a) f n k = Stops-pure a (n a)
  Stops-or_else (err e) f n k = k e

  pub Stops-if :
      (test : Bool) (taken other : Exec C R A)
      → Stops Q P N other
      → Stops Q P N taken
      → Stops Q P N (if test then taken else other)
  Stops-if false taken other stops_other stops_taken = stops_other
  Stops-if true taken other stops_other stops_taken = stops_taken

returned-Outcome :
    {R S : Type 0} (P : Type 0) (Q : R → Type 0) (r : Ctl S S)
    → Outcome Any P Any r
    → Outcome Q P Any (returned {R = R} r)
returned-Outcome P Q (next s) o = tt
returned-Outcome P Q (stop s) o = tt
returned-Outcome P Q panic o = o

module _ {C R : Type 0} {Q : R → Type 0} {P : Type 0} where
  pub Stops-on_error :
      {E : Type 0} (o : Option E) (f : E → Exec C R Unit)
      → ((e : E) → Stops Q P Any (f e))
      → Stops Q P Any (on_error o f)
  unfolding on_error
  Stops-on_error none f k = Stops-pure tt tt
  Stops-on_error (some e) f k = k e

  pub Stops-call : {S : Type 0} (m : Func C S) → Stops Any P Any m → Stops Q P Any (call {R = R} m)
  unfolding call
  Stops-call m k = record { ends = record { at = λ h. returned-Outcome P Q (m h).0 (k.ends.at h) } }

module _ {C R A B : Type 0} {Q : R → Type 0} {P : Type 0} {N : B → Type 0} where
  pub Stops-bind :
      (first : Exec C R A) (rest : A → Exec C R B)
      → Stops Q P Any first
      → ((value : A) → Stops Q P N (rest value))
      → Stops Q P N (first >>= rest)
  Stops-bind first rest stops_first stops_rest = record {
    ends = Ends-bind _ _ Any _ first rest stops_first.ends (λ a n. (stops_rest a).ends);
  }

pub ruleset stops_rules = (
  Stops-ask, Stops-pure, Stops-return, Stops-fault, Stops-deref, Stops-or_else, Stops-if,
  Stops-on_error, Stops-call, Stops-bind,
)
