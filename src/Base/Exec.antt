-- ===== src/Base/Exec.antt =====
-- Go functions that call the API server, may return early and may panic.
-- `Exec C R A` is a part of a function whose result type is `R`: it reads the calls made so far
-- (the last one first), and yields a value of `A`, or ends the function with a result, or panics.
-- What a server answers is a function of the calls made so far, so that the answers of an
-- environment that changes between two calls are covered.
pub mod Keeps
pub mod Ends
pub mod Stops
use mathlib.Core.Option.{Option, none, some}
use mathlib.Core.List.{List, ◌∷◌}

pub data Ctl (R A : Type 0) : Type 0 where
  next : A → Ctl R A
  stop : R → Ctl R A
  panic : Ctl R A

abbrev pub Exec : Type 0 → Type 0 → Type 0 → Type 0
Exec C R A = List C → Ctl R A × List C

-- a whole function of result type `R`
abbrev pub Func : Type 0 → Type 0 → Type 0
Func C R = Exec C R R

-- an error value of Go beside a result: one of the two
pub data Result (E A : Type 0) : Type 0 where
  ok : A → Result E A
  err : E → Result E A

module _ {C R A : Type 0} where
  unfoldable pub pure : A → Exec C R A
  pure a h = (next a, h)

  -- `return r`
  unfoldable pub return : R → Exec C R A
  return r h = (stop r, h)

  -- a nil pointer is followed, or an index is out of range
  pub fault : Exec C R A
  fault h = (panic, h)

  -- a call, with the answer that the server gives after the calls made before
  unfoldable pub ask : C → (List C → A) → Exec C R A
  ask c answer h = (next (answer h), c ∷ h)

  unfoldable pub deref : Option A → Exec C R A
  deref none = fault
  deref (some a) = pure a

-- `if err != nil { … }` after a call that yields a value or an error
unfoldable pub or_else : {C R E A : Type 0} → Result E A → (E → Exec C R A) → Exec C R A
or_else (ok a) f = pure a
or_else (err e) f = f e

-- `if err != nil { … }` after a call that yields an error only
unfoldable pub on_error : {C R E : Type 0} → Option E → (E → Exec C R Unit) → Exec C R Unit
on_error none f = pure tt
on_error (some e) f = f e

-- The call of another function: its result is a value for the caller, its panic goes on.
abbrev pub returned : {R S : Type 0} → Ctl S S → Ctl R S
returned (next s) = next s
returned (stop s) = next s
returned panic = panic

unfoldable pub call : {C R S : Type 0} → Func C S → Exec C R S
call m h = let (r, h') = m h in (returned r, h')

module _ {C R A B : Type 0} where
  abbrev pub continue : Ctl R A → (A → Exec C R B) → Exec C R B
  continue (next a) f h = f a h
  continue (stop r) f h = (stop r, h)
  continue panic f h = (panic, h)

  infixl 10 ◌>>=◌ ◌>>◌
  -- opening this opens the other actions too
  unfoldable pub ◌>>=◌ : Exec C R A → (A → Exec C R B) → Exec C R B
  unfolding pure return fault ask deref or_else on_error call
  ◌>>=◌ m f h = let (r, h') = m h in continue r f h'

  abbrev pub ◌>>◌ : Exec C R A → Exec C R B → Exec C R B
  m >> n = m >>= λ _. n
