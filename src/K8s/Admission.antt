-- ===== src/K8s/Admission.antt =====
-- The admission handlers of the webhooks. The decoding of a request and the encoding of an object
-- are the library's; the mutating and the validating handlers are the same text for all types
-- (`Handle` in legacy/traits/metricstrait/webhook and legacy/workloads/podspecworkload/webhook).
use kubevela_catalog.Base.{ℕ, List, [], ◌∷◌, Option, none, some}
use kubevela_catalog.Base.Exec.{Result, ok, err}
use kubevela_catalog.K8s.{Error}

pub data Operation : Type 0 where
  create : Operation
  update : Operation
  delete : Operation
  connect : Operation

-- `errored` with the HTTP status and what is wrong; a patch to the given object
pub data Response (E A : Type 0) : Type 0 where
  errored : ℕ → Error → Response E A
  rejected : ℕ → List E → Response E A
  patched : A → Response E A
  allowed : Response E A

unfoldable pub mutating_handle :
    {E A : Type 0} → (A → A) → (A → Option Error) → Result Error A → Response E A
mutating_handle default encode (err e) = errored 400 e
mutating_handle default encode (ok obj) = elim (encode (default obj)) [
  | some e ↦ errored 500 e
  | none ↦ patched (default obj)
]

-- the answer on the list of what is wrong; `none` stands for a validation that panics
unfoldable pub judge : {E A : Type 0} → Option (List E) → Option (Response E A)
judge none = none
judge (some []) = some allowed
judge (some (e ∷ es)) = some (rejected 422 (e ∷ es))

-- The request's object and, for an update, the old object, as far as they can be decoded; nothing
-- if the handler panics.
unfoldable pub validating_handle :
    {E A : Type 0}
    → (A → Option (List E))
    → (A → A → Option (List E))
    → Operation
    → Result Error A
    → Result Error A
    → Option (Response E A)
unfolding judge
validating_handle on_create on_update operation (err e) old = some (errored 400 e)
validating_handle on_create on_update create (ok obj) old = judge (on_create obj)
validating_handle on_create on_update update (ok obj) (err e) = some (errored 400 e)
validating_handle on_create on_update update (ok obj) (ok old) = judge (on_update obj old)
validating_handle on_create on_update delete (ok obj) old = some allowed
validating_handle on_create on_update connect (ok obj) old = some allowed
