-- ===== src/PodSpec/Webhook.antt =====
-- The webhooks of the PodSpecWorkload (legacy/workloads/podspecworkload/webhook). A validation is
-- nothing where it panics.
pub mod Defaulting
use kubevela_catalog.Base.{List, [], ◌∷◌, ◌++◌, Option, none, some}
use kubevela_catalog.Base.Int.{ℤ, pos}
use kubevela_catalog.Base.Exec.{Result}
use kubevela_catalog.K8s.{Error, ObjectMeta}
use kubevela_catalog.K8s.Admission.{Operation, Response, mutating_handle, validating_handle}
use kubevela_catalog.PodSpec.{Container, Workload}

unfoldable pub default_pod_spec_workload : Workload → Workload
default_pod_spec_workload w = elim w.replicas [
  | none ↦ record w { replicas = some (pos 1) }
  | some n ↦ w
]

-- what is wrong; the first two are found by the library
pub data Fault : Type 0 where
  invalid_meta : Fault
  invalid_replicas : ℤ → Fault
  no_containers : Fault

unfoldable pub containers_faults : List Container → List Fault
containers_faults [] = no_containers ∷ []
containers_faults (c ∷ cs) = []

-- ValidateObjectMeta and ValidateNonnegativeField
module _ (validate_object_meta : ObjectMeta → List Fault)
    (validate_nonnegative : ℤ → List Fault) where
  -- the replicas are read through their pointer
  unfoldable pub validate_create : Workload → Option (List Fault)
  unfolding containers_faults
  validate_create w = elim w.replicas [
    | none ↦ none
    | some n ↦
        some (
          (validate_object_meta w.meta ++ validate_nonnegative n) ++ containers_faults w.containers)
  ]

  unfoldable pub validate_update : Workload → Workload → Option (List Fault)
  unfolding validate_create
  validate_update w old = validate_create w

  unfoldable pub handle_validating :
      Operation → Result Error Workload → Result Error Workload → Option (Response Fault Workload)
  unfolding validating_handle
  handle_validating operation obj old =
      validating_handle validate_create validate_update operation obj old

unfoldable pub handle_mutating :
    (Workload → Option Error) → Result Error Workload → Response Fault Workload
unfolding mutating_handle
handle_mutating encode obj = mutating_handle default_pod_spec_workload encode obj
