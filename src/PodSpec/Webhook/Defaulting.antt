-- ===== src/PodSpec/Webhook/Defaulting.antt =====
-- When the validation of a workload panics, and what the defaulting does about it.
use kubevela_catalog.Base.{List, Option, none, ◌≡◌, refl, ◌≢◌, arith}
use kubevela_catalog.Base.Int.{ℤ}
use kubevela_catalog.Base.Exec.{Result, ok}
use kubevela_catalog.K8s.{Error, ObjectMeta}
use kubevela_catalog.K8s.Admission.{
  Operation, create, judge, mutating_handle, validating_handle, patched,
}
use kubevela_catalog.PodSpec.{Workload}
use kubevela_catalog.PodSpec.Webhook.{
  default_pod_spec_workload, Fault, validate_create, validate_update, handle_validating,
  handle_mutating,
}

module _ (validate_object_meta : ObjectMeta → List Fault)
    (validate_nonnegative : ℤ → List Fault) where
  -- The validating webhook panics on the creation of a workload without a number of replicas. Once
  -- the mutating webhook has answered with a patch, it panics on no request for the patched
  -- workload.
  pub defaulted_never_panics :
      (w w' : Workload) (encode : Workload → Option Error) (operation : Operation)
      (old : Result Error Workload)
      → handle_mutating encode (ok w) ≡ patched w'
      → (handle_validating validate_object_meta validate_nonnegative create
            (ok (record w { replicas = none }))
            old
          ≡ none)
        × (handle_validating validate_object_meta validate_nonnegative operation (ok w') old ≢ none)
  unfolding handle_validating validating_handle judge validate_create validate_update
      handle_mutating mutating_handle default_pod_spec_workload
  defaulted_never_panics w w' encode operation old answer = (refl, ground arith)
