-- ===== src/Autoscaler/Keda.antt =====
-- The scaled object of a scaler (scaleByKEDA of
-- legacy/traits/autoscalertrait/controllers/keda.go), and the reconcile loop
-- (autoscaler_controller.go beside it). Events and logs are left out.
pub mod Writes
use kubevela_catalog.Base.{
  String, List, [], ◌∷◌, ◌++◌, Option, none, some, Bool, ◌||◌, str_eq, if◌then◌else◌,
}
use kubevela_catalog.Base.Exec.{
  Exec, Func, Result, ok, err, pure, return, ask, or_else, on_error, call, ◌>>=◌, ◌>>◌,
}
use kubevela_catalog.K8s.{
  Error, new_error, wrapped, Reply, reply, NamespacedName, key, Unstructured, owner_of,
  reconcile_error,
}
use kubevela_catalog.Autoscaler.{
  Trigger, TargetWorkload, Spec, Scaler, ScaleTrigger, ScaledObjectSpec, ScaledObject, Call,
  get_trait, locate_parent, fetch_workload, fetch_children, get_scaled_object, create_scaled_object,
  update_scaled_object, patch_condition, Api,
}
use kubevela_catalog.Autoscaler.Cron.{prepare_keda_cron_scaler_trigger_spec}

-- the results of the loop over the triggers, or the first error
unfoldable pub append_result :
    Result Error (List ScaleTrigger)
    → Result Error (List ScaleTrigger)
    → Result Error (List ScaleTrigger)
append_result (err e) rest = err e
append_result (ok ts) (err e) = err e
append_result (ok ts) (ok us) = ok (ts ++ us)

-- the four kinds that KEDA scales
unfoldable pub is_scalable : Unstructured → Bool
is_scalable u =
    str_eq u.kind "Deployment"
    || str_eq u.kind "StatefulSet"
    || str_eq u.kind "DaemonSet"
    || str_eq u.kind "ReplicaSet"

unfoldable pub target_of : Unstructured → TargetWorkload
target_of u = record { name = u.name; api_version = u.api_version; kind = u.kind }

-- the first of the resources that can be scaled, or else the workload
unfoldable pub find_target : Unstructured → List Unstructured → TargetWorkload
find_target workload [] = target_of workload
find_target workload (u ∷ us) = if is_scalable u then target_of u else find_target workload us

module _ (api : Api) where
  unfoldable pub keda_trigger : Scaler → Trigger → Result Error (List ScaleTrigger)
  keda_trigger scaler t =
      if str_eq t.trigger_type "cron"
      then prepare_keda_cron_scaler_trigger_spec api scaler t
      else ok (record { trigger_type = t.trigger_type; name = t.name; metadata = t.condition } ∷ [])

  unfoldable pub keda_triggers : Scaler → List Trigger → Result Error (List ScaleTrigger)
  keda_triggers scaler [] = ok []
  keda_triggers scaler (t ∷ ts) = append_result (keda_trigger scaler t) (keda_triggers scaler ts)

  unfoldable pub spec_for : Scaler → List ScaleTrigger → ScaledObjectSpec
  spec_for scaler triggers = record {
    scale_target_ref = scaler.spec.target_workload;
    min_replica_count = scaler.spec.min_replicas;
    max_replica_count = scaler.spec.max_replicas;
    triggers = triggers;
  }

  unfoldable pub object_for : Scaler → String → ScaledObjectSpec → ScaledObject
  object_for scaler namespace spec = record {
    name = scaler.meta.name;
    namespace = namespace;
    owners = owner_of scaler.meta ∷ [];
    spec = spec;
  }

  -- Another error than "not found" ends the function without one.
  unfoldable pub write_scaled_object :
      Scaler → String → ScaledObjectSpec → Result Error ScaledObject → Func Call (Option Error)
  write_scaled_object scaler namespace spec (err e) =
      if api.is_not_found e
      then (do
        let new : ScaledObject = object_for scaler namespace spec
        answer ← ask (create_scaled_object new) (api.create_scaled_object new)
        return answer)
      else return none
  write_scaled_object scaler namespace spec (ok stored) = do
    let new : ScaledObject = record stored { spec = spec }
    answer ← ask (update_scaled_object new) (api.update_scaled_object new)
    return answer

  unfoldable pub scale_by_keda : Scaler → String → Func Call (Option Error)
  scale_by_keda scaler namespace = do
    triggers ← or_else (keda_triggers scaler scaler.spec.triggers) (λ e. return (some e))
    let k = key namespace scaler.meta.name
    found ← ask (get_scaled_object k) (api.get_scaled_object k)
    write_scaled_object scaler namespace (spec_for scaler triggers) found

  unfoldable pub fail : {A : Type 0} → Scaler → Error → Exec Call Reply A
  fail s e = do
    answer ← ask (patch_condition s (reconcile_error e)) (api.patch_condition s (reconcile_error e))
    return (record { result = api.wait_result; error = answer })

  unfoldable pub with_target : Scaler → TargetWorkload → Scaler
  with_target s target = record s { spec = record s.spec { target_workload = target } }

  unfoldable pub reconcile : NamespacedName → Func Call Reply
  reconcile request = do
    got ← ask (get_trait request) (api.get_trait request)
    s ← or_else got (λ e. return (reply 30 (api.ignore_not_found e)))
    located ← ask (locate_parent s) (api.locate_parent s)
    on_error located (λ e. fail s (new_error api.err_locate_app_config))
    fetched ← ask (fetch_workload s) (api.fetch_workload s)
    workload ← or_else fetched (λ e. fail s (wrapped e api.err_locating_workload))
    children ← ask (fetch_children workload) (api.fetch_children workload)
    resources ← or_else children (λ e. fail s (new_error api.err_fetch_child_resources))
    let target = find_target workload (resources ++ workload ∷ [])
    scaled ← call (scale_by_keda (with_target s target) request.namespace)
    on_error scaled (λ e. return (reply 30 (some e)))
    return (reply 0 none)
