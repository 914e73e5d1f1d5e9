-- ===== src/MetricHpa/Reconcile.antt =====
-- The reconcile loop of the MetricHPATrait
-- (legacy/traits/metrichpatrait/controllers/metrichpatrait_controller.go, and helper.go).
pub mod Cleanup
pub mod External
pub mod Safe
use kubevela_catalog.Base.{
  String, List, [], ◌∷◌, ◌++◌, Option, none, some, Bool, true, false, ◌&&◌, str_eq, if◌then◌else◌,
}
use kubevela_catalog.Base.Exec.{
  Exec, Func, Result, ok, err, pure, return, ask, deref, or_else, on_error, call, ◌>>=◌, ◌>>◌,
}
use kubevela_catalog.K8s.{
  Error, new_error, wrapped, CtrlResult, Reply, reply, NamespacedName, key, TypedReference,
  Unstructured, reconcile_error, reconcile_success,
}
use kubevela_catalog.MetricHpa.{
  Trait, Made, made_config_map, made_deployment, made_service, made_scaled_object, Sort, deployment,
  service, scaled_object, Call, get_trait, get_workload, fetch_children, patch_object, get_object,
  delete_object, update_status, patch_condition, Api,
}
use kubevela_catalog.MetricHpa.Render.{
  prome_config_map, render_prometheus_resources, server_address, scaled_object_of,
}

abbrev pub gvk_deployment : String
gvk_deployment = "apps/v1, Kind=Deployment"

abbrev pub gvk_service : String
gvk_service = "/v1, Kind=Service"

abbrev pub ref_of : Unstructured → TypedReference
ref_of u = record { api_version = u.api_version; kind = u.kind; name = u.name; uid = u.uid }

-- the identities of the objects that the loop has applied
pub record Uids : Type 0 where
  pub deploy_uid : String
  pub service_uid : String
  pub scaledobject_uid : String

abbrev pub uid_for : Uids → Sort → String
uid_for u deployment = u.deploy_uid
uid_for u service = u.service_uid
uid_for u scaled_object = u.scaledobject_uid

module _ (api : Api) where
  -- The failures of `Reconcile`: the error itself, with that of the condition's patch, if any.
  unfoldable pub fail : {A : Type 0} → Trait → Error → Error → Exec Call Reply A
  fail t shown e = do
    answer ←
        ask (patch_condition t (reconcile_error shown))
          (api.patch_condition t (reconcile_error shown))
    on_error answer (λ p.
        return (record { result = api.wait_result; error = some (wrapped e (api.error_text p)) }))
    return (record { result = api.wait_result; error = some e })

  unfoldable pub get_referenced_workload :
      Trait → Func Call (CtrlResult × Result Error Unstructured)
  get_referenced_workload t = do
    let ref = t.spec.workload_reference
    let wn = key t.meta.namespace ref.name
    found ← ask (get_workload ref wn) (api.get_workload ref wn)
    workload ← or_else found (λ e. return (api.wait_result, err e))
    return (record { requeue_after = 0 }, ok workload)

  -- one round of the loop of `getCWChildResource`
  unfoldable pub decode_child : Unstructured → Exec Call (Option Error) Unit
  decode_child u =
      if str_eq (api.gvk_string u) gvk_deployment
      then on_error (api.decode deployment u) (λ e. return (some e))
      else if str_eq (api.gvk_string u) gvk_service
      then on_error (api.decode service u) (λ e. return (some e))
      else pure tt

  -- The error, if any: the deployment and the service are only logged.
  unfoldable pub get_cw_child_resource : List Unstructured → Func Call (Option Error)
  get_cw_child_resource [] = return none
  get_cw_child_resource (u ∷ us) = do decode_child u; get_cw_child_resource us

  -- ctrl.SetControllerReference
  unfoldable pub set_controller_reference : Trait → Made → Exec Call Reply Made
  set_controller_reference t object =
      or_else (api.own t object) (λ e. return (record { result = api.wait_result; error = some e }))

  unfoldable pub apply : Trait → Made → String → Exec Call Reply Unstructured
  apply t object text = do
    answer ← ask (patch_object object) (api.patch_object object)
    or_else answer (λ e. fail t (wrapped e text) e)

  unfoldable pub apply_config_map : Trait → Exec Call Reply Unit
  apply_config_map t = do
    config_map ← set_controller_reference t (made_config_map (prome_config_map t))
    applied ← apply t config_map "cannot create configmap"
    pure tt

  -- the address of the server, and the deployment and the service, which may be nil
  unfoldable pub apply_prometheus :
      Trait → Exec Call Reply (String × Option (Unstructured × Unstructured))
  apply_prometheus t =
      if str_eq t.spec.prom_server_address ""
      then (do
        let (d, s) = render_prometheus_resources t
        owned_deploy ← set_controller_reference t (made_deployment d)
        owned_svc ← set_controller_reference t (made_service s)
        deploy ← apply t owned_deploy "cannot create deployment for Prometheus"
        svc ← apply t owned_svc "cannot create service for Prometheus"
        pure (server_address api svc.name svc.namespace, some (deploy, svc)))
      else pure (t.spec.prom_server_address, none)

  unfoldable pub apply_scaled_object : Trait → String → Exec Call Reply Unstructured
  apply_scaled_object t address = do
    threshold ← deref t.spec.prom_threshold
    object ←
        set_controller_reference t (made_scaled_object (scaled_object_of api t address threshold))
    apply t object "cannot create KEDA ScaledObject"

  unfoldable pub sort_of : TypedReference → Option Sort
  sort_of r =
      if str_eq r.kind api.kind_deployment && str_eq r.api_version api.apps_api_version
      then some deployment
      else if str_eq r.kind api.kind_service && str_eq r.api_version api.core_api_version
      then some service
      else if str_eq r.kind "ScaledObject" && str_eq r.api_version api.keda_api_version
      then some scaled_object
      else none

  unfoldable pub delete_found : Sort → Result Error Unstructured → Exec Call (Option Error) Unit
  delete_found s (err e) = if api.is_not_found e then pure tt else return (some e)
  delete_found s (ok object) = do
    answer ← ask (delete_object s object) (api.delete_object s object)
    on_error answer (λ e. return (some e))

  -- one round of the loop of `cleanupResources`
  unfoldable pub clean_up :
      Trait → Uids → TypedReference → Option Sort → Exec Call (Option Error) Unit
  clean_up t uids r none = pure tt
  clean_up t uids r (some s) = if str_eq r.uid (uid_for uids s) then pure tt else (do
    let k = key t.meta.namespace r.name
    found ← ask (get_object s k) (api.get_object s k)
    delete_found s found)

  unfoldable pub cleanup_resources : Trait → Uids → List TypedReference → Func Call (Option Error)
  cleanup_resources t uids [] = return none
  cleanup_resources t uids (r ∷ rs) = do clean_up t uids r (sort_of r); cleanup_resources t uids rs

  -- The pointers to the identities are taken first, which a nil deployment does not survive.
  unfoldable pub garbage_collect :
      Trait → Option (Unstructured × Unstructured) → Unstructured → Exec Call Reply Unit
  garbage_collect t prometheus object = do
    (deploy, svc) ← deref prometheus
    let uids : Uids = record {
      deploy_uid = deploy.uid;
      service_uid = svc.uid;
      scaledobject_uid = object.uid;
    }
    cleaned ← call (cleanup_resources t uids t.resources)
    on_error cleaned (λ e. fail t (wrapped e "garbage collect failed") e)

  abbrev pub prometheus_refs : Option (Unstructured × Unstructured) → List TypedReference
  prometheus_refs none = []
  prometheus_refs (some (deploy, svc)) = ref_of deploy ∷ ref_of svc ∷ []

  unfoldable pub finish :
      Trait → Option (Unstructured × Unstructured) → Unstructured → Func Call Reply
  finish t prometheus object = do
    let t1 : Trait = record t { resources = ref_of object ∷ prometheus_refs prometheus }
    written ← ask (update_status t1) (api.update_status t1)
    t2 ← or_else written (λ e. return (record { result = api.wait_result; error = some e }))
    answer ← ask (patch_condition t2 reconcile_success) (api.patch_condition t2 reconcile_success)
    return (reply 0 answer)

  unfoldable pub apply_all : Trait → Func Call Reply
  apply_all t = do
    apply_config_map t
    (address, prometheus) ← apply_prometheus t
    object ← apply_scaled_object t address
    garbage_collect t prometheus object
    finish t prometheus object

  unfoldable pub reconcile_trait : Trait → Func Call Reply
  reconcile_trait t = do
    (result, found) ← call (get_referenced_workload t)
    workload ← or_else found (λ e. return (record { result = result; error = some e }))
    answer ← ask (fetch_children workload) (api.fetch_children workload)
    resources ← or_else answer (λ e. fail t (new_error "cannot find resources") e)
    failed ← call (get_cw_child_resource resources)
    on_error failed (λ e. fail t (new_error "cannot find resources") e)
    apply_all t

  unfoldable pub reconcile : NamespacedName → Func Call Reply
  reconcile request = do
    found ← ask (get_trait request) (api.get_trait request)
    t ← or_else found (λ e. return (reply 0 (api.ignore_not_found e)))
    reconcile_trait t
