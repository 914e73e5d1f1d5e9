-- ===== src/CronHpa/Reconcile.antt =====
-- The reconcile loop of the CronHPATrait
-- (legacy/traits/cronhpatrait/controllers/cronhpatrait_controller.go and the helper files beside
-- it).
pub mod Cleanup
pub mod Missing
use kubevela_catalog.Base.{
  String, List, [], ◌∷◌, Option, none, some, Bool, not, ◌||◌, str_eq, if◌then◌else◌,
}
use kubevela_catalog.Base.Exec.{
  Exec, Func, Result, ok, err, pure, return, ask, deref, or_else, on_error, call, ◌>>=◌, ◌>>◌,
}
use kubevela_catalog.K8s.{
  Error, new_error, wrapped, CtrlResult, Reply, reply, NamespacedName, key, TypedReference,
  Unstructured, reconcile_error, reconcile_success,
}
use kubevela_catalog.CronHpa.{
  Trait, CronHpa, Call, get_trait, get_workload, fetch_children, patch_cron_hpa, get_cron_hpa,
  delete_cron_hpa, update_status, patch_condition, Api,
}
use kubevela_catalog.CronHpa.Render.{cron_hpa_kind, render_cron_hpa}

module _ (api : Api) where
  unfoldable pub fail : {A : Type 0} → Trait → Error → Exec Call Reply A
  fail t e = do
    answer ← ask (patch_condition t (reconcile_error e)) (api.patch_condition t (reconcile_error e))
    return (record { result = api.wait_result; error = answer })

  unfoldable pub fetch_workload :
      Trait → Func Call (Option Unstructured × CtrlResult × Option Error)
  fetch_workload t = do
    let ref = t.spec.workload_reference
    let wn = key t.meta.namespace ref.name
    found ← ask (get_workload ref wn) (api.get_workload ref wn)
    workload ← or_else found (λ e. do
      let c = reconcile_error (wrapped e "cannot find workload")
      answer ← ask (patch_condition t c) (api.patch_condition t c)
      return (none, api.wait_result, answer))
    return (some workload, record { requeue_after = 0 }, none)

  -- the method call on a nil workload panics
  unfoldable pub determine_workload_type :
      Option Unstructured → Func Call (Result Error (List Unstructured))
  determine_workload_type o = do
    w ← deref o
    if str_eq w.api_version api.oam_api_version
        then (do found ← ask (fetch_children w) (api.fetch_children w); return found)
        else if str_eq w.api_version api.apps_api_version
        then return (ok (w ∷ []))
        else if str_eq w.api_version ""
        then return (err (new_error "failed to get the workload apiVersion"))
        else return (err (new_error "This trait doesn't support the type"))

  -- no autoscaler, with the error of the patch that reports it
  unfoldable pub give_up : Trait → Error → Func Call (Option CronHpa × Option Error)
  give_up t e = do
    answer ← ask (patch_condition t (reconcile_error e)) (api.patch_condition t (reconcile_error e))
    return (none, answer)

  -- an autoscaler for the first resource of apps/v1
  unfoldable pub create_cron_hpa :
      Trait → List Unstructured → Func Call (Option CronHpa × Option Error)
  create_cron_hpa t [] = give_up t (new_error "cannot find resources")
  create_cron_hpa t (u ∷ us) =
      if str_eq u.api_version api.apps_api_version
      then elim (render_cron_hpa api t u) [
        | err e ↦ give_up t (wrapped e "cannot render cronHPA")
        | ok c ↦ return (some c, none)
      ]
      else create_cron_hpa t us

  -- the test of the loop of `cleanupResources`
  unfoldable pub is_kept : String → TypedReference → Bool
  is_kept uid r =
      not (str_eq r.kind cron_hpa_kind)
      || not (str_eq r.api_version api.cron_hpa_api_version)
      || str_eq r.uid uid

  unfoldable pub clean_up : Trait → String → TypedReference → Exec Call (Option Error) Unit
  clean_up t uid r = if is_kept uid r then pure tt else (do
    let k = key t.meta.namespace r.name
    found ← ask (get_cron_hpa k) (api.get_cron_hpa k)
    elim found [
      | err e ↦ if api.is_not_found e then pure tt else return (some e)
      | ok c ↦ (do
        answer ← ask (delete_cron_hpa c) (api.delete_cron_hpa c)
        on_error answer (λ e. return (some e)))
    ])

  unfoldable pub cleanup_resources : Trait → String → List TypedReference → Func Call (Option Error)
  cleanup_resources t uid [] = return none
  cleanup_resources t uid (r ∷ rs) = do clean_up t uid r; cleanup_resources t uid rs

  -- with the autoscaler that was rendered
  unfoldable pub apply : Trait → CronHpa → Func Call Reply
  apply t c = do
    answer ← ask (patch_cron_hpa c) (api.patch_cron_hpa c)
    made ← or_else answer (λ e. fail t (wrapped e "cannot apply the cronHPA"))
    cleaned ← call (cleanup_resources t made.uid t.resources)
    on_error cleaned (λ e. fail t (wrapped e "cannot clean up stale cronHPA"))
    let t' : Trait = record t { resources = made ∷ [] }
    written ← ask (update_status t') (api.update_status t')
    on_error written (λ e. return (record { result = api.wait_result; error = some e }))
    patched ← ask (patch_condition t' reconcile_success) (api.patch_condition t' reconcile_success)
    return (reply 0 patched)

  -- The patch of a nil autoscaler follows the nil pointer.
  unfoldable pub reconcile_trait : Trait → Func Call Reply
  reconcile_trait t = do
    (workload, result, error) ← call (fetch_workload t)
    on_error error (λ e. return (record { result = result; error = some e }))
    determined ← call (determine_workload_type workload)
    resources ← or_else determined (λ e. fail t (new_error "cannot find resources"))
    (rendered, failed) ← call (create_cron_hpa t resources)
    on_error failed (λ e. return (record { result = result; error = some e }))
    cron_hpa ← deref rendered
    apply t cron_hpa

  unfoldable pub reconcile : NamespacedName → Func Call Reply
  reconcile request = do
    found ← ask (get_trait request) (api.get_trait request)
    t ← or_else found (λ e. return (reply 0 (api.ignore_not_found e)))
    reconcile_trait t
