-- ===== src/Hpa/Reconcile.antt =====
-- The reconcile loop of the HorizontalPodAutoscalerTrait
-- (legacy/traits/hpatrait/controllers/horizontalpodautoscalertrait_controller.go, and the rest of
-- the helper file beside it).
pub mod Cleanup
use kubevela_catalog.Base.{
  String, List, [], ◌∷◌, ◌++◌, Option, none, some, Bool, true, false, not, ◌&&◌, str_eq,
  if◌then◌else◌,
}
use kubevela_catalog.Base.Exec.{
  Exec, Func, Result, ok, err, pure, return, ask, deref, or_else, on_error, call, ◌>>=◌, ◌>>◌,
}
use kubevela_catalog.K8s.{
  Error, new_error, wrapped, CtrlResult, Reply, reply, NamespacedName, key, TypedReference,
  Unstructured, reconcile_error, reconcile_success,
}
use kubevela_catalog.Hpa.{
  Trait, Hpa, Call, get_trait, get_workload, fetch_workload_definition, patch_hpa, update_status,
  get_hpa, delete_hpa, patch_condition, Api,
}
use kubevela_catalog.Hpa.Render.{kind_hpa, render_hpa}

abbrev pub with_resources : Trait → List TypedReference → Trait
with_resources t resources = record t { resources = resources }

-- the inner loop of `cleanUpLegacyHPAs`
unfoldable pub has_uid : String → List String → Bool
has_uid uid [] = false
has_uid uid (i ∷ is) = if str_eq i uid then true else has_uid uid is

module _ (api : Api) where
  unfoldable pub fail : {A : Type 0} → Trait → Error → Exec Call Reply A
  fail t e = do
    answer ← ask (patch_condition t (reconcile_error e)) (api.patch_condition t (reconcile_error e))
    return (record { result = api.wait_result; error = answer })

  unfoldable pub fetch_workload :
      Trait → Func Call (Option Unstructured × CtrlResult × Option Error)
  fetch_workload t = do
    let ref = t.spec.workload_reference
    let wn = key t.meta.namespace ref.name
    found ← ask (get_workload ref wn) (api.get_workload ref wn)
    workload ← or_else found (λ e. do
      let c = reconcile_error (wrapped e "cannot find workload")
      answer ← ask (patch_condition t c) (api.patch_condition t c)
      return (none, api.wait_result, answer))
    return (some workload, record { requeue_after = 0 }, none)

  -- the method call on a nil workload panics
  unfoldable pub determine_workload_type :
      Option Unstructured → Func Call (Result Error (List Unstructured))
  determine_workload_type o = do
    w ← deref o
    if str_eq w.api_version api.oam_api_version
        then (do
          found ← ask (fetch_workload_definition w) (api.fetch_workload_definition w)
          return found)
        else if str_eq w.api_version api.apps_api_version
        then return (ok (w ∷ []))
        else if str_eq w.api_version ""
        then return (err (new_error "failed to get the workload APIVersion"))
        else return (err (new_error "This trait doesn't support this APIVersion"))

  -- The server-side apply of each autoscaler, which is recorded in the status at once. The result
  -- is the trait with its status, and the identities of the autoscalers.
  unfoldable pub apply_hpas : Trait → List String → List Hpa → Exec Call Reply (Trait × List String)
  apply_hpas t uids [] = pure (t, uids)
  apply_hpas t uids (hpa ∷ hpas) = do
    answer ← ask (patch_hpa hpa) (api.patch_hpa hpa)
    made ← or_else answer (λ e. fail t (wrapped e "cannot apply the HPA"))
    let t1 : Trait = with_resources t (t.resources ++ made ∷ [])
    written ← ask (update_status t1) (api.update_status t1)
    t2 ← or_else written (λ e. return (record { result = api.wait_result; error = some e }))
    apply_hpas t2 (uids ++ made.uid ∷ []) hpas

  unfoldable pub is_hpa : TypedReference → Bool
  is_hpa r = str_eq r.kind kind_hpa && str_eq r.api_version api.group_version_hpa

  -- one round of the loop of `cleanUpLegacyHPAs`
  unfoldable pub clean_up : Trait → List String → TypedReference → Exec Call (Option Error) Unit
  clean_up t uids r =
      if is_hpa r && not (has_uid r.uid uids)
      then (do
        let k = key t.meta.namespace r.name
        found ← ask (get_hpa k) (api.get_hpa k)
        elim found [
          | err e ↦ if api.is_not_found e then pure tt else return (some e)
          | ok hpa ↦ (do
            answer ← ask (delete_hpa hpa) (api.delete_hpa hpa)
            on_error answer (λ e. return (some e)))
        ])
      else pure tt

  unfoldable pub clean_up_legacy_hpas :
      Trait → List String → List TypedReference → Func Call (Option Error)
  clean_up_legacy_hpas t uids [] = return none
  clean_up_legacy_hpas t uids (r ∷ rs) = do clean_up t uids r; clean_up_legacy_hpas t uids rs

  -- `if len(hpas) == 0 { return … }`
  unfoldable pub some_hpas : List Hpa → Exec Call Reply Unit
  some_hpas [] = return (record {
    result = api.wait_result;
    error = some (new_error "cannot find available resources");
  })
  some_hpas (hpa ∷ hpas) = pure tt

  unfoldable pub finish : Trait × List String → Func Call Reply
  finish (t, uids) = do
    cleaned ← call (clean_up_legacy_hpas t uids t.resources)
    on_error cleaned (λ e. fail t (wrapped e "cannot clean up HPA"))
    answer ← ask (patch_condition t reconcile_success) (api.patch_condition t reconcile_success)
    return (reply 0 answer)

  unfoldable pub apply : Trait → List Hpa → Func Call Reply
  apply t hpas = do applied ← apply_hpas (with_resources t []) [] hpas; finish applied

  unfoldable pub reconcile_trait : Trait → Func Call Reply
  reconcile_trait t = do
    (workload, result, error) ← call (fetch_workload t)
    on_error error (λ e. return (record { result = result; error = some e }))
    determined ← call (determine_workload_type workload)
    resources ← or_else determined (λ e. fail t (new_error "cannot find resources"))
    hpas ← or_else (render_hpa api t resources) (λ e. return (reply 0 (some e)))
    some_hpas hpas
    apply t hpas

  unfoldable pub reconcile : NamespacedName → Func Call Reply
  reconcile request = do
    found ← ask (get_trait request) (api.get_trait request)
    t ← or_else found (λ e. return (reply 0 (api.ignore_not_found e)))
    reconcile_trait t
