-- ===== src/Rollout/Reconcile.antt =====
-- The reconcile loop of the SimpleRolloutTrait
-- (legacy/traits/simplerollouttrait/controllers/simplerollouttrait_controller.go and helper.go).
pub mod Stability
pub mod NoDelete
pub mod Deletion
use kubevela_catalog.Base.{
  List, [], ◌∷◌, ◌++◌, Option, none, some, Bool, true, false, not, str_eq, if◌then◌else◌,
}
use kubevela_catalog.Base.Int.{ℤ, pos, eq_ℤ}
use kubevela_catalog.Base.Exec.{
  Exec, Func, Result, ok, err, pure, return, ask, deref, or_else, on_error, call, ◌>>=◌, ◌>>◌,
}
use kubevela_catalog.K8s.{
  Error, new_error, wrapped, CtrlResult, Reply, reply, NamespacedName, key, ref_eq, empty_reference,
  Unstructured, reconcile_error, reconcile_success,
}
use kubevela_catalog.Rollout.{
  RolloutHistory, Trait, Deployment, Call, get_trait, get_workload, fetch_workload_definition,
  get_controller_revision, update_deployment, delete_workload, update_status, patch_condition, Api,
}
use kubevela_catalog.Rollout.Scale.{
  is_scale_up_ready, is_scale_down_ready, scale_up_gradually, scale_down_gradually,
}

unfoldable pub is_newly_created : Trait → Bool
is_newly_created t =
    if ref_eq t.status.current_workload_reference empty_reference then true else false

unfoldable pub is_under_rollout : Trait → Bool
is_under_rollout t =
    if not (ref_eq t.status.current_workload_reference t.spec.workload_reference)
    then true
    else false

-- the status that both paths of the rollout end with
abbrev pub advance : Trait → List RolloutHistory → Trait
advance t history = record t {
  status = record {
    rollout_history = history;
    current_workload_reference = t.spec.workload_reference;
  };
}

-- ReconcileWaitWorkloadInit and ReconcileWaitWorkloadScale: five seconds
abbrev pub wait_workload : Reply
wait_workload = reply 5 none

module _ (api : Api) where
  -- return util.ReconcileWaitResult, util.PatchCondition(ctx, r, &trait, ReconcileError(e))
  unfoldable pub fail : {A : Type 0} → Trait → Error → Exec Call Reply A
  fail t e = do
    answer ← ask (patch_condition t (reconcile_error e)) (api.patch_condition t (reconcile_error e))
    return (record { result = api.wait_result; error = answer })

  -- The three results: on a failed lookup there is no workload, and the error is that of the patch.
  unfoldable pub fetch_workload :
      Trait → Func Call (Option Unstructured × CtrlResult × Option Error)
  fetch_workload t = do
    let ref = t.spec.workload_reference
    let wn = key t.namespace ref.name
    found ← ask (get_workload ref wn) (api.get_workload ref wn)
    workload ← or_else found (λ e. do
      let c = reconcile_error (wrapped e "cannot find workload")
      answer ← ask (patch_condition t c) (api.patch_condition t c)
      return (none, api.wait_result, answer))
    return (some workload, record { requeue_after = 0 }, none)

  -- DetermineWorkloadType; the method call on a nil workload panics
  unfoldable pub determine_workload_type :
      Option Unstructured → Func Call (Result Error (List Unstructured))
  determine_workload_type o = do
    w ← deref o
    if str_eq w.api_version api.oam_api_version
        then (do
          found ← ask (fetch_workload_definition w) (api.fetch_workload_definition w)
          return found)
        else if str_eq w.api_version api.apps_api_version
        then return (ok (w ∷ []))
        else if str_eq w.api_version ""
        then return (err (new_error "failed to get the workload APIVersion"))
        else return (err (new_error "This trait doesn't support this APIVersion"))

  -- the loop of `getUnderlyingDeployment`
  unfoldable pub decode_deployments : List Unstructured → Result Error (List Deployment)
  decode_deployments [] = ok []
  decode_deployments (r ∷ rs) =
      let rest = decode_deployments rs in
      if not (str_eq (api.gvk_string r) "apps/v1, Kind=Deployment")
      then rest
      else elim (api.decode_deployment r) [
        | ok d ↦ elim rest [ ok ds ↦ ok (d ∷ ds) | err e ↦ err e ]
        | err e ↦ err e
      ]

  unfoldable pub get_underlying_deployment :
      Option Unstructured → Func Call (Result Error (List Deployment))
  get_underlying_deployment o = do
    found ← call (determine_workload_type o)
    resources ← or_else found (λ e. return (err e))
    return (decode_deployments resources)

  unfoldable pub controller_revision : Trait → Exec Call Reply (Result Error RolloutHistory)
  controller_revision t = do
    let wn = key t.namespace t.spec.workload_reference.name
    ask (get_controller_revision wn) (api.get_controller_revision wn)

  -- the end of both paths: the revision is recorded, and the reference moves
  unfoldable pub finish : Trait → (RolloutHistory → List RolloutHistory) → Func Call Reply
  finish t history = do
    found ← controller_revision t
    cr ← or_else found (λ e. fail t (wrapped e "fail to get controller revision"))
    let t' = advance t (history cr)
    answer ← ask (update_status t') (api.update_status t')
    stored ← or_else answer (λ e. fail t' (wrapped e "fail to update rollout status"))
    patched ←
        ask (patch_condition stored reconcile_success)
          (api.patch_condition stored reconcile_success)
    return (reply 0 patched)

  -- one round of the loop over the deployments of a new workload
  pub init_deployment : Trait → Deployment → Exec Call Reply Unit
  init_deployment t d = do
    replicas ← deref d.replicas
    if not (eq_ℤ d.available_replicas replicas) then return wait_workload else (do
      target ← deref t.spec.replica
      if eq_ℤ d.available_replicas target then pure tt else (do
        let d' = record d { replicas = t.spec.replica }
        answer ← ask (update_deployment d') (api.update_deployment d')
        on_error answer (λ e. fail t (wrapped e "failed to update deployment"))))

  pub init_deployments : Trait → List Deployment → Exec Call Reply Unit
  init_deployments t [] = pure tt
  init_deployments t (d ∷ ds) = do init_deployment t d; init_deployments t ds

  -- `if len(underlyingDeployments) == 0 { return … }`
  unfoldable pub nonempty : Reply → List Deployment → Exec Call Reply Unit
  nonempty r [] = return r
  nonempty r (d ∷ ds) = pure tt

  unfoldable pub deployments_of : Trait → Option Unstructured → Exec Call Reply (List Deployment)
  deployments_of t w = do
    found ← call (get_underlying_deployment w)
    or_else found (λ e. fail t (new_error "cannot find resources"))

  unfoldable pub current_workload : Trait → Exec Call Reply (Option Unstructured)
  current_workload t = do
    (workload, result, error) ← call (fetch_workload t)
    on_error error (λ e. return (record { result = result; error = some e }))
    pure workload

  unfoldable pub reconcile_new : Trait → Func Call Reply
  reconcile_new t = do
    workload ← current_workload t
    deployments ← deployments_of t workload
    nonempty wait_workload deployments
    init_deployments t deployments
    finish t (λ cr. cr ∷ [])

  -- both workloads are scaled: the old one is deleted
  unfoldable pub complete : Trait → Unstructured → Func Call Reply
  complete t old = do
    answer ← ask (delete_workload old) (api.delete_workload old)
    on_error answer (λ e. fail t (new_error "failed to delete wrokload"))
    finish t (λ cr. t.status.rollout_history ++ cr ∷ [])

  unfoldable pub scale : Trait → ℤ → List Deployment → List Deployment → Func Call Reply
  scale t target new old = do
    batch ← deref t.spec.batch
    up ← call (scale_up_gradually api new target batch.int_val)
    on_error up (λ e. fail t (wrapped e "failed to scale up new workload"))
    max_unavailable ← deref t.spec.max_unavailable
    down ← call (scale_down_gradually api old (pos 0) max_unavailable.int_val)
    on_error down (λ e. fail t (wrapped e "failed to scale down new workload"))
    return wait_workload

  unfoldable pub both_ready : ℤ → List Deployment → List Deployment → Exec Call Reply Bool
  both_ready target new old =
      if is_scale_up_ready new target then is_scale_down_ready old else pure false

  -- with the deployments of both workloads at hand
  unfoldable pub advance_rollout :
      Trait → Unstructured → List Deployment → List Deployment → Func Call Reply
  advance_rollout t workload new old = do
    target ← deref t.spec.replica
    ready ← both_ready target new old
    if ready then complete t workload else scale t target new old

  unfoldable pub reconcile_rollout : Trait → Func Call Reply
  reconcile_rollout t = do
    workload ← current_workload t
    new ← deployments_of t workload
    nonempty (record { result = api.wait_result; error = none }) new
    let ref = t.status.current_workload_reference
    let wn = key t.namespace ref.name
    found ← ask (get_workload ref wn) (api.get_workload ref wn)
    old_workload ← or_else found (λ e. return (record { result = api.wait_result; error = some e }))
    old ← deployments_of t (some old_workload)
    advance_rollout t old_workload new old

  unfoldable pub reconcile : NamespacedName → Func Call Reply
  reconcile request = do
    found ← ask (get_trait request) (api.get_trait request)
    t ← or_else found (λ e. return (reply 0 (api.ignore_not_found e)))
    if is_newly_created t
        then reconcile_new t
        else if is_under_rollout t
        then reconcile_rollout t
        else return (reply 0 none)
