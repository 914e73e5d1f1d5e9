-- ===== src/Pdb/Reconcile.antt =====
-- The reconcile loop of the PodDisruptionBudgetTrait
-- (legacy/traits/poddisruptionbudgettrait/controllers).
pub mod Missing
pub mod Budget
use kubevela_catalog.Base.{String, List, [], ◌∷◌, Option, none, some, str_eq, if◌then◌else◌}
use kubevela_catalog.Base.Exec.{
  Exec, Func, Result, ok, err, return, ask, deref, or_else, on_error, call, ◌>>=◌, ◌>>◌,
}
use kubevela_catalog.K8s.{
  Error, new_error, wrapped, Reply, reply, NamespacedName, reconcile_error, reconcile_success,
  TypedReference,
}
use kubevela_catalog.Pdb.{
  Trait, Resource, PodDisruptionBudget, LabelSelector, Call, get_trait, fetch_workload,
  fetch_children, patch_budget, update_status, patch_condition, Api,
}
use kubevela_catalog.Pdb.Selector.{get_label_selector}

abbrev pub label_key : String
label_key = "poddisruptionbudgettrait.oam.crossplane.io"

-- the budget that PodDisruptionBudgetInjector returns
unfoldable pub budget_for : Trait → Option LabelSelector → PodDisruptionBudget
budget_for t selector = record {
  name = t.meta.name;
  namespace = t.meta.namespace;
  labels = (label_key, t.meta.uid) ∷ [];
  min_available = t.spec.min_available;
  max_unavailable = t.spec.max_unavailable;
  selector = selector;
}

unfoldable pub pod_disruption_budget_injector : Trait → Resource → Func Call PodDisruptionBudget
pod_disruption_budget_injector t res = do
  selector ← call (get_label_selector res.content)
  return (budget_for t selector)

module _ (api : Api) where
  unfoldable pub fail : {A : Type 0} → Trait → Error → Exec Call Reply A
  fail t e = do
    answer ← ask (patch_condition t (reconcile_error e)) (api.patch_condition t (reconcile_error e))
    return (record { result = api.wait_result; error = answer })

  unfoldable pub render_pod_disruption_budget :
      Trait → Resource → Func Call (Result Error PodDisruptionBudget)
  render_pod_disruption_budget t res = do
    pdb ← call (pod_disruption_budget_injector t res)
    return (api.own t pdb)

  -- `return nil, PatchCondition(…)`: a nil budget with the error of the patch, which may be nil
  unfoldable pub give_up :
      {A : Type 0} → Trait → Error → Exec Call (Option PodDisruptionBudget × Option Error) A
  give_up t e = do
    answer ← ask (patch_condition t (reconcile_error e)) (api.patch_condition t (reconcile_error e))
    return (none, answer)

  unfoldable pub create_pod_disruption_budget :
      Trait → List Resource → Func Call (Option PodDisruptionBudget × Option Error)
  create_pod_disruption_budget t [] = give_up t (new_error "cannot find resources")
  create_pod_disruption_budget t (res ∷ rest) =
      if str_eq res.meta.api_version api.apps_api_version
      then (do
        rendered ← call (render_pod_disruption_budget t res)
        pdb ← or_else rendered (λ e. give_up t (wrapped e "cannot render podDisruptionBudget"))
        return (some pdb, none))
      else create_pod_disruption_budget t rest

  unfoldable pub apply : Trait → PodDisruptionBudget → Func Call Reply
  apply t pdb = do
    answer ← ask (patch_budget pdb) (api.patch_budget pdb)
    made ← or_else answer (λ e. fail t (wrapped e "cannot apply the podDisruptionBudget"))
    let t1 : Trait = record t { resources = made ∷ [] }
    written ← ask (update_status t1) (api.update_status t1)
    t2 ← or_else written (λ e. return (record { result = api.wait_result; error = some e }))
    patched ← ask (patch_condition t2 reconcile_success) (api.patch_condition t2 reconcile_success)
    return (reply 0 patched)

  unfoldable pub reconcile_trait : Trait → Func Call Reply
  reconcile_trait t = do
    found ← ask (fetch_workload t) (api.fetch_workload t)
    workload ← or_else found (λ e. fail t (wrapped e "cannot find workload"))
    answer ← ask (fetch_children workload) (api.fetch_children workload)
    resources ← or_else answer (λ e. fail t (new_error api.err_fetch_child_resources))
    (rendered, failed) ← call (create_pod_disruption_budget t resources)
    on_error failed (λ e. return (record { result = api.wait_result; error = some e }))
    pdb ← deref rendered
    apply t pdb

  unfoldable pub reconcile : NamespacedName → Func Call Reply
  reconcile request = do
    found ← ask (get_trait request) (api.get_trait request)
    t ← or_else found (λ e. return (reply 0 (api.ignore_not_found e)))
    reconcile_trait t
