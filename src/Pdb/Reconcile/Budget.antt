-- ===== src/Pdb/Reconcile/Budget.antt =====
-- The budget that a run of the reconcile loop applies.
use kubevela_catalog.Base.{List, [], ◌∷◌, ◌++◌, none, some, true, ◌≡◌, refl, str_eq}
use kubevela_catalog.Base.Exec.{ok, stop, ◌>>=◌}
use kubevela_catalog.K8s.{
  Labels, reply, NamespacedName, TypedReference, Unstructured, reconcile_success,
}
use kubevela_catalog.Pdb.{
  Trait, Resource, Object, PodDisruptionBudget, Call, get_trait, fetch_workload, fetch_children,
  patch_budget, update_status, patch_condition, Api,
}
use kubevela_catalog.Pdb.Selector.{lookup}
use kubevela_catalog.Pdb.Selector.Written.{HasSelector, get_label_selector-labels_json}
use kubevela_catalog.Pdb.Reconcile.{
  budget_for, pod_disruption_budget_injector, render_pod_disruption_budget,
  create_pod_disruption_budget, apply, reconcile_trait, reconcile,
}
use kubevela_catalog.Pdb.Reconcile.Missing.{NoneOfApps, create-append}

module _ (api : Api) (t : Trait) (ls : Labels) (made : TypedReference) where
  -- the budget that selects the labels, with the bounds of the trait
  abbrev pub budget : PodDisruptionBudget
  budget = record {
    name = t.meta.name;
    namespace = t.meta.namespace;
    labels = ("poddisruptionbudgettrait.oam.crossplane.io", t.meta.uid) ∷ [];
    min_available = t.spec.min_available;
    max_unavailable = t.spec.max_unavailable;
    selector = some (record { match_labels = some ls; match_expressions = none });
  }

  abbrev pub recorded : Trait
  recorded = record t { resources = made ∷ [] }

  -- the server takes the budget and the status, and gives the budget the reference `made`
  pub record IsWilling : Type 0 where
    pub owns : api.own t budget ≡ ok budget
    pub applies : (h : List Call) → api.patch_budget budget h ≡ ok made
    pub updates : (h : List Call) → api.update_status recorded h ≡ ok recorded
    pub patches : (h : List Call) → api.patch_condition recorded reconcile_success h ≡ none

  create_lem :
      (res : Resource) (rest : List Resource) (selector : Object) (h : List Call)
      → IsWilling
      → str_eq res.meta.api_version api.apps_api_version ≡ true
      → HasSelector res.content selector ls
      → lookup "matchExpressions" selector ≡ none
      → create_pod_disruption_budget api t (res ∷ rest) h ≡ (stop (some budget, none), h)
  unfolding create_pod_disruption_budget render_pod_disruption_budget pod_disruption_budget_injector
      budget_for ◌>>=◌
  create_lem res rest selector h willing apps has no_expressions = rw apps (
      rw (get_label_selector-labels_json res.content selector ls h has no_expressions)
        (rw willing.owns refl))

  apply_lem :
      (h : List Call)
      → IsWilling
      → apply api t budget h ≡ (
        stop (reply 0 none),
        patch_condition recorded reconcile_success
            ∷ update_status recorded
            ∷ patch_budget budget
            ∷ h,
      )
  unfolding apply ◌>>=◌
  apply_lem h willing =
      rw
        (
          willing.applies h,
          willing.updates (patch_budget budget ∷ h),
          willing.patches (update_status recorded ∷ patch_budget budget ∷ h),
        )
        refl

  -- If the server takes what is written and the first child of apps/v1 has a selector of labels
  -- alone, the reconcile loop applies one budget, which selects those labels and has the trait's
  -- bounds, name and namespace, records it as the only resource of the trait, and reports a success.
  pub budget_selects_labels :
      (request : NamespacedName) (w : Unstructured) (others rest : List Resource) (res : Resource)
      (selector : Object)
      → IsWilling
      → api.get_trait request [] ≡ ok t
      → ((h : List Call) → api.fetch_workload t h ≡ ok w)
      → ((h : List Call) → api.fetch_children w h ≡ ok (others ++ res ∷ rest))
      → NoneOfApps api others
      → str_eq res.meta.api_version api.apps_api_version ≡ true
      → HasSelector res.content selector ls
      → lookup "matchExpressions" selector ≡ none
      → reconcile api request [] ≡ (
        stop (reply 0 none),
        patch_condition recorded reconcile_success
            ∷ update_status recorded
            ∷ patch_budget budget
            ∷ fetch_children w
            ∷ fetch_workload t
            ∷ get_trait request
            ∷ [],
      )
  unfolding reconcile reconcile_trait ◌>>=◌
  budget_selects_labels request w others rest res selector willing got found children none_of_apps
        apps has no_expressions =
      let h1 : List Call = get_trait request ∷ [] in
      let h2 : List Call = fetch_workload t ∷ h1 in
      let h3 : List Call = fetch_children w ∷ h2 in
      rw (got, found h1, children h2)
        (rw (create-append api t others (res ∷ rest) h3 none_of_apps) (
          rw (create_lem res rest selector h3 willing apps has no_expressions)
            (rw (apply_lem h3 willing) refl)))
