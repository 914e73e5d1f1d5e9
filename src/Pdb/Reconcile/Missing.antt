-- ===== src/Pdb/Reconcile/Missing.antt =====
-- What becomes of a trait without anything to protect.
use kubevela_catalog.Base.{List, [], ◌∷◌, ◌++◌, none, false, ◌≡◌, refl, str_eq}
use kubevela_catalog.Base.Exec.{ok, panic, stop, ◌>>=◌}
use kubevela_catalog.K8s.{new_error, NamespacedName, Unstructured, Condition, reconcile_error}
use kubevela_catalog.Pdb.{
  Trait, Resource, Call, get_trait, fetch_workload, fetch_children, patch_condition, Api,
}
use kubevela_catalog.Pdb.Reconcile.{
  give_up, create_pod_disruption_budget, reconcile_trait, reconcile,
}

-- No resource is of apps/v1.
abbrev pub NoneOfApps : Api → List Resource → Type 0
NoneOfApps api [] = Unit
NoneOfApps api (r ∷ rs) =
    (str_eq r.meta.api_version api.apps_api_version ≡ false) × NoneOfApps api rs

abbrev pub nothing_found : Condition
nothing_found = reconcile_error (new_error "cannot find resources")

module _ (api : Api) (t : Trait) where
  -- resources of other API versions are passed over
  pub create-append :
      (others rs : List Resource) (h : List Call)
      → NoneOfApps api others
      → create_pod_disruption_budget api t (others ++ rs) h
        ≡ create_pod_disruption_budget api t rs h
  unfolding create_pod_disruption_budget
  create-append [] rs h none_of_apps = refl
  create-append (o ∷ others) rs h (other, more) = rw other (create-append others rs h more)

  create-NoneOfApps :
      (rs : List Resource) (h : List Call)
      → NoneOfApps api rs
      → api.patch_condition t nothing_found h ≡ none
      → create_pod_disruption_budget api t rs h
        ≡ (stop (none, none), patch_condition t nothing_found ∷ h)
  unfolding create_pod_disruption_budget give_up ◌>>=◌
  create-NoneOfApps [] h none_of_apps patched = rw patched refl
  create-NoneOfApps (r ∷ rs) h (other, others) patched =
      rw other (create-NoneOfApps rs h others patched)

-- Whenever the workload's children have none of apps/v1 among them, and the server takes the patch
-- of the condition that says so, the reconcile loop panics: it goes on with a nil budget.
pub nothing_to_protect_panics :
    (api : Api) (request : NamespacedName) (t : Trait) (w : Unstructured) (rs : List Resource)
    → api.get_trait request [] ≡ ok t
    → ((h : List Call) → api.fetch_workload t h ≡ ok w)
    → ((h : List Call) → api.fetch_children w h ≡ ok rs)
    → NoneOfApps api rs
    → ((h : List Call) → api.patch_condition t nothing_found h ≡ none)
    → (reconcile api request []).0 ≡ panic
unfolding reconcile reconcile_trait ◌>>=◌
nothing_to_protect_panics api request t w rs got found children none_of_apps patched =
    let h1 : List Call = get_trait request ∷ [] in
    let h2 : List Call = fetch_workload t ∷ h1 in
    let h3 : List Call = fetch_children w ∷ h2 in
    rw (got, found h1, children h2)
      (rw (create-NoneOfApps api t rs h3 none_of_apps (patched h3)) refl)
