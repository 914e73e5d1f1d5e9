-- ===== src/CronHpa/Reconcile/Missing.antt =====
-- What becomes of a trait without anything to scale.
use kubevela_catalog.Base.{List, [], ◌∷◌, none, true, false, ◌≡◌, refl, arith, str_eq}
use kubevela_catalog.Base.Exec.{ok, panic, stop, ◌>>=◌}
use kubevela_catalog.K8s.{new_error, NamespacedName, key, Unstructured, Condition, reconcile_error}
use kubevela_catalog.CronHpa.{
  Trait, Call, get_trait, get_workload, fetch_children, patch_condition, Api,
}
use kubevela_catalog.CronHpa.Reconcile.{
  fetch_workload, determine_workload_type, give_up, create_cron_hpa, reconcile_trait, reconcile,
}

-- No resource is of apps/v1.
abbrev pub NoneOfApps : Api → List Unstructured → Type 0
NoneOfApps api [] = Unit
NoneOfApps api (u ∷ us) = (str_eq u.api_version api.apps_api_version ≡ false) × NoneOfApps api us

abbrev pub nothing_found : Condition
nothing_found = reconcile_error (new_error "cannot find resources")

module _ (api : Api) (t : Trait) where
  create-NoneOfApps :
      (us : List Unstructured) (h : List Call)
      → NoneOfApps api us
      → api.patch_condition t nothing_found h ≡ none
      → create_cron_hpa api t us h ≡ (stop (none, none), patch_condition t nothing_found ∷ h)
  unfolding create_cron_hpa give_up ◌>>=◌
  create-NoneOfApps [] h none_of_apps patched = rw patched refl
  create-NoneOfApps (u ∷ us) h (other, others) patched =
      rw other (create-NoneOfApps us h others patched)

-- Whenever the children of an OAM workload have none of apps/v1 among them, and the server takes
-- the patch of the condition that says so, the reconcile loop panics: it goes on with a nil
-- autoscaler.
pub nothing_to_scale_panics :
    (api : Api) (request : NamespacedName) (t : Trait) (w : Unstructured) (us : List Unstructured)
    → api.get_trait request [] ≡ ok t
    → api.get_workload t.spec.workload_reference
        (key t.meta.namespace t.spec.workload_reference.name)
        (get_trait request ∷ [])
      ≡ ok w
    → str_eq w.api_version api.oam_api_version ≡ true
    → ((h : List Call) → api.fetch_children w h ≡ ok us)
    → NoneOfApps api us
    → ((h : List Call) → api.patch_condition t nothing_found h ≡ none)
    → (reconcile api request []).0 ≡ panic
unfolding reconcile reconcile_trait fetch_workload determine_workload_type ◌>>=◌
nothing_to_scale_panics api request t w us got found oam children none_of_apps patched =
    let ref = t.spec.workload_reference in
    let h1 : List Call =
      get_workload ref (key t.meta.namespace ref.name) ∷ get_trait request ∷ [] in
    let h2 : List Call = fetch_children w ∷ h1 in
    ground (arith, children h1, create-NoneOfApps api t us h2 none_of_apps (patched h2))
