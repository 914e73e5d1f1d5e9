-- ===== src/Rollout/Reconcile/Stability.antt =====
-- The paths of the reconcile loop that touch nothing, and the path on which it panics.
use kubevela_catalog.Base.{List, [], ◌∷◌, none, true, false, ◌≡◌, ◌⊎◌, inl, inr, arith, Bool-cases}
use kubevela_catalog.Base.Exec.{ok, err, stop, panic, ◌>>=◌}
use kubevela_catalog.K8s.{Error, wrapped, reply, NamespacedName, key, Condition, reconcile_error}
use kubevela_catalog.Rollout.{Trait, Call, get_trait, get_workload, Api}
use kubevela_catalog.Rollout.Reconcile.{
  is_newly_created, is_under_rollout, fetch_workload, determine_workload_type,
  get_underlying_deployment, deployments_of, current_workload, reconcile_new, reconcile_rollout,
  reconcile,
}

-- A trait that is not new and whose status names the workload of its spec is left alone: the
-- only call is the one that reads the trait, and nothing is requeued.
pub reconcile_stable :
    (api : Api) (request : NamespacedName) (t : Trait)
    → api.get_trait request [] ≡ ok t
    → is_newly_created t ≡ false
    → is_under_rollout t ≡ false
    → reconcile api request [] ≡ (stop (reply 0 none), get_trait request ∷ [])
unfolding reconcile ◌>>=◌
reconcile_stable api request t got old same = ground arith

abbrev pub workload_key : Trait → NamespacedName
workload_key t = key t.namespace t.spec.workload_reference.name

abbrev pub missing_condition : Error → Condition
missing_condition e = reconcile_error (wrapped e "cannot find workload")

module _ (api : Api) (t : Trait) (e : Error) where
  -- The server has no workload for the trait, and takes the patch of the condition that says so.
  pub record IsMissing (h : List Call) : Type 0 where
    pub missing : api.get_workload t.spec.workload_reference (workload_key t) h ≡ err e
    pub patched :
        api.patch_condition t
          (missing_condition e)
          (get_workload t.spec.workload_reference (workload_key t) ∷ h)
        ≡ none

  reconcile_new_panics : (h : List Call) → IsMissing h → (reconcile_new api t h).0 ≡ panic
  unfolding reconcile_new current_workload fetch_workload deployments_of get_underlying_deployment
      determine_workload_type ◌>>=◌
  reconcile_new_panics h m = ground arith

  reconcile_rollout_panics : (h : List Call) → IsMissing h → (reconcile_rollout api t h).0 ≡ panic
  unfolding reconcile_rollout current_workload fetch_workload deployments_of
      get_underlying_deployment determine_workload_type ◌>>=◌
  reconcile_rollout_panics h m = ground arith

-- Whenever the workload of a new trait, or of a trait under rollout, is missing and the server
-- takes the patch of the condition, the reconcile loop panics.
pub reconcile_panics :
    (api : Api) (request : NamespacedName) (t : Trait) (e : Error)
    → api.get_trait request [] ≡ ok t
    → (is_newly_created t ≡ true) ⊎ (is_under_rollout t ≡ true)
    → IsMissing api t e (get_trait request ∷ [])
    → (reconcile api request []).0 ≡ panic
unfolding reconcile ◌>>=◌
reconcile_panics api request t e got active m = elim (Bool-cases (is_newly_created t)) [
  | inl new ↦ ground (arith, reconcile_new_panics api t e (get_trait request ∷ []) m)
  | inr old ↦ ground (arith, reconcile_rollout_panics api t e (get_trait request ∷ []) m)
]
