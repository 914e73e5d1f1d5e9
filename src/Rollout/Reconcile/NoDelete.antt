-- ===== src/Rollout/Reconcile/NoDelete.antt =====
-- The parts of the reconcile loop that delete no workload.
use kubevela_catalog.Base.{List, [], ◌∷◌, Option}
use kubevela_catalog.Base.Int.{ℤ}
use kubevela_catalog.Base.Exec.Keeps.{Keeps, AllCalls, Keeps-bind, Keeps-deref, keeps_rules}
use kubevela_catalog.K8s.{Error, Reply, Unstructured}
use kubevela_catalog.Rollout.{RolloutHistory, Trait, Deployment, Call, delete_workload, Api}
use kubevela_catalog.Rollout.Scale.{
  all_gone, is_scale_down_ready, update, scale_up, scale_up_gradually, scale_down,
  scale_down_gradually,
}
use kubevela_catalog.Rollout.Reconcile.{
  fail, fetch_workload, determine_workload_type, get_underlying_deployment, controller_revision,
  finish, init_deployment, init_deployments, nonempty, deployments_of, current_workload,
  reconcile_new, scale, both_ready,
}

abbrev pub IsNoDelete : Call → Type 0
IsNoDelete (delete_workload w) = ⊥
IsNoDelete _ = Unit

-- No workload was deleted.
abbrev pub NoDelete : List Call → Type 0
NoDelete = AllCalls IsNoDelete

module _ (api : Api) where
  fail-NoDelete : {A : Type 0} (t : Trait) (e : Error) → Keeps NoDelete (fail api {A = A} t e)
  unfolding fail
  fail-NoDelete t e = search (keeps_rules, tt)

  update-NoDelete : (d : Deployment) → Keeps NoDelete (update api d)
  unfolding update
  update-NoDelete d = search (keeps_rules, tt)

  scale_up-NoDelete : (t b : ℤ) (d : Deployment) → Keeps NoDelete (scale_up api t b d)
  unfolding scale_up
  scale_up-NoDelete t b d = search (keeps_rules, update-NoDelete)

  scale_down-NoDelete : (t b : ℤ) (d : Deployment) → Keeps NoDelete (scale_down api t b d)
  unfolding scale_down
  scale_down-NoDelete t b d = search (keeps_rules, update-NoDelete)

  scale_up_gradually-NoDelete :
      (ds : List Deployment) (t b : ℤ) → Keeps NoDelete (scale_up_gradually api ds t b)
  unfolding scale_up_gradually
  scale_up_gradually-NoDelete [] t b = search keeps_rules
  scale_up_gradually-NoDelete (d ∷ ds) t b =
      search (keeps_rules, scale_up-NoDelete, scale_up_gradually-NoDelete ds)

  scale_down_gradually-NoDelete :
      (ds : List Deployment) (t b : ℤ) → Keeps NoDelete (scale_down_gradually api ds t b)
  unfolding scale_down_gradually
  scale_down_gradually-NoDelete [] t b = search keeps_rules
  scale_down_gradually-NoDelete (d ∷ ds) t b =
      search (keeps_rules, scale_down-NoDelete, scale_down_gradually-NoDelete ds)

  pub scale-NoDelete :
      (t : Trait) (target : ℤ) (new old : List Deployment)
      → Keeps NoDelete (scale api t target new old)
  unfolding scale
  scale-NoDelete t target new old =
      search
        (keeps_rules, fail-NoDelete, scale_up_gradually-NoDelete, scale_down_gradually-NoDelete)
        depth 9

  fetch_workload-NoDelete : (t : Trait) → Keeps NoDelete (fetch_workload api t)
  unfolding fetch_workload
  fetch_workload-NoDelete t = search (keeps_rules, tt) depth 9

  determine_workload_type-NoDelete :
      (w : Option Unstructured) → Keeps NoDelete (determine_workload_type api w)
  unfolding determine_workload_type
  determine_workload_type-NoDelete w = search (keeps_rules, tt)

  get_underlying_deployment-NoDelete :
      (w : Option Unstructured) → Keeps NoDelete (get_underlying_deployment api w)
  unfolding get_underlying_deployment
  get_underlying_deployment-NoDelete w =
      search (keeps_rules, determine_workload_type-NoDelete) depth 9

  deployments_of-NoDelete :
      (t : Trait) (w : Option Unstructured) → Keeps NoDelete (deployments_of api t w)
  unfolding deployments_of
  deployments_of-NoDelete t w =
      search (keeps_rules, fail-NoDelete, get_underlying_deployment-NoDelete) depth 9

  pub finish-NoDelete :
      (t : Trait) (history : RolloutHistory → List RolloutHistory)
      → Keeps NoDelete (finish api t history)
  unfolding finish controller_revision
  finish-NoDelete t history = search (keeps_rules, fail-NoDelete, tt) depth 9

  init_deployment-NoDelete : (t : Trait) (d : Deployment) → Keeps NoDelete (init_deployment api t d)
  unfolding init_deployment
  init_deployment-NoDelete t d = search (keeps_rules, fail-NoDelete, tt) depth 12

  current_workload-NoDelete : (t : Trait) → Keeps NoDelete (current_workload api t)
  unfolding current_workload
  current_workload-NoDelete t = search (keeps_rules, fetch_workload-NoDelete) depth 9

  nonempty-NoDelete : (r : Reply) (ds : List Deployment) → Keeps NoDelete (nonempty api r ds)
  unfolding nonempty
  nonempty-NoDelete r [] = search keeps_rules
  nonempty-NoDelete r (d ∷ ds) = search keeps_rules

  init_deployments-NoDelete :
      (t : Trait) (ds : List Deployment) → Keeps NoDelete (init_deployments api t ds)
  unfolding init_deployments
  init_deployments-NoDelete t [] = search keeps_rules
  init_deployments-NoDelete t (d ∷ ds) =
      Keeps-bind _ _ (init_deployment-NoDelete t d) (λ _. init_deployments-NoDelete t ds)

  pub reconcile_new-NoDelete : (t : Trait) → Keeps NoDelete (reconcile_new api t)
  unfolding reconcile_new
  reconcile_new-NoDelete t =
      search
        (
          keeps_rules, current_workload-NoDelete, deployments_of-NoDelete, nonempty-NoDelete,
          init_deployments-NoDelete, finish-NoDelete,
        )
        depth 12

module _ {R : Type 0} where
  pub all_gone-NoDelete : (ds : List Deployment) → Keeps NoDelete (all_gone {R = R} ds)
  unfolding all_gone
  all_gone-NoDelete [] = search keeps_rules
  all_gone-NoDelete (d ∷ ds) =
      let rest = all_gone-NoDelete ds in
      Keeps-bind _ _ (Keeps-deref d.replicas) (λ replicas. search (keeps_rules, rest))

module _ (api : Api) (new : List Deployment) (target : ℤ) where
  pub both_ready-NoDelete : (old : List Deployment) → Keeps NoDelete (both_ready api target new old)
  unfolding both_ready is_scale_down_ready
  both_ready-NoDelete [] = search keeps_rules
  both_ready-NoDelete (d ∷ ds) = search (keeps_rules, all_gone-NoDelete)
