-- ===== src/Rollout/Reconcile/Deletion.antt =====
-- When the old workload is deleted, and what a finished rollout leaves behind.
use kubevela_catalog.Base.{
  List, [], ◌∷◌, ◌++◌, Option, none, some, Bool, true, false, ◌≡◌, ◌≢◌, refl, ◌∙◌, arith,
  str_eq_refl, Bool-cases, str_eq_cases, inl, inr, ◌⊎◌, if◌then◌else◌,
}
use kubevela_catalog.Base.Int.{ℤ, pos}
use kubevela_catalog.Base.Exec.{Ctl, next, stop, panic, continue, ok, deref, ◌>>=◌}
use kubevela_catalog.Rollout.Reconcile.Stability.{reconcile_stable}
use kubevela_catalog.K8s.{reply, NamespacedName, Reply, Unstructured, key, reconcile_success}
use kubevela_catalog.Rollout.{
  RolloutHistory, Trait, Deployment, Call, get_trait, get_controller_revision, delete_workload,
  update_status, patch_condition, Api,
}
use kubevela_catalog.Rollout.Scale.{is_scale_up_ready, all_gone, is_scale_down_ready}
use kubevela_catalog.Rollout.Reconcile.{
  controller_revision, finish, reconcile_new, complete, scale, both_ready, advance_rollout,
  is_under_rollout, is_newly_created, reconcile,
}
use kubevela_catalog.Rollout.Reconcile.NoDelete.{
  NoDelete, scale-NoDelete, both_ready-NoDelete, reconcile_new-NoDelete,
}

-- Every deployment has a count of replicas, which is 0, and none is ready.
abbrev pub AllGone : List Deployment → Type 0
AllGone [] = Unit
AllGone (d ∷ ds) = (d.replicas ≡ some (pos 0)) × (d.ready_replicas ≡ pos 0) × AllGone ds

module _ {R : Type 0} where
  -- What the test of the old deployments says when it says yes.
  all_gone_sound :
      (ds : List Deployment) (h : List Call) → (all_gone {R = R} ds h).0 ≡ next true → AllGone ds
  unfolding all_gone ◌>>=◌
  all_gone_sound [] h e = tt
  all_gone_sound (d ∷ ds) h e = ground (arith, all_gone_sound ds h)

module _ (api : Api) (new : List Deployment) (target : ℤ) where
  pub both_ready_sound :
      (old : List Deployment) (h : List Call)
      → (both_ready api target new old h).0 ≡ next true
      → (is_scale_up_ready new target ≡ true) × AllGone old × (old ≢ [])
  unfolding both_ready is_scale_down_ready ◌>>=◌
  both_ready_sound [] h e = ground arith
  both_ready_sound (d ∷ ds) h e = elim (Bool-cases (is_scale_up_ready new target)) [
    | inl up ↦ (up, all_gone_sound (d ∷ ds) h (rw (up, both_ready) at e), λ p. cc)
    | inr not_up ↦ absurd (cc (rw (not_up, both_ready) at e))
  ]

-- Both ends of the rollout are reached: every deployment of the new workload has the target
-- number of ready replicas, and the old workload has deployments, all without replicas.
pub record IsScaled (t : Trait) (new old : List Deployment) : Type 0 where
  pub target : ℤ
  pub wanted : t.spec.replica ≡ some target
  pub up : is_scale_up_ready new target ≡ true
  pub down : AllGone old
  pub some_old : old ≢ []

module _ (api : Api) (t : Trait) (w : Unstructured) (new old : List Deployment) where
  after_test :
      (target : ℤ) (r : Ctl Reply Bool) (h : List Call)
      → NoDelete h
      → (r ≡ next true → IsScaled t new old)
      → NoDelete
          (continue r (λ ready. if ready then complete api t w else scale api t target new old) h).1
        ⊎ IsScaled t new old
  after_test target (next true) h clean scaled = inr (scaled refl)
  after_test target (next false) h clean scaled =
      inl ((scale-NoDelete api t target new old).at h clean)
  after_test target (stop r) h clean scaled = inl clean
  after_test target panic h clean scaled = inl clean

  with_target :
      (target : ℤ)
      → t.spec.replica ≡ some target
      → NoDelete
          ((both_ready api target new old >>= λ ready.
              if ready then complete api t w else scale api t target new old)
            []).1
        ⊎ IsScaled t new old
  unfolding ◌>>=◌
  with_target target wanted =
      after_test target _ _ ((both_ready-NoDelete api new target old).at [] tt) λ yes_ready.
        let (up, down, some_old) = both_ready_sound api new target old [] yes_ready in
        record { target = target; wanted = wanted; up = up; down = down; some_old = some_old }

  with_replica :
      (o : Option ℤ)
      → t.spec.replica ≡ o
      → NoDelete
          ((deref o >>= λ target. both_ready api target new old >>= λ ready.
              if ready then complete api t w else scale api t target new old)
            []).1
        ⊎ IsScaled t new old
  unfolding ◌>>=◌
  with_replica none e = inl tt
  with_replica (some target) e = with_target target e

-- The last part of a rollout deletes no workload, unless both ends of the rollout are reached:
-- the new deployments are there and all have the target number of ready replicas, and the old
-- workload has deployments, each with 0 replicas and 0 ready ones.
pub advance_rollout-IsScaled :
    (api : Api) (t : Trait) (w : Unstructured) (new old : List Deployment)
    → NoDelete (advance_rollout api t w new old []).1 ⊎ IsScaled t new old
unfolding advance_rollout
advance_rollout-IsScaled api t w new old = with_replica api t w new old t.spec.replica refl

-- A new trait never has a workload deleted.
pub reconcile_new_deletes_nothing : (api : Api) (t : Trait) → NoDelete (reconcile_new api t []).1
reconcile_new_deletes_nothing api t = (reconcile_new-NoDelete api t).at [] tt

-- The server takes the deletion of the old workload, gives the revision `cr`, and takes every
-- status as it is written.
pub record Completes (api : Api) (t : Trait) (w : Unstructured) (cr : RolloutHistory)
    (h : List Call) : Type 0 where
  pub deleted : api.delete_workload w h ≡ none
  pub revision :
      api.get_controller_revision
        (key t.namespace t.spec.workload_reference.name)
        (delete_workload w ∷ h)
      ≡ ok cr
  pub written : (t' : Trait) (h' : List Call) → api.update_status t' h' ≡ ok t'

-- the trait with one more entry in the history, and the new workload as the current one
abbrev pub finished : Trait → RolloutHistory → Trait
finished t cr = record t {
  status = record {
    rollout_history = t.status.rollout_history ++ cr ∷ [];
    current_workload_reference = t.spec.workload_reference;
  };
}

not_under_rollout : (t : Trait) (cr : RolloutHistory) → is_under_rollout (finished t cr) ≡ false
unfolding is_under_rollout
not_under_rollout t cr =
    let ref = t.spec.workload_reference in
    simp
      (str_eq_refl ref.api_version, str_eq_refl ref.kind, str_eq_refl ref.name, str_eq_refl ref.uid)

not_newly_created :
    (t : Trait) (cr : RolloutHistory)
    → t.spec.workload_reference.name ≢ ""
    → is_newly_created (finished t cr) ≡ false
unfolding is_newly_created
not_newly_created t cr named = elim (str_eq_cases t.spec.workload_reference.name "") [
  | inl (e, same) ↦ absurd (named same)
  | inr (e, differs) ↦ ground (arith, e)
]

complete_calls :
    (api : Api) (t : Trait) (w : Unstructured) (cr : RolloutHistory)
    → Completes api t w cr []
    → (complete api t w []).1
      ≡ patch_condition (finished t cr) reconcile_success
        ∷ update_status (finished t cr)
        ∷ get_controller_revision (key t.namespace t.spec.workload_reference.name)
        ∷ delete_workload w
        ∷ []
unfolding complete finish controller_revision ◌>>=◌
complete_calls api t w cr c =
    let h : List Call =
      get_controller_revision (key t.namespace t.spec.workload_reference.name)
      ∷ delete_workload w
      ∷ [] in
    rw (c.deleted, c.revision) (rw (c.written (finished t cr) h) refl)

ready_completes :
    (api : Api) (t : Trait) (w : Unstructured) (new old : List Deployment) (o : Option ℤ)
    (target : ℤ)
    → o ≡ some target
    → both_ready api target new old [] ≡ (next true, [])
    → ((deref o >>= λ target. both_ready api target new old >>= λ ready.
          if ready then complete api t w else scale api t target new old)
        []).1
      ≡ (complete api t w []).1
unfolding ◌>>=◌
ready_completes api t w new old none target e ready = absurd (cc e)
ready_completes api t w new old (some v) target e ready =
    let same : v ≡ target = cc e in rw same (rw ready refl)

-- If both ends of a rollout are reached, the new workload has a name, and the server takes the
-- deletion of the old workload, has the revision and takes the status as it is, then the rollout is
-- done once: the calls that it makes are the deletion, the lookup of the revision, the write of the
-- trait with that revision at the end of its history and the new workload as the current one, and
-- the patch of its condition; and when the reconcile loop runs on the trait that was written,
-- whatever the server answers then, it only reads the trait and is not called again.
pub completed_once :
    (api later : Api) (request : NamespacedName) (t : Trait) (w : Unstructured)
    (cr : RolloutHistory) (target : ℤ) (new old : List Deployment)
    → t.spec.workload_reference.name ≢ ""
    → t.spec.replica ≡ some target
    → both_ready api target new old [] ≡ (next true, [])
    → Completes api t w cr []
    → later.get_trait request [] ≡ ok (finished t cr)
    → ((advance_rollout api t w new old []).1
        ≡ patch_condition (finished t cr) reconcile_success
          ∷ update_status (finished t cr)
          ∷ get_controller_revision (key t.namespace t.spec.workload_reference.name)
          ∷ delete_workload w
          ∷ [])
      × (reconcile later request [] ≡ (stop (reply 0 none), get_trait request ∷ []))
unfolding advance_rollout
completed_once api later request t w cr target new old named wanted ready c got = (
  ready_completes api t w new old t.spec.replica target wanted ready ∙ complete_calls api t w cr c,
  reconcile_stable later request (finished t cr) got (not_newly_created t cr named)
      (not_under_rollout t cr),
)
