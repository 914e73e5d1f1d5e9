-- ===== src/Rollout/World/Allowed.antt =====
-- The calls that a round may make, as far as they change deployments or delete the workload.
use Prim.Native.Nat.{min}
use kubevela_catalog.Base.{
  ℕ, ◌+◌, ◌-◌, ◌≤◌, ◌≡◌, ◌⊎◌, inl, inr, List, [], ◌∷◌, some, Bool, true, arith, ap,
}
use kubevela_catalog.Base.Int.{ℤ, pos}
use kubevela_catalog.Base.Exec.{Ctl, next, stop, panic}
use kubevela_catalog.Base.Exec.Keeps.{
  Keeps, AllCalls, Keeps-bind, Keeps-if, Keeps-ask, Keeps-deref, keeps_rules,
}
use kubevela_catalog.Base.Exec.Ends.{
  Outcome, Ends, Ends-deref_known, Ends-deref_eq, Keeps-bind_after,
}
use kubevela_catalog.K8s.{Error, IntOrString, Unstructured}
use kubevela_catalog.Rollout.{
  RolloutHistory, Trait, Deployment, Call, update_deployment, delete_workload, Api,
}
use kubevela_catalog.Rollout.Scale.{
  is_scale_down_ready, all_gone, update, scale_up, scale_up_gradually, scale_down,
  scale_down_gradually, up_replicas, down_replicas,
}
use kubevela_catalog.Rollout.Scale.Steps.{up_replicas_lem, down_replicas_lem}
use kubevela_catalog.Rollout.Reconcile.{
  fail, finish, controller_revision, complete, scale, both_ready, advance_rollout,
}
use kubevela_catalog.Rollout.Reconcile.Deletion.{IsScaled, both_ready_sound}

-- the deployment with another number of replicas
abbrev pub having_replicas : Deployment → ℕ → Deployment
having_replicas d r = record d { replicas = some (pos r) }

only_if_true :
    {R D : Type 0} (c : Ctl R Bool)
    → (c ≡ next true → D)
    → Outcome (λ r. Unit) Unit (λ b. b ≡ true → D) c
only_if_true (next b) k = λ e. k (ap next e)
only_if_true (stop r) k = tt
only_if_true panic k = tt

module _ (target batch unavailable n o : ℕ) (new old : Deployment) where
  pub record IsUp (u : Deployment) : Type 0 where
    pub wanted : ℕ
    pub scaled : u ≡ having_replicas new wanted
    pub grows : n ≤ wanted
    pub below : wanted ≤ target
    pub by_batch : wanted ≤ n + batch

  pub record IsDown (u : Deployment) : Type 0 where
    pub wanted : ℕ
    pub scaled : u ≡ having_replicas old wanted
    pub shrinks : wanted ≤ o
    pub by_unavailable : o ≤ wanted + unavailable

  -- the calls of a round, with `Done` for what a deletion takes
  abbrev pub IsRound : Type 0 → Call → Type 0
  IsRound Done (update_deployment u) = IsUp u ⊎ IsDown u
  IsRound Done (delete_workload u) = Done
  IsRound Done _ = Unit

  module _ (Done : Type 0) (api : Api) where
    update-IsRound :
        (u : Deployment) → IsUp u ⊎ IsDown u → Keeps (AllCalls (IsRound Done)) (update api u)
    unfolding update
    update-IsRound u allowed = Keeps-bind _ _ (Keeps-ask _ _ allowed) (λ answer. search keeps_rules)

    scale_up-IsRound :
        (b : ℤ)
        → b ≡ pos batch
        → n ≤ target
        → target + batch ≤ 2147483647
        → new.replicas ≡ some (pos n)
        → Keeps (AllCalls (IsRound Done)) (scale_up api (pos target) b new)
    unfolding scale_up
    scale_up-IsRound b eb le fits wanted =
        Keeps-bind_after _ _ _ _ (Keeps-deref new.replicas)
          (Ends-deref_known new.replicas (pos n) wanted)
          (λ replicas e.
            let u = record new { replicas = some (up_replicas (pos target) b replicas) } in
            let up : IsUp u = record {
              wanted = min target (n + batch);
              scaled =
                  ap (λ r. record new { replicas = some r })
                    (cc (e, eb, up_replicas_lem target batch n (omega arith)));
              grows = omega arith;
              below = omega arith;
              by_batch = omega arith;
            } in
            let made = update-IsRound u (inl up) in search (keeps_rules, made))

    scale_down-IsRound :
        (b : ℤ)
        → b ≡ pos unavailable
        → o ≤ 2147483647
        → unavailable ≤ 2147483647
        → old.replicas ≡ some (pos o)
        → Keeps (AllCalls (IsRound Done)) (scale_down api (pos 0) b old)
    unfolding scale_down
    scale_down-IsRound b eb le fits wanted =
        Keeps-bind_after _ _ _ _ (Keeps-deref old.replicas)
          (Ends-deref_known old.replicas (pos o) wanted)
          (λ replicas e.
            let u = record old { replicas = some (down_replicas (pos 0) b replicas) } in
            let down : IsDown u = record {
              wanted = o - unavailable;
              scaled =
                  ap (λ r. record old { replicas = some r })
                    (cc (e, eb, down_replicas_lem unavailable o le fits));
              shrinks = omega arith;
              by_unavailable = omega arith;
            } in
            let made = update-IsRound u (inr down) in search (keeps_rules, made))

    fail-IsRound :
        {A : Type 0} (t : Trait) (e : Error)
        → Keeps (AllCalls (IsRound Done)) (fail api {A = A} t e)
    unfolding fail
    fail-IsRound t e = search (keeps_rules, tt)

    finish-IsRound :
        (t : Trait) (k : RolloutHistory → List RolloutHistory)
        → Keeps (AllCalls (IsRound Done)) (finish api t k)
    unfolding finish controller_revision
    finish-IsRound t k = search (keeps_rules, fail-IsRound, tt) depth 12

    complete-IsRound :
        (t : Trait) (w : Unstructured) → Done → Keeps (AllCalls (IsRound Done)) (complete api t w)
    unfolding complete
    complete-IsRound t w done =
        Keeps-bind _ _ (Keeps-ask _ _ done)
          (λ answer. search (keeps_rules, fail-IsRound, finish-IsRound))

  -- What a round knows of its trait and its deployments.
  pub record IsRollout (t : Trait) : Type 0 where
    pub replica : t.spec.replica ≡ some (pos target)
    pub batch_of : (v : IntOrString) → t.spec.batch ≡ some v → v.int_val ≡ pos batch
    pub unavailable_of :
        (v : IntOrString) → t.spec.max_unavailable ≡ some v → v.int_val ≡ pos unavailable
    pub target_fits : target + batch ≤ 2147483647
    pub unavailable_fits : unavailable ≤ 2147483647
    pub new_wanted : new.replicas ≡ some (pos n)
    pub old_wanted : old.replicas ≡ some (pos o)
    pub new_below : n ≤ target
    pub old_fits : o ≤ 2147483647

  module _ (api : Api) (t : Trait) (w : Unstructured) (is : IsRollout t) where
    abbrev pub Done : Type 0
    Done = IsScaled t (new ∷ []) (old ∷ [])

    scale-IsRound : Keeps (AllCalls (IsRound Done)) (scale api t (pos target) (new ∷ []) (old ∷ []))
    unfolding scale scale_up_gradually scale_down_gradually
    scale-IsRound =
        Keeps-bind_after _ _ _ _ (Keeps-deref t.spec.batch) (Ends-deref_eq t.spec.batch) (λ v e.
          let up =
            scale_up-IsRound Done api v.int_val (is.batch_of v e) is.new_below is.target_fits
              is.new_wanted in
          Keeps-bind _ _ (search (keeps_rules, up)) (λ failed.
            Keeps-bind _ _ (search (keeps_rules, fail-IsRound)) (λ u.
              Keeps-bind_after _ _ _ _ (Keeps-deref t.spec.max_unavailable)
                (Ends-deref_eq t.spec.max_unavailable)
                (λ v e.
                  let down =
                    scale_down-IsRound Done api v.int_val (is.unavailable_of v e) is.old_fits
                      is.unavailable_fits is.old_wanted in
                  Keeps-bind _ _ (search (keeps_rules, down))
                    (λ failed. search (keeps_rules, fail-IsRound))))))

    all_gone-IsRound :
        {R : Type 0} (ds : List Deployment) → Keeps (AllCalls (IsRound Done)) (all_gone {R = R} ds)
    unfolding all_gone
    all_gone-IsRound {R = R} [] = search keeps_rules
    all_gone-IsRound {R = R} (d ∷ ds) =
        let rest = all_gone-IsRound {R = R} ds in
        Keeps-bind _ _ (Keeps-deref d.replicas) (λ replicas. search (keeps_rules, rest))

    both_ready-IsRound :
        Keeps (AllCalls (IsRound Done)) (both_ready api (pos target) (new ∷ []) (old ∷ []))
    unfolding both_ready is_scale_down_ready
    both_ready-IsRound = search (keeps_rules, all_gone-IsRound)

    both_ready-Done :
        Ends
          (λ r. Unit)
          Unit
          (λ ready. ready ≡ true → Done)
          (both_ready api (pos target) (new ∷ []) (old ∷ []))
    both_ready-Done = record {
      at = λ h. only_if_true (both_ready api (pos target) (new ∷ []) (old ∷ []) h).0 (λ ready.
          let (up, down, some_old) =
            both_ready_sound api (new ∷ []) (pos target) (old ∷ []) h ready in
          record {
            target = pos target;
            wanted = is.replica;
            up = up;
            down = down;
            some_old = some_old;
          });
    }

    -- Every call of a round is one of these: an update of the new deployment by at most a batch, one
    -- of the old one by at most `unavailable`, a deletion when both are scaled, and calls that
    -- change neither.
    pub advance_rollout-IsRound :
        Keeps (AllCalls (IsRound Done)) (advance_rollout api t w (new ∷ []) (old ∷ []))
    unfolding advance_rollout
    advance_rollout-IsRound =
        Keeps-bind_after _ _ _ _ (Keeps-deref t.spec.replica)
          (Ends-deref_known t.spec.replica (pos target) is.replica)
          (λ v e. rw e (
            Keeps-bind_after _ _ _ _ both_ready-IsRound both_ready-Done (λ ready done.
              Keeps-if ready _ _ (λ no_end. scale-IsRound)
                (λ both. complete-IsRound Done api t w (done both)))))
