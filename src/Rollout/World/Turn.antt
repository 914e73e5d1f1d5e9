-- ===== src/Rollout/World/Turn.antt =====
-- A turn of the rollout: a round of the controller, after which the cluster makes all replicas
-- ready that are wanted.
use Prim.Native.Nat.{min}
use kubevela_catalog.Base.{
  ℕ, ◌+◌, ◌-◌, ◌≤◌, ◌≡◌, ◌≢◌, ◌⊎◌, inl, inr, [], ◌∷◌, List, Option, none, some, true, false, refl,
  ap, ◌∙◌, arith, str_eq, str_eq_refl, Bool-cases, ◌==◌,
}
use kubevela_catalog.Base.Int.{ℤ, pos}
use kubevela_catalog.Base.Exec.{next, stop, ◌>>=◌}
use kubevela_catalog.K8s.{Unstructured, IntOrString}
use kubevela_catalog.Rollout.{Deployment, Trait, Call, update_deployment, Api}
use kubevela_catalog.Rollout.Scale.{
  is_scale_up_ready, all_ready, is_scale_down_ready, all_gone, update, scale_up, scale_up_gradually,
  scale_down, scale_down_gradually, up_replicas, down_replicas,
}
use kubevela_catalog.Rollout.Scale.Steps.{up_replicas_lem, down_replicas_lem}
use kubevela_catalog.Rollout.Scale.Rounds.{Accepts, IsSettled, at_rest}
use kubevela_catalog.Rollout.Reconcile.{
  both_ready, complete, finish, controller_revision, fail, scale, advance_rollout,
}
use kubevela_catalog.Rollout.World.{World, landed}
use kubevela_catalog.Rollout.World.Allowed.{having_replicas}

-- A list of calls is that of at most one update after others, which gives the deployment r replicas.
UpdatesTo : Deployment → ℕ → ℕ → List Call → List Call → Type 0
UpdatesTo d before r h h' =
    ((h' ≡ h) × (before ≡ r)) ⊎ (h' ≡ update_deployment (having_replicas d r) ∷ h)

module _ (api : Api) (accepts : Accepts api) where
  up_lem :
      (t b r : ℕ) (d : Deployment) (h : List Call)
      → r ≤ t
      → t + b ≤ 2147483647
      → IsSettled d r
      → (h' : List Call) × (scale_up_gradually api (d ∷ []) (pos t) (pos b) h ≡ (stop none, h'))
        × UpdatesTo d r (min t (r + b)) h h'
  unfolding UpdatesTo scale_up_gradually scale_up update ◌>>=◌
  up_lem t b r d h le fits s =
      let u : Deployment = record d { replicas = some (up_replicas (pos t) (pos b) (pos r)) } in
      let e : up_replicas (pos t) (pos b) (pos r) ≡ pos (min t (r + b)) =
        up_replicas_lem t b r (omega arith) in
      elim (Bool-cases (r == t)) [
        | inl same ↦ (h, ground arith, inl (refl, ground arith))
        | inr differs ↦ (update_deployment u ∷ h, ground (arith, accepts u h), inr (rw e refl))
      ]

  down_lem :
      (b r : ℕ) (d : Deployment) (h : List Call)
      → r ≤ 2147483647
      → b ≤ 2147483647
      → IsSettled d r
      → (h' : List Call) × (scale_down_gradually api (d ∷ []) (pos 0) (pos b) h ≡ (stop none, h'))
        × UpdatesTo d r (r - b) h h'
  unfolding UpdatesTo scale_down_gradually scale_down update ◌>>=◌
  down_lem b r d h le fits s =
      let u : Deployment = record d { replicas = some (down_replicas (pos 0) (pos b) (pos r)) } in
      let e : down_replicas (pos 0) (pos b) (pos r) ≡ pos (r - b) = down_replicas_lem b r le fits in
      elim (Bool-cases (r == 0)) [
        | inl same ↦ (h, ground arith, inl (refl, ground arith))
        | inr differs ↦ (update_deployment u ∷ h, ground (arith, accepts u h), inr (rw e refl))
      ]

  -- what a world is after such calls on the new deployment, and on the old one
  landed_new :
      (w : World) (r r' : ℕ) (h h' : List Call)
      → w.new.replicas ≡ some (pos r)
      → UpdatesTo w.new r r' h h'
      → landed api h w ≡ w
      → landed api h' w ≡ record w { new = having_replicas w.new r' }
  unfolding UpdatesTo landed
  landed_new w r r' h h' wanted (inl (same, kept)) before = rw same (
      before
      ∙ ap (λ (o : Option ℤ). record w { new = record w.new { replicas = o } })
          (wanted ∙ ap (λ k. some (pos k)) kept))
  landed_new w r r' h h' wanted (inr made) before =
      rw made (rw (accepts (having_replicas w.new r') h, before, str_eq_refl w.new.name) refl)

  landed_old :
      (w v : World) (o o' : ℕ) (h h' : List Call)
      → w.old.replicas ≡ some (pos o)
      → str_eq w.old.name v.new.name ≡ false
      → UpdatesTo w.old o o' h h'
      → v.old ≡ w.old
      → landed api h w ≡ v
      → landed api h' w ≡ record v { old = having_replicas w.old o' }
  unfolding UpdatesTo landed
  landed_old w v o o' h h' wanted other (inl (same, kept)) old before =
      let restored : w.old ≡ having_replicas w.old o' =
        ap (λ (x : Option ℤ). record w.old { replicas = x })
          (wanted ∙ ap (λ k. some (pos k)) kept) in
      rw same (before ∙ ap (λ (d : Deployment). record v { old = d }) (old ∙ restored))
  landed_old w v o o' h h' wanted other (inr made) old before =
      rw made
        (rw (accepts (having_replicas w.old o') h, before, other, old, str_eq_refl w.old.name) refl)

-- the numbers of the trait, all of them given
pub record HasNumbers (t : Trait) (target batch unavailable : ℕ) : Type 0 where
  pub replica : t.spec.replica ≡ some (pos target)
  pub batch_of : IntOrString
  pub batch_given : t.spec.batch ≡ some batch_of
  pub batch_value : batch_of.int_val ≡ pos batch
  pub unavailable_of : IntOrString
  pub unavailable_given : t.spec.max_unavailable ≡ some unavailable_of
  pub unavailable_value : unavailable_of.int_val ≡ pos unavailable

-- Both deployments are settled, at r and at o replicas.
pub record IsAt (w : World) (r o : ℕ) : Type 0 where
  pub new_settled : IsSettled w.new r
  pub old_settled : IsSettled w.old o
  pub other_name : str_eq w.old.name w.new.name ≡ false

-- the cluster makes all replicas ready that are wanted
abbrev pub cluster : World → World
cluster w = record w { new = at_rest w.new.replicas w.new; old = at_rest w.old.replicas w.old }

module _ (api : Api) (t : Trait) (old_workload : Unstructured) where
  -- a round of the controller, and then the cluster
  unfoldable pub turn : World → World
  turn w =
      cluster (landed api (advance_rollout api t old_workload (w.new ∷ []) (w.old ∷ []) []).1 w)

  module _ (accepts : Accepts api) (target batch unavailable : ℕ)
      (set : HasNumbers t target batch unavailable) where
    not_ready :
        (new old : Deployment) (r o : ℕ)
        → (r ≢ target) ⊎ (o ≢ 0)
        → IsSettled new r
        → IsSettled old o
        → both_ready api (pos target) (new ∷ []) (old ∷ []) [] ≡ (next false, [])
    unfolding both_ready is_scale_up_ready all_ready is_scale_down_ready all_gone ◌>>=◌
    not_ready new old r o (inl less) sn so = ground arith
    not_ready new old r o (inr more) sn so = ground arith

    scale_calls :
        (new old : Deployment) (h1 h2 : List Call)
        → scale_up_gradually api (new ∷ []) (pos target) (pos batch) [] ≡ (stop none, h1)
        → scale_down_gradually api (old ∷ []) (pos 0) (pos unavailable) h1 ≡ (stop none, h2)
        → (scale api t (pos target) (new ∷ []) (old ∷ []) []).1 ≡ h2
    unfolding scale ◌>>=◌
    scale_calls new old h1 h2 up down =
        let up' : scale_up_gradually api (new ∷ []) (pos target) set.batch_of.int_val []
            ≡ (stop none, h1) =
          rw set.batch_value up in
        let down' : scale_down_gradually api (old ∷ []) (pos 0) set.unavailable_of.int_val h1
            ≡ (stop none, h2) =
          rw set.unavailable_value down in
        ground (arith, set.batch_given, set.unavailable_given, up', down')

    advance_scales :
        (new old : Deployment)
        → both_ready api (pos target) (new ∷ []) (old ∷ []) [] ≡ (next false, [])
        → (advance_rollout api t old_workload (new ∷ []) (old ∷ []) []).1
          ≡ (scale api t (pos target) (new ∷ []) (old ∷ []) []).1
    unfolding advance_rollout ◌>>=◌
    advance_scales new old halts = ground (arith, set.replica, halts)

    advance_completes :
        (new old : Deployment)
        → both_ready api (pos target) (new ∷ []) (old ∷ []) [] ≡ (next true, [])
        → (advance_rollout api t old_workload (new ∷ []) (old ∷ []) []).1
          ≡ (complete api t old_workload []).1
    unfolding advance_rollout ◌>>=◌
    advance_completes new old halts = ground (arith, set.replica, halts)

    complete_deletes :
        (w : World)
        → ((u : Unstructured) (h : List Call) → api.delete_workload u h ≡ none)
        → landed api (complete api t old_workload []).1 w ≡ record w { deleted = true }
    unfolding complete finish controller_revision fail landed ◌>>=◌
    complete_deletes w takes = ground (arith, takes old_workload [])

    ends_reached :
        (new old : Deployment)
        → IsSettled new target
        → IsSettled old 0
        → both_ready api (pos target) (new ∷ []) (old ∷ []) [] ≡ (next true, [])
    unfolding both_ready is_scale_up_ready all_ready is_scale_down_ready all_gone ◌>>=◌
    ends_reached new old sn so = ground arith

    pub turn_scales :
        (w : World) (r o : ℕ)
        → target + batch ≤ 2147483647
        → unavailable ≤ 2147483647
        → r ≤ target
        → o ≤ 2147483647
        → (r ≢ target) ⊎ (o ≢ 0)
        → IsAt w r o
        → IsAt (turn w) (min target (r + batch)) (o - unavailable)
    unfolding turn landed
    turn_scales w r o fits ufits le ole left is =
        let r' = min target (r + batch) in
        let o' = o - unavailable in
        let (h1, up, ups) = up_lem api accepts target batch r w.new [] le fits is.new_settled in
        let (h2, down, downs) =
          down_lem api accepts unavailable o w.old h1 ole ufits is.old_settled in
        let calls : (advance_rollout api t old_workload (w.new ∷ []) (w.old ∷ []) []).1 ≡ h2 =
          advance_scales w.new w.old (not_ready w.new w.old r o left is.new_settled is.old_settled)
          ∙ scale_calls w.new w.old h1 h2 up down in
        let after_new = landed_new api accepts w r r' [] h1 is.new_settled.wanted ups refl in
        let after_both =
          landed_old api accepts w (record w { new = having_replicas w.new r' }) o o' h1 h2
            is.old_settled.wanted is.other_name downs refl after_new in
        rw (calls, after_both)
          (record {
            new_settled = record { wanted = refl; ready = refl };
            old_settled = record { wanted = refl; ready = refl };
            other_name = is.other_name;
          })

    pub turn_completes :
        (w : World)
        → ((u : Unstructured) (h : List Call) → api.delete_workload u h ≡ none)
        → IsAt w target 0
        → IsAt (turn w) target 0 × ((turn w).deleted ≡ true)
    unfolding turn
    turn_completes w takes is =
        let calls =
          advance_completes w.new w.old (ends_reached w.new w.old is.new_settled is.old_settled) in
        rw (calls, complete_deletes w takes, is.new_settled.wanted, is.old_settled.wanted)
          (
            record {
              new_settled = record { wanted = refl; ready = refl };
              old_settled = record { wanted = refl; ready = refl };
              other_name = is.other_name;
            },
            refl,
          )
