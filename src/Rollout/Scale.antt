-- ===== src/Rollout/Scale.antt =====
-- Gradual scaling of the deployments of a workload
-- (legacy/traits/simplerollouttrait/controllers/helper.go).
pub mod Steps
pub mod Rounds
use kubevela_catalog.Base.{
  List, [], ◌∷◌, Option, none, some, Bool, true, false, not, ◌||◌, if◌then◌else◌,
}
use kubevela_catalog.Base.Int.{ℤ, pos, add32, sub32, leb_ℤ, eq_ℤ}
use kubevela_catalog.Base.Exec.{Exec, Func, pure, return, ask, deref, on_error, ◌>>=◌, ◌>>◌}
use kubevela_catalog.K8s.{Error}
use kubevela_catalog.Rollout.{Deployment, Call, update_deployment, Api}

-- isScaleUpReady
unfoldable pub all_ready : List Deployment → ℤ → Bool
all_ready [] target = true
all_ready (d ∷ ds) target =
    if not (eq_ℤ d.ready_replicas target) then false else all_ready ds target

unfoldable pub is_scale_up_ready : List Deployment → ℤ → Bool
unfolding all_ready
is_scale_up_ready [] target = false
is_scale_up_ready (d ∷ ds) target = all_ready (d ∷ ds) target

-- isScaleDownReady; it follows the pointer to the replicas
module _ {R : Type 0} where
  unfoldable pub all_gone : List Deployment → Exec Call R Bool
  all_gone [] = pure true
  all_gone (d ∷ ds) = do
    replicas ← deref d.replicas
    if not (eq_ℤ replicas (pos 0)) || not (eq_ℤ d.ready_replicas (pos 0))
        then pure false
        else all_gone ds

  unfoldable pub is_scale_down_ready : List Deployment → Exec Call R Bool
  unfolding all_gone
  is_scale_down_ready [] = pure false
  is_scale_down_ready (d ∷ ds) = all_gone (d ∷ ds)

-- The new number of replicas, on the branch of `scaleUpGradually` that updates.
unfoldable pub up_replicas : ℤ → ℤ → ℤ → ℤ
up_replicas target batch replicas =
    if leb_ℤ target (add32 replicas batch) then target else add32 replicas batch

-- The same for `scaleDownGradually`.
unfoldable pub down_replicas : ℤ → ℤ → ℤ → ℤ
down_replicas target batch replicas =
    if leb_ℤ (sub32 replicas batch) target then target else sub32 replicas batch

module _ (api : Api) where
  -- r.Update(ctx, deployment), with the loop's early return
  unfoldable pub update : Deployment → Exec Call (Option Error) Unit
  update d = do
    answer ← ask (update_deployment d) (api.update_deployment d)
    on_error answer (λ e. return (some e))

  -- the body of the loop of `scaleUpGradually`
  unfoldable pub scale_up : ℤ → ℤ → Deployment → Exec Call (Option Error) Unit
  scale_up target batch d = do
    replicas ← deref d.replicas
    if eq_ℤ replicas d.ready_replicas
        then (if eq_ℤ replicas target
            then pure tt
            else update (record d { replicas = some (up_replicas target batch replicas) }))
        else pure tt

  unfoldable pub scale_up_gradually : List Deployment → ℤ → ℤ → Func Call (Option Error)
  scale_up_gradually [] target batch = return none
  scale_up_gradually (d ∷ ds) target batch = do
    scale_up target batch d
    scale_up_gradually ds target batch

  -- the body of the loop of `scaleDownGradually`
  unfoldable pub scale_down : ℤ → ℤ → Deployment → Exec Call (Option Error) Unit
  scale_down target batch d = do
    replicas ← deref d.replicas
    if eq_ℤ replicas (pos 0)
        then pure tt
        else if eq_ℤ replicas d.ready_replicas
        then (if eq_ℤ replicas target
            then pure tt
            else update (record d { replicas = some (down_replicas target batch replicas) }))
        else pure tt

  unfoldable pub scale_down_gradually : List Deployment → ℤ → ℤ → Func Call (Option Error)
  scale_down_gradually [] target batch = return none
  scale_down_gradually (d ∷ ds) target batch = do
    scale_down target batch d
    scale_down_gradually ds target batch
