-- ===== src/Rollout/Scale/Rounds.antt =====
-- Rounds of `scaleUpGradually` and `scaleDownGradually`, between which the cluster brings each
-- deployment to the number of replicas that it was last given.
use Prim.Native.Nat.{min}
use mathlib.Core.List.{foldr}
use kubevela_catalog.Base.{
  ℕ, zero, suc, ◌+◌, ◌-◌, ◌*◌, ◌≤◌, ◌≡◌, Option, none, some, List, [], ◌∷◌, arith, leb,
}
use kubevela_catalog.Base.Int.{ℤ, pos}
use kubevela_catalog.Base.Exec.{Exec, ◌>>=◌}
use kubevela_catalog.K8s.{Error}
use kubevela_catalog.Rollout.{Deployment, Call, update_deployment, Api}
use kubevela_catalog.Rollout.Scale.{
  update, scale_up, scale_up_gradually, scale_down, scale_down_gradually, up_replicas,
  down_replicas, is_scale_up_ready,
}
use kubevela_catalog.Rollout.Scale.Steps.{up_replicas_lem, down_replicas_lem}

-- The server takes every update of a deployment.
abbrev pub Accepts : Api → Type 0
Accepts api = (d : Deployment) (h : List Call) → api.update_deployment d h ≡ none

-- The deployment has `r` replicas, and all of them are ready.
pub record IsSettled (d : Deployment) (r : ℕ) : Type 0 where
  pub wanted : d.replicas ≡ some (pos r)
  pub ready : d.ready_replicas ≡ pos r

abbrev pub at_rest : Option ℤ → Deployment → Deployment
at_rest none d = d
at_rest (some n) d = record d { available_replicas = n; ready_replicas = n }

-- what the cluster makes of a deployment after a call
abbrev settle : Call → Deployment → Deployment
settle (update_deployment u) d = at_rest u.replicas u
settle _ d = d

-- One round of a loop over one deployment: the calls that it makes, each followed by the cluster.
abbrev round : Exec Call (Option Error) (Option Error) → Deployment → Deployment
round loop d = foldr settle d (loop []).1

pub up_round : Api → ℤ → ℤ → Deployment → Deployment
up_round api target batch d = round (scale_up_gradually api (d ∷ []) target batch) d

pub down_round : Api → ℤ → ℤ → Deployment → Deployment
down_round api target batch d = round (scale_down_gradually api (d ∷ []) target batch) d

pub rounds : ℕ → (Deployment → Deployment) → Deployment → Deployment
rounds zero step d = d
rounds (suc n) step d = rounds n step (step d)

module _ (api : Api) (accepts : Accepts api) where
  up_round_lem :
      (t b r : ℕ) (d : Deployment)
      → r ≤ t
      → t + b ≤ 2147483647
      → IsSettled d r
      → IsSettled (up_round api (pos t) (pos b) d) (min t (r + b))
  unfolding up_round scale_up_gradually scale_up update ◌>>=◌
  up_round_lem t b r d le fits s = ground (
    arith,
    accepts (record d { replicas = some (up_replicas (pos t) (pos b) (pos r)) }) [],
    up_replicas_lem t b r (omega arith),
  )

  down_round_lem :
      (b r : ℕ) (d : Deployment)
      → r ≤ 2147483647
      → b ≤ 2147483647
      → IsSettled d r
      → IsSettled (down_round api (pos 0) (pos b) d) (r - b)
  unfolding down_round scale_down_gradually scale_down update ◌>>=◌
  down_round_lem b r d le fits s = ground (
    arith,
    accepts (record d { replicas = some (down_replicas (pos 0) (pos b) (pos r)) }) [],
    down_replicas_lem b r le fits,
  )

  up_rounds :
      (n t b r : ℕ) (d : Deployment)
      → r ≤ t
      → t + b ≤ 2147483647
      → IsSettled d r
      → IsSettled (rounds n (up_round api (pos t) (pos b)) d) (min t (r + n * b))
  unfolding rounds
  up_rounds zero t b r d le fits s = let e : min t (r + 0 * b) ≡ r = omega arith in rw e s
  up_rounds (suc n) t b r d le fits s =
      let e : min t (r + suc n * b) ≡ min t (min t (r + b) + n * b) = grind arith in
      rw e (
        up_rounds n t b (min t (r + b)) (up_round api (pos t) (pos b) d) (omega arith) fits
          (up_round_lem t b r d le fits s))

  down_rounds :
      (n b r : ℕ) (d : Deployment)
      → r ≤ 2147483647
      → b ≤ 2147483647
      → IsSettled d r
      → IsSettled (rounds n (down_round api (pos 0) (pos b)) d) (r - n * b)
  unfolding rounds
  down_rounds zero b r d le fits s = let e : r - 0 * b ≡ r = omega arith in rw e s
  down_rounds (suc n) b r d le fits s =
      let e : r - suc n * b ≡ r - b - n * b = grind arith in
      rw e (
        down_rounds n b (r - b) (down_round api (pos 0) (pos b) d) (omega arith) fits
          (down_round_lem b r d le fits s))

-- If the server takes every update, and the sum of the target and the batch fits an int32, then
-- n rounds from a settled deployment of r ≤ target replicas, each followed by the cluster making
-- the replicas ready, end at the least of the target and r + n * batch replicas, all ready; and
-- isScaleUpReady holds of that deployment exactly if target ≤ r + n * batch.
pub scale_up_converges :
    (api : Api)
    → Accepts api
    → (n t b r : ℕ) (d : Deployment) → r ≤ t
    → t + b ≤ 2147483647
    → IsSettled d r
    → IsSettled (rounds n (up_round api (pos t) (pos b)) d) (min t (r + n * b))
      × (is_scale_up_ready (rounds n (up_round api (pos t) (pos b)) d ∷ []) (pos t)
          ≡ leb t (r + n * b))
unfolding is_scale_up_ready
scale_up_converges api accepts n t b r d le fits s =
    let done = up_rounds api accepts n t b r d le fits s in (done, ground arith)

-- If the server takes every update, and the batch fits an int32, then n rounds of scaling down
-- to 0 from a settled deployment of r replicas end at r - n * batch replicas (0 if that is
-- negative), all ready.
pub scale_down_converges :
    (api : Api)
    → Accepts api
    → (n b r : ℕ) (d : Deployment) → r ≤ 2147483647
    → b ≤ 2147483647
    → IsSettled d r
    → IsSettled (rounds n (down_round api (pos 0) (pos b)) d) (r - n * b)
scale_down_converges = down_rounds
