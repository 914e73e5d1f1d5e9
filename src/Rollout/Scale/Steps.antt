-- ===== src/Rollout/Scale/Steps.antt =====
-- One step of `scaleUpGradually` and `scaleDownGradually` on the number of replicas.
use Prim.Native.Nat.{min}
use kubevela_catalog.Base.{ℕ, ◌+◌, ◌-◌, ◌≤◌, ◌<◌, ◌≡◌, arith}
use kubevela_catalog.Base.Int.{pos, negsuc, sub32, add32_pos, add32_overflow}
use kubevela_catalog.Rollout.Scale.{up_replicas, down_replicas}

-- Where the sum fits an `int32`, scaling up adds the batch and stops at the target.
pub up_replicas_lem :
    (target batch r : ℕ)
    → r + batch ≤ 2147483647
    → up_replicas (pos target) (pos batch) (pos r) ≡ pos (min target (r + batch))
unfolding up_replicas
up_replicas_lem target batch r h = rw (add32_pos r batch h) (ground arith)

-- Scaling down subtracts the batch and stops at 0.
pub down_replicas_lem :
    (batch r : ℕ)
    → r ≤ 2147483647
    → batch ≤ 2147483647
    → down_replicas (pos 0) (pos batch) (pos r) ≡ pos (r - batch)
unfolding down_replicas sub32
down_replicas_lem batch r h k = ground arith

-- Where the sum of the replicas and the batch passes the largest `int32`, the new number of
-- replicas is negative, whatever the target.
pub up_replicas_overflow :
    (target batch r : ℕ)
    → r ≤ 2147483647
    → batch ≤ 2147483647
    → 2147483647 < r + batch
    → up_replicas (pos target) (pos batch) (pos r) ≡ negsuc (4294967295 - (r + batch))
unfolding up_replicas
up_replicas_overflow target batch r h k o = rw (add32_overflow r batch h k o) (ground arith)
