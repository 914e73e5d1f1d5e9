-- ===== src/Rollout/World.antt =====
-- The rollout as a system: the controller's rounds (advance_rollout), each against a server that
-- may answer anything, and the cluster, which makes replicas ready in between; and the specification
-- of its progress that the system implements.
pub mod Allowed
pub mod Refines
pub mod Served
pub mod Turn
pub mod Ends
mod Examples
use kubevela_catalog.Base.{
  ℕ, ◌+◌, ◌≤◌, ◌≡◌, List, [], ◌∷◌, Option, none, some, Bool, true, false, str_eq, if◌then◌else◌,
}
use kubevela_catalog.Base.Int.{ℤ, pos}
use kubevela_catalog.K8s.{Error, Unstructured}
use kubevela_catalog.Rollout.{Trait, Deployment, Call, update_deployment, delete_workload, Api}
use kubevela_catalog.Rollout.Reconcile.{advance_rollout}

-- the deployments of the new and of the old workload, and whether the old workload was deleted
pub record World : Type 0 where
  pub new : Deployment
  pub old : Deployment
  pub deleted : Bool

-- what a call changes that the server takes
abbrev pub effect : Call → World → World
effect (update_deployment u) w =
    if str_eq u.name w.new.name
    then record w { new = u }
    else if str_eq u.name w.old.name
    then record w { old = u }
    else w
effect (delete_workload u) w = record w { deleted = true }
effect _ w = w

abbrev pub unless : Option Error → World → World → World
unless none changed w = changed
unless (some e) changed w = w

module _ (api : Api) where
  -- whether the server takes a call after others: a call that it refuses changes nothing
  abbrev pub refusal : Call → List Call → Option Error
  refusal (update_deployment u) h = api.update_deployment u h
  refusal (delete_workload u) h = api.delete_workload u h
  refusal _ h = none

  -- the calls made, the last one first
  unfoldable pub landed : List Call → World → World
  landed [] w = w
  landed (c ∷ h) w = unless (refusal c h) (effect c (landed h w)) (landed h w)

-- The cluster has at most as many ready replicas of the new deployment as it wants; of the old
-- one, which is scaled down, it may have any number.
pub data Step (t : Trait) (old_workload : Unstructured) (w : World) : World → Type 0 where
  round :
      (api : Api)
      → w.deleted ≡ false
      → Step t old_workload w
          (landed api (advance_rollout api t old_workload (w.new ∷ []) (w.old ∷ []) []).1 w)
  new_ready :
      (n r available : ℕ)
      → w.new.replicas ≡ some (pos n)
      → r ≤ n
      → Step t old_workload w (record w {
        new = record w.new { ready_replicas = pos r; available_replicas = pos available };
      })
  old_ready :
      (ready available : ℤ)
      → Step t old_workload w (record w {
        old = record w.old { ready_replicas = ready; available_replicas = available };
      })

pub data Run (t : Trait) (old_workload : Unstructured) (w : World) : World → Type 0 where
  start : Run t old_workload w w
  later : {u v : World} → Run t old_workload w u → Step t old_workload u v → Run t old_workload w v

-- The specification: the replicas that both workloads are to have, and whether the old one is gone.
pub record Progress : Type 0 where
  pub up : ℕ
  pub down : ℕ
  pub handed_over : Bool

abbrev pub at : ℕ → ℕ → Bool → Progress
at n o d = record { up = n; down = o; handed_over = d }

-- A move takes the new workload up by at most a batch and not past the target, and the old one
-- down by at most `unavailable`. The old workload is given up only if there is nothing to move.
pub data Move (target batch unavailable : ℕ) : Progress → Progress → Type 0 where
  shift :
      {n o n' o' : ℕ} {d : Bool}
      → n ≤ n'
      → n' ≤ target
      → n' ≤ n + batch
      → o' ≤ o
      → o ≤ o' + unavailable
      → Move target batch unavailable (at n o d) (at n' o' d)
  hand_over : Move target batch unavailable (at target 0 false) (at target 0 true)

pub data Moves (target batch unavailable : ℕ) (p : Progress) : Progress → Type 0 where
  none_yet : Moves target batch unavailable p p
  then_move :
      {q r : Progress}
      → Moves target batch unavailable p q
      → Move target batch unavailable q r
      → Moves target batch unavailable p r
