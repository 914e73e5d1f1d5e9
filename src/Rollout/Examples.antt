-- ===== src/Rollout/Examples.antt =====
-- Tests of the rollout controller, and its theorems at concrete inputs.
use kubevela_catalog.Base.{
  [], ◌∷◌, none, some, Bool, true, false, ◌≡◌, refl, ◌⊎◌, inr, arith, String,
}
use kubevela_catalog.Base.Int.{pos, negsuc, add32}
use kubevela_catalog.Base.Exec.{ok, err, next, stop, panic, ◌>>=◌}
use kubevela_catalog.K8s.{
  server, reply, NamespacedName, key, TypedReference, empty_reference, Unstructured,
  reconcile_success,
}
use kubevela_catalog.K8s.Sample.{kube}
use kubevela_catalog.Rollout.{
  RolloutHistory, Trait, Deployment, get_trait, get_controller_revision, update_deployment,
  delete_workload, update_status, patch_condition, Api,
}
use kubevela_catalog.Rollout.Scale.{
  up_replicas, update, scale_up, scale_up_gradually, is_scale_up_ready, is_scale_down_ready,
}
use kubevela_catalog.Rollout.Scale.Steps.{up_replicas_overflow}
use kubevela_catalog.Rollout.Scale.Rounds.{
  IsSettled, rounds, up_round, down_round, scale_up_converges, scale_down_converges,
}
use kubevela_catalog.Rollout.Reconcile.{
  both_ready, finish, controller_revision, reconcile, complete, is_newly_created, is_under_rollout,
  advance_rollout,
}
use kubevela_catalog.Rollout.Reconcile.Stability.{reconcile_panics}
use kubevela_catalog.Rollout.Reconcile.NoDelete.{NoDelete}
use kubevela_catalog.Rollout.Reconcile.Deletion.{
  IsScaled, advance_rollout-IsScaled, completed_once, finished,
}

abbrev reference : String → TypedReference
reference n = record { api_version = "apps/v1"; kind = "Deployment"; name = n; uid = n }

abbrev object : String → Unstructured
object n = record {
  api_version = "apps/v1";
  kind = "Deployment";
  name = n;
  namespace = "default";
  uid = n;
  labels = [];
}

abbrev deployment : Deployment
deployment = record {
  name = "web";
  replicas = some (pos 2);
  available_replicas = pos 2;
  ready_replicas = pos 2;
}

abbrev gone : Deployment
gone = record deployment {
  replicas = some (pos 0);
  available_replicas = pos 0;
  ready_replicas = pos 0;
}

abbrev trait : TypedReference → Trait
trait current = record {
  name = "rollout";
  namespace = "default";
  spec = record {
    replica = some (pos 7);
    batch = some (record { is_string = false; int_val = pos 2; str_val = "" });
    max_unavailable = some (record { is_string = false; int_val = pos 1; str_val = "" });
    workload_reference = reference "v2";
  };
  status = record { rollout_history = []; current_workload_reference = current };
}

abbrev revision : RolloutHistory
revision = record { revision = pos 2; history_data = "{}" }

-- A server that takes every write; it has the trait, and a workload only if `there` says so.
abbrev api : Bool → TypedReference → Api
api there current = record {
  kube = kube;
  get_trait = λ k h. ok (trait current);
  get_workload = λ ref k h. elim there [
    | true ↦ ok (object ref.name)
    | false ↦ err (server 500 "unavailable")
  ];
  fetch_workload_definition = λ u h. ok [];
  get_controller_revision = λ k h. ok revision;
  update_deployment = λ d h. none;
  delete_workload = λ u h. none;
  update_status = λ t h. ok t;
  patch_condition = λ t c h. none;
  decode_deployment = λ u. ok deployment;
}

abbrev request : NamespacedName
request = key "default" "rollout"

-- Two of seven replicas, in batches of two: one update, to four.
first_batch :
    scale_up_gradually (api true empty_reference) (deployment ∷ []) (pos 7) (pos 2) []
    ≡ (stop none, update_deployment (record deployment { replicas = some (pos 4) }) ∷ [])
unfolding scale_up_gradually scale_up update ◌>>=◌ up_replicas add32
first_batch = refl

scale_up_converges_example :
    IsSettled (rounds 3 (up_round (api true empty_reference) (pos 7) (pos 2)) deployment) 7
    × (is_scale_up_ready
          (rounds 3 (up_round (api true empty_reference) (pos 7) (pos 2)) deployment ∷ [])
          (pos 7)
        ≡ true)
scale_up_converges_example =
    scale_up_converges (api true empty_reference) (λ d h. refl) 3 7 2 2 deployment (omega arith)
      (omega arith) (record { wanted = refl; ready = refl })

scale_down_converges_example :
    IsSettled (rounds 2 (down_round (api true empty_reference) (pos 0) (pos 1)) deployment) 0
scale_down_converges_example =
    scale_down_converges (api true empty_reference) (λ d h. refl) 2 1 2 deployment (omega arith)
      (omega arith) (record { wanted = refl; ready = refl })

up_replicas_overflow_example :
    up_replicas (pos 2147483647) (pos 10) (pos 2147483640) ≡ negsuc 2147483645
up_replicas_overflow_example =
    up_replicas_overflow 2147483647 10 2147483640 (omega arith) (omega arith) (omega arith)

reconcile_panics_example : (reconcile (api false (reference "v1")) request []).0 ≡ panic
unfolding is_newly_created is_under_rollout
reconcile_panics_example =
    reconcile_panics (api false (reference "v1")) request (trait (reference "v1"))
      (server 500 "unavailable") refl (inr refl) (record { missing = refl; patched = refl })

advance_rollout-IsScaled_example :
    NoDelete
      (advance_rollout
        (api true (reference "v1"))
        (trait (reference "v1"))
        (object "v1")
        (deployment ∷ [])
        (gone ∷ [])
        []).1
    ⊎ IsScaled (trait (reference "v1")) (deployment ∷ []) (gone ∷ [])
advance_rollout-IsScaled_example =
    advance_rollout-IsScaled (api true (reference "v1")) (trait (reference "v1")) (object "v1")
      (deployment ∷ []) (gone ∷ [])

-- The guarded deletion does happen.
deletes :
    (advance_rollout
      (api true (reference "v1"))
      (trait (reference "v1"))
      (object "v1")
      (record deployment { ready_replicas = pos 7 } ∷ [])
      (gone ∷ [])
      []).1
    ≡ patch_condition (finished (trait (reference "v1")) revision) reconcile_success
      ∷ update_status (finished (trait (reference "v1")) revision)
      ∷ get_controller_revision (key "default" "v2")
      ∷ delete_workload (object "v1")
      ∷ []
unfolding advance_rollout both_ready is_scale_up_ready is_scale_down_ready complete finish
    controller_revision ◌>>=◌
deletes = refl

-- with all new deployments ready and the old one scaled to 0
abbrev ready_one : Deployment
ready_one = record deployment { replicas = some (pos 7); ready_replicas = pos 7 }

both_ready_one :
    both_ready (api true (reference "v1")) (pos 7) (ready_one ∷ []) (gone ∷ []) [] ≡ (next true, [])
unfolding both_ready is_scale_up_ready is_scale_down_ready ◌>>=◌
both_ready_one = refl

-- the server after the rollout
abbrev later : Api
later = record (api true (reference "v1")) {
  get_trait = λ k h. ok (finished (trait (reference "v1")) revision);
}

completed_once_example :
    ((advance_rollout
        (api true (reference "v1"))
        (trait (reference "v1"))
        (object "v1")
        (ready_one ∷ [])
        (gone ∷ [])
        []).1
      ≡ patch_condition (finished (trait (reference "v1")) revision) reconcile_success
        ∷ update_status (finished (trait (reference "v1")) revision)
        ∷ get_controller_revision (key "default" "v2")
        ∷ delete_workload (object "v1")
        ∷ [])
    × (reconcile later request [] ≡ (stop (reply 0 none), get_trait request ∷ []))
completed_once_example =
    completed_once (api true (reference "v1")) later request (trait (reference "v1")) (object "v1")
      revision (pos 7) (ready_one ∷ []) (gone ∷ []) (λ e. cc e) refl both_ready_one
      (record { deleted = refl; revision = refl; written = λ t h. refl }) refl
