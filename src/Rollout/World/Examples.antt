-- ===== src/Rollout/World/Examples.antt =====
-- The theorems on the rollout system at a concrete rollout.
use kubevela_catalog.Base.{[], ◌∷◌, none, some, true, false, ◌≡◌, refl, arith}
use kubevela_catalog.Base.Int.{pos, add32, sub32}
use kubevela_catalog.Base.Exec.{ok, ◌>>=◌}
use kubevela_catalog.K8s.{TypedReference, IntOrString, Unstructured}
use kubevela_catalog.K8s.Sample.{kube}
use kubevela_catalog.Rollout.{Trait, Deployment, Api}
use kubevela_catalog.Rollout.Scale.{
  is_scale_up_ready, all_ready, is_scale_down_ready, all_gone, scale_up_gradually, scale_up,
  scale_down_gradually, scale_down, update, up_replicas, down_replicas,
}
use kubevela_catalog.Rollout.Reconcile.{
  scale, both_ready, complete, finish, controller_revision, advance_rollout,
}
use kubevela_catalog.Rollout.World.{World, landed, round, Run, start, later, at}
use kubevela_catalog.Rollout.World.Refines.{IsBounded, Shows}
use kubevela_catalog.Rollout.World.Served.{Advances, rollout_refines, gone_only_when_served}
use kubevela_catalog.Rollout.World.Turn.{IsAt, turn}
use kubevela_catalog.Rollout.World.Ends.{turns, rollout_terminates}

abbrev reference : TypedReference
reference = record { api_version = "apps/v1"; kind = "Deployment"; name = "v2"; uid = "v2" }

abbrev number : IntOrString
number = record { is_string = false; int_val = pos 2; str_val = "" }

abbrev trait : Trait
trait = record {
  name = "rollout";
  namespace = "default";
  spec = record {
    replica = some (pos 7);
    batch = some number;
    max_unavailable = some number;
    workload_reference = reference;
  };
  status = record { rollout_history = []; current_workload_reference = reference };
}

abbrev old_workload : Unstructured
old_workload = record {
  api_version = "apps/v1";
  kind = "Deployment";
  name = "v1";
  namespace = "default";
  uid = "v1";
  labels = [];
}

abbrev seven : Deployment
seven = record {
  name = "v2";
  replicas = some (pos 7);
  available_replicas = pos 7;
  ready_replicas = pos 7;
}

abbrev three : Deployment
three = record {
  name = "v1";
  replicas = some (pos 3);
  available_replicas = pos 3;
  ready_replicas = pos 3;
}

abbrev gone : Deployment
gone = record three { replicas = some (pos 0); available_replicas = pos 0; ready_replicas = pos 0 }

-- a server that takes every write
abbrev api : Api
api = record {
  kube = kube;
  get_trait = λ k h. ok trait;
  get_workload = λ ref k h. ok old_workload;
  fetch_workload_definition = λ u h. ok [];
  get_controller_revision = λ k h. ok (record { revision = pos 2; history_data = "{}" });
  update_deployment = λ d h. none;
  delete_workload = λ u h. none;
  update_status = λ t h. ok t;
  patch_condition = λ t c h. none;
  decode_deployment = λ u. ok three;
}

abbrev before : World
before = record { new = seven; old = gone; deleted = false }

-- the world after one round
abbrev after : World
after = landed api (advance_rollout api trait old_workload (seven ∷ []) (gone ∷ []) []).1 before

run : Run trait old_workload before after
run = later start (round api refl)

number_lem : (v : IntOrString) → some number ≡ some v → v.int_val ≡ pos 2
number_lem v e = cc e

bounded : IsBounded trait 7 2 2
bounded = record {
  replica = refl;
  batch_of = number_lem;
  unavailable_of = number_lem;
  target_fits = omega arith;
  unavailable_fits = omega arith;
}

shows : Shows trait 7 2 2 before (at 7 0 false)
shows = record {
  up = refl;
  down = refl;
  handed_over = refl;
  ready = 7;
  is_ready = refl;
  ready_le = omega arith;
  below = omega arith;
  down_fits = omega arith;
  other_name = refl;
}

after_deleted : after.deleted ≡ true
unfolding landed advance_rollout both_ready is_scale_up_ready all_ready is_scale_down_ready all_gone
    complete finish controller_revision ◌>>=◌
after_deleted = refl

-- three new replicas, and three old ones
abbrev middle : World
middle = record { new = record three { name = "v2" }; old = three; deleted = false }

middle-Shows : Shows trait 7 2 2 middle (at 3 3 false)
middle-Shows = record {
  up = refl;
  down = refl;
  handed_over = refl;
  ready = 3;
  is_ready = refl;
  ready_le = omega arith;
  below = omega arith;
  down_fits = omega arith;
  other_name = refl;
}

-- a round of the scaling
abbrev scaled : World
scaled =
    landed api (advance_rollout api trait old_workload (middle.new ∷ []) (three ∷ []) []).1 middle

rollout_refines_example : Advances trait old_workload 7 2 2 bounded (at 3 3 false) scaled
rollout_refines_example =
    rollout_refines trait old_workload 7 2 2 bounded (at 3 3 false) (round api refl) middle-Shows

-- It goes up and down by two.
scaled_runs : (scaled.new.replicas ≡ some (pos 5)) × (scaled.old.replicas ≡ some (pos 1))
unfolding landed advance_rollout both_ready is_scale_up_ready all_ready is_scale_down_ready all_gone
    scale scale_up_gradually scale_up scale_down_gradually scale_down update up_replicas
    down_replicas add32 sub32 ◌>>=◌
scaled_runs = (refl, refl)

gone_only_when_served_example :
    (after.new.replicas ≡ some (pos 7)) × (after.old.replicas ≡ some (pos 0))
gone_only_when_served_example =
    gone_only_when_served trait old_workload 7 2 2 bounded 7 0 run shows after_deleted

rollout_terminates_example :
    let w = turns api trait old_workload 4 middle in
    IsAt w 7 0
    × (IsAt (turn api trait old_workload w) 7 0 × ((turn api trait old_workload w).deleted ≡ true))
rollout_terminates_example =
    rollout_terminates api trait old_workload 7 2 2 (λ d h. refl) (λ u h. refl)
      (record {
        replica = refl;
        batch_of = number;
        batch_given = refl;
        batch_value = refl;
        unavailable_of = number;
        unavailable_given = refl;
        unavailable_value = refl;
      })
      (omega arith) (omega arith) (omega arith) (omega arith) 4 middle 3 3 (omega arith)
      (omega arith) (omega arith) (omega arith)
      (record {
        new_settled = record { wanted = refl; ready = refl };
        old_settled = record { wanted = refl; ready = refl };
        other_name = refl;
      })
