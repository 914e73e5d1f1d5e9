-- ===== src/Autoscaler/Examples.antt =====
-- Tests of the Autoscaler controller, and its theorems at concrete inputs.
use kubevela_catalog.Base.{
  true, [], ◌∷◌, none, some, ◌≡◌, refl, arith, leb, if◌then◌else◌, ◌%◌, ◌/◌,
}
use kubevela_catalog.Base.Int.{pos}
use kubevela_catalog.Base.Exec.{ok, err}
use kubevela_catalog.K8s.{server, new_error, key, empty_reference, Unstructured}
use kubevela_catalog.K8s.Sample.{kube}
use kubevela_catalog.Autoscaler.{Trigger, Scaler, Api}
use kubevela_catalog.Autoscaler.Cron.{cron_times}
use kubevela_catalog.Autoscaler.Cron.Window.{minutes, total, cron_times_lem}
use kubevela_catalog.Autoscaler.Keda.{reconcile}
use kubevela_catalog.Autoscaler.Keda.Writes.{IsFor, reconcile_writes_bounds}
use kubevela_catalog.Base.Exec.Keeps.{AllCalls}

abbrev cpu : Trigger
cpu = record { name = "load"; trigger_type = "cpu"; condition = ("value", "80") ∷ [] }

abbrev scaler : Scaler
scaler = record {
  meta = record {
    api_version = "standard.oam.dev/v1alpha1";
    kind = "Autoscaler";
    name = "scaler";
    namespace = "default";
    uid = "s";
    labels = [];
  };
  spec = record {
    min_replicas = some (pos 1);
    max_replicas = some (pos 4);
    triggers = cpu ∷ [];
    target_workload = record { name = "web"; api_version = "apps/v1"; kind = "Deployment" };
    workload_reference = empty_reference;
  };
}

abbrev workload : Unstructured
workload = record {
  api_version = "apps/v1";
  kind = "Deployment";
  name = "web";
  namespace = "default";
  uid = "w";
  labels = [];
}

-- A server that cannot be reached for the scaled object.
abbrev api : Api
api = record {
  kube = kube;
  get_trait = λ k h. ok scaler;
  locate_parent = λ s h. none;
  fetch_workload = λ s h. ok workload;
  fetch_children = λ u h. ok [];
  get_scaled_object = λ k h. err (server 500 "unavailable");
  create_scaled_object = λ o h. none;
  update_scaled_object = λ o h. none;
  patch_condition = λ s c h. none;
  decode_condition = λ c. err (new_error "no condition");
  parse_clock = λ s. ok (8, 0);
  parse_duration = λ s. ok (minutes 60);
  atoi = λ s. ok (pos 2);
  split = λ s. s ∷ [];
  trim_space = λ s. s;
  equal_fold = λ s t. leb 0 0;
  err_locate_app_config = "cannot locate the parent application configuration";
  err_locating_workload = "cannot find workload";
  err_fetch_child_resources = "cannot fetch child resources";
}

-- From 20:30, for ten hours: until 6:30 on the next day.
cron_times_lem_example :
    ((cron_times 20 30 (minutes 600)).end_minute ≡ pos (total 20 30 600 % 60))
    × ((cron_times 20 30 (minutes 600)).end_hour ≡ pos (total 20 30 600 / 60 % 24))
    × ((cron_times 20 30 (minutes 600)).one_more_day
        ≡ (if leb 1440 (total 20 30 600) then 1 else 0))
cron_times_lem_example = cron_times_lem 20 30 600 (omega arith) (omega arith)

-- a server without a scaled object
abbrev empty : Api
empty = record api { kube = record kube { is_not_found = λ e. true } }

reconcile_writes_bounds_example :
    AllCalls (IsFor scaler "default") (reconcile empty (key "default" "scaler") []).1
reconcile_writes_bounds_example =
    reconcile_writes_bounds empty (key "default" "scaler") scaler (λ h. refl)
