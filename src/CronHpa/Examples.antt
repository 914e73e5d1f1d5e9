-- ===== src/CronHpa/Examples.antt =====
-- Tests of the controller of the CronHPATrait, and its theorems at concrete inputs.
use kubevela_catalog.Base.{
  [], ◌∷◌, Option, none, some, true, false, ◌≡◌, refl, str_eq, if◌then◌else◌,
}
use kubevela_catalog.Base.Int.{pos}
use kubevela_catalog.Base.Exec.{Result, ok, err, panic}
use kubevela_catalog.K8s.{Error, server, NamespacedName, key, TypedReference, Unstructured}
use kubevela_catalog.K8s.Sample.{kube}
use kubevela_catalog.CronHpa.{Trait, get_cron_hpa, delete_cron_hpa, Api}
use kubevela_catalog.CronHpa.Reconcile.{reconcile}
use kubevela_catalog.CronHpa.Reconcile.Missing.{nothing_to_scale_panics}

abbrev recorded : TypedReference
recorded = record {
  api_version = "autoscaling.alibabacloud.com/v1beta1";
  kind = "CronHorizontalPodAutoscaler";
  name = "cron";
  uid = "old";
}

abbrev trait : Trait
trait = record {
  meta = record {
    api_version = "core.oam.dev/v1alpha2";
    kind = "CronHPATrait";
    name = "cron";
    namespace = "default";
    uid = "t";
    labels = [];
  };
  spec = record {
    exclude_dates = [];
    jobs =
        record { name = "up"; schedule = "0 8 * * *"; run_once = false; target_size = pos 3 } ∷ [];
    workload_reference = record {
      api_version = "core.oam.dev/v1alpha2";
      kind = "ContainerizedWorkload";
      name = "web";
      uid = "w";
    };
  };
  resources = recorded ∷ [];
}

abbrev workload : Unstructured
workload = record {
  api_version = "core.oam.dev/v1alpha2";
  kind = "ContainerizedWorkload";
  name = "web";
  namespace = "default";
  uid = "w";
  labels = [];
}

-- the workload's only child
abbrev config : Unstructured
config = record workload { api_version = "v1"; kind = "ConfigMap" }

abbrev object : NamespacedName → Unstructured
object k = record workload { name = k.name }

abbrev api : Api
api = record {
  kube = kube;
  get_trait = λ k h. ok trait;
  get_workload = λ r k h. ok workload;
  fetch_children = λ u h. ok (config ∷ []);
  patch_cron_hpa = λ c h. ok recorded;
  get_cron_hpa = λ k h. ok (object k);
  delete_cron_hpa = λ u h. none;
  update_status = λ t h. none;
  patch_condition = λ t c h. none;
  own = λ t c. ok c;
  group = λ u. "apps";
  version = λ u. "v1";
  cron_hpa_api_version = "autoscaling.alibabacloud.com/v1beta1";
}

-- the server has the object named cron
abbrev stored : NamespacedName → Option Unstructured
stored k = if str_eq k.name "cron" then some (object k) else none

abbrev gone : TypedReference
gone = record recorded { name = "gone" }

abbrev current : TypedReference
current = record recorded { name = "current"; uid = "new" }

abbrev found : Option Unstructured → Result Error Unstructured
found none = err (server 404 "none")
found (some u) = ok u

abbrev partial : Api
partial = record api {
  get_cron_hpa = λ k h. found (stored k);
  kube = record kube { is_not_found = λ e. true };
}

nothing_to_scale_panics_example : (reconcile api (key "default" "cron") []).0 ≡ panic
nothing_to_scale_panics_example =
    nothing_to_scale_panics api (key "default" "cron") trait workload (config ∷ []) refl refl refl
      (λ h. refl) (refl, tt) (λ h. refl)
