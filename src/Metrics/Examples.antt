-- ===== src/Metrics/Examples.antt =====
-- Tests of the metrics controller and its webhooks, and their theorems at concrete inputs.
use kubevela_catalog.Base.{[], ◌∷◌, String, none, some, Bool, true, false, ◌≡◌, refl}
use kubevela_catalog.Base.Int.{pos}
use kubevela_catalog.Base.Exec.{ok, stop}
use kubevela_catalog.K8s.{key, ObjectMeta, empty_reference, Unstructured, reconcile_success}
use kubevela_catalog.K8s.Sample.{kube}
use kubevela_catalog.Metrics.{Trait, other_item, Child, get_trait, patch_condition, Api}
use kubevela_catalog.Metrics.Controller.{
  is_disabled, zero_port, with_monitor, fetch_services_label, reconcile,
}
use kubevela_catalog.Metrics.Controller.Collection.{
  IsApart, disabled_keeps_monitor, collection_misses_monitors,
}
use kubevela_catalog.Base.Exec.Keeps.{AllCalls}
use kubevela_catalog.Metrics.Controller.Discovery.{no_service_found}

abbrev meta : ObjectMeta
meta = record {
  api_version = "standard.oam.dev/v1alpha1";
  kind = "MetricsTrait";
  name = "metrics";
  namespace = "default";
  uid = "m";
  labels = [];
}

abbrev trait : Bool → String → Trait
trait enabled monitor = record {
  meta = meta;
  spec = record {
    scrape_service = record {
      format = "";
      target_port = kube.from_int (pos 8080);
      target_selector = [];
      path = "";
      scheme = "";
      enabled = some enabled;
    };
    workload_reference = empty_reference;
  };
  status = record {
    condition = none;
    service_monitor_name = monitor;
    port = zero_port;
    selector_labels = [];
  };
}

abbrev workload : Unstructured
workload = record {
  api_version = "apps/v1";
  kind = "Deployment";
  name = "web";
  namespace = "default";
  uid = "w";
  labels = [];
}

abbrev child : Child
child = record {
  api_version = "v1";
  kind = "Service";
  labels = some (("app", "web") ∷ []);
  ports = other_item ∷ [];
}

abbrev api : Trait → Api
api t = record {
  kube = kube;
  get_trait = λ k h. ok t;
  fetch_workload = λ u h. ok workload;
  fetch_children = λ u h. ok (child ∷ []);
  patch_service = λ s h. ok s;
  patch_monitor = λ m h. none;
  delete_monitor = λ k h. none;
  update_status = λ u h. none;
  patch_condition = λ u c h. none;
  retry_on_conflict = λ m. m;
  discovery_from_pod_template = λ u. (kube.from_int (pos 8080) ∷ [], [], none);
  port_text = λ p. "8080";
  service_kind = "Service";
  service_api_version = "v1";
  err_locating_workload = "cannot find workload";
  err_locating_service = "cannot find service";
  err_creating_service = "cannot create service";
  err_update_status = "cannot update status";
}

disabled_keeps_monitor_example :
    (reconcile (api (trait false "metrics")) (key "default" "metrics") []).1
    ≡ patch_condition (with_monitor (trait false "metrics") "") reconcile_success
      ∷ get_trait (key "default" "metrics")
      ∷ []
unfolding is_disabled
disabled_keeps_monitor_example =
    disabled_keeps_monitor (api (trait false "metrics")) (key "default" "metrics")
      (trait false "metrics") refl refl refl

collection_misses_monitors_example :
    AllCalls
      (IsApart (trait true "old"))
      (reconcile (api (trait true "old")) (key "default" "metrics") []).1
collection_misses_monitors_example =
    collection_misses_monitors (api (trait true "old")) (key "default" "metrics") (trait true "old")
      (λ P m keeps. keeps) (λ e. cc e) refl

no_service_found_example :
    (fetch_services_label (api (trait true "")) workload (kube.from_int (pos 8080)) []).0
    ≡ stop (ok none)
no_service_found_example =
    no_service_found (api (trait true "")) workload (kube.from_int (pos 8080)) (child ∷ []) [] refl
      (tt, tt) refl
