-- ===== src/MetricHpa/Examples.antt =====
-- The theorems on the MetricHPATrait's controller at concrete inputs.
use kubevela_catalog.Base.{[], ◌∷◌, Option, none, some, true, ◌≡◌, ◌≢◌, refl}
use kubevela_catalog.Base.Int.{pos}
use kubevela_catalog.Base.Exec.{Result, ok, err, panic, pure, return, ask, on_error, ◌>>=◌}
use kubevela_catalog.K8s.{Error, server, key, TypedReference, Unstructured, NamespacedName}
use kubevela_catalog.K8s.Sample.{kube}
use kubevela_catalog.MetricHpa.{
  Trait, made_config_map, made_scaled_object, Sort, deployment, service, scaled_object, get_object,
  delete_object, get_trait, get_workload, fetch_children, patch_object, Api,
}
use kubevela_catalog.MetricHpa.Render.{
  prome_config_map, render_prometheus_resources, scaled_object_of,
}
use kubevela_catalog.MetricHpa.Render.Consistent.{IsMounted, IsServed, render-IsServed}
use kubevela_catalog.MetricHpa.Reconcile.{
  Uids, sort_of, delete_found, clean_up, cleanup_resources, reconcile_trait, reconcile,
}
use kubevela_catalog.MetricHpa.Reconcile.External.{external_server_panics}
use kubevela_catalog.MetricHpa.Reconcile.Safe.{own_server_never_panics}

abbrev reference : TypedReference
reference = record {
  api_version = "core.oam.dev/v1alpha2";
  kind = "ContainerizedWorkload";
  name = "web";
  uid = "w";
}

abbrev legacy : TypedReference
legacy = record { api_version = "apps/v1"; kind = "Deployment"; name = "old"; uid = "old" }

abbrev current : TypedReference
current = record { api_version = "v1"; kind = "Service"; name = "new"; uid = "svc" }

abbrev trait : Trait
trait = record {
  meta = record {
    api_version = "extend.oam.dev/v1alpha2";
    kind = "MetricHPATrait";
    name = "hpa";
    namespace = "default";
    uid = "m";
    labels = [];
  };
  spec = record {
    polling_interval = some (pos 10);
    cooldown_period = none;
    min_replica_count = some (pos 1);
    max_replica_count = some (pos 5);
    prom_server_address = "";
    prom_query = "sum(rate(http_requests[1m]))";
    prom_threshold = some (pos 3);
    workload_reference = reference;
  };
  resources = legacy ∷ current ∷ [];
}

abbrev external : Trait
external = record trait { spec = record trait.spec { prom_server_address = "http://prom" } }

abbrev workload : Unstructured
workload = record {
  api_version = "core.oam.dev/v1alpha2";
  kind = "ContainerizedWorkload";
  name = "web";
  namespace = "default";
  uid = "w";
  labels = [];
}

abbrev child : Unstructured
child = record workload { api_version = "apps/v1"; kind = "Deployment" }

abbrev api : Api
api = record {
  kube = record kube { gvk_string = λ u. "apps/v1, Kind=Deployment" };
  get_trait = λ k h. ok external;
  get_workload = λ r k h. ok workload;
  fetch_children = λ u h. ok (child ∷ []);
  patch_object = λ m h. ok workload;
  get_object = λ s k h. ok child;
  delete_object = λ s u h. none;
  update_status = λ t h. ok t;
  patch_condition = λ t c h. none;
  decode = λ s u. none;
  own = λ t m. ok m;
  error_text = λ e. "error";
  kind_deployment = "Deployment";
  kind_service = "Service";
  keda_api_version = "keda.k8s.io/v1alpha1";
  show = λ n. "9090";
}

abbrev uids : Uids
uids = record { deploy_uid = "deploy"; service_uid = "svc"; scaledobject_uid = "scaled" }

-- the server has the deployments and no other object
abbrev stored : Sort → NamespacedName → Option Unstructured
stored deployment k = some child
stored service k = none
stored scaled_object k = none

abbrev missing : Error
missing = server 404 "none"

abbrev found : Option Unstructured → Result Error Unstructured
found none = err missing
found (some u) = ok u

abbrev partial : Api
partial = record api {
  kube = record kube { is_not_found = λ e. true };
  get_object = λ s k h. found (stored s k);
}

abbrev gone : TypedReference
gone = record current { name = "gone"; uid = "gone" }

-- The old deployment is deleted, another service is not found, the current one is not touched.
collects :
    (cleanup_resources partial trait uids (legacy ∷ gone ∷ current ∷ []) []).1
    ≡ get_object service (key "default" "gone")
      ∷ delete_object deployment child
      ∷ get_object deployment (key "default" "old")
      ∷ []
unfolding cleanup_resources clean_up sort_of delete_found ◌>>=◌ pure return ask on_error
collects = refl

external_server_panics_example : reconcile api (key "default" "hpa") [] ≡ (
  panic,
  patch_object (made_scaled_object (scaled_object_of api external "http://prom" (pos 3)))
      ∷ patch_object (made_config_map (prome_config_map external))
      ∷ fetch_children workload
      ∷ get_workload reference (key "default" "web")
      ∷ get_trait (key "default" "hpa")
      ∷ [],
)
external_server_panics_example =
    external_server_panics api external (λ m. m) (λ m. workload) (key "default" "hpa") workload
      (child ∷ []) (pos 3)
      (record { decodes = λ s u. refl; owns = λ m. refl; applies = λ m h. refl }) refl (λ h. refl)
      (λ h. refl) refl refl

own_server_never_panics_example : (reconcile_trait api trait []).0 ≢ panic
own_server_never_panics_example = own_server_never_panics api trait (pos 3) [] refl refl

render-IsServed_example :
    let (d, s) = render_prometheus_resources trait in
    IsMounted (prome_config_map trait) d
    × IsServed d s
    × ((prome_config_map trait).namespace ≡ d.namespace)
render-IsServed_example = render-IsServed trait
