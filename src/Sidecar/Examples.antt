-- ===== src/Sidecar/Examples.antt =====
-- The theorems on the SidecarTrait's controller at concrete inputs.
use kubevela_catalog.Base.{
  String, List, [], ◌∷◌, none, some, false, ◌||◌, ◌≡◌, refl, str_eq, if◌then◌else◌,
}
use kubevela_catalog.Base.Exec.{Result, ok, err, next}
use kubevela_catalog.K8s.{Error, key, Unstructured}
use kubevela_catalog.K8s.Sample.{kube}
use kubevela_catalog.Sidecar.{Entry, Item, Trait, Resource, Document, array, Api}
use kubevela_catalog.Sidecar.Reconcile.{reconcile, sidecar_each}
use kubevela_catalog.Sidecar.Reconcile.Success.{ReportsSuccess, failures_reported_as_success}
use kubevela_catalog.Sidecar.Reconcile.Deploy.{any_takes, patching, sidecar_each_lem}
use kubevela_catalog.Sidecar.Combine.{combine_containers}
use kubevela_catalog.Sidecar.Combine.Again.{insert, combine_containers_lem}

abbrev encode : Item → Result Error Entry
encode i = ok (record { name = some i.name; body = i.body })

abbrev logger : Item
logger = record { name = "logger"; body = "fluentd:2" }

abbrev present : List Entry
present =
    record { name = some "web"; body = "nginx" }
    ∷ record { name = some "logger"; body = "fluentd:1" }
    ∷ []

combine_containers_lem_example :
    (combine_containers encode present logger
      ≡ insert present "logger" (record { name = some "logger"; body = "fluentd:2" }))
    × (combine_containers encode (combine_containers encode present logger) logger
        ≡ combine_containers encode present logger)
combine_containers_lem_example =
    combine_containers_lem encode logger (record { name = some "logger"; body = "fluentd:2" })
      present refl refl

abbrev trait : Trait
trait = record {
  meta = record {
    api_version = "core.oam.dev/v1alpha2";
    kind = "SidecarTrait";
    name = "sidecar";
    namespace = "default";
    uid = "s";
    labels = [];
  };
  container = logger;
  volumes = [];
}

abbrev object : Unstructured
object = record {
  api_version = "apps/v1";
  kind = "Deployment";
  name = "web";
  namespace = "default";
  uid = "w";
  labels = [];
}

abbrev web : Resource
web = record { object = object; content = "web" }

abbrev job : Resource
job = record { object = record object { kind = "Job" }; content = "job" }

abbrev slice : Resource → List String → List Entry
slice r path = present

abbrev put : Resource → List Entry → List String → Resource
put r entries path = record r { content = "web with a logger" }

-- of the resources only deployments have the fields
abbrev api : Api
api = record {
  kube = kube;
  get_trait = λ k h. ok trait;
  fetch_workload = λ t h. ok web;
  fetch_children = λ r h. ok [];
  open_api_schema = λ h. ok "schemas";
  patch_resource = λ r r' h. none;
  patch_condition = λ t c h. none;
  new_open_api_data = λ s. ok (record { schemas = s });
  lookup_resource = λ d group version kind.
      if str_eq kind "Deployment" then some (record { definition = kind }) else none;
  lookup_schema_for_field =
      λ schema path. elim schema [ none ↦ ok none | some s ↦ ok (some array) ];
  group_version = λ v. ("apps", "v1");
  nested_slice = λ r path. ok (some (slice r path));
  set_nested_field = λ r entries path. ok (put r entries path);
  encode = encode;
  err_fetch_child_resources = "cannot fetch child resources";
  nil_error_condition = none;
}

abbrev down : Api
down = record api { open_api_schema = λ h. err (Error.server 503 "unavailable") }

failures_reported_as_success_example :
    ReportsSuccess down trait (reconcile down (key "default" "sidecar") [])
failures_reported_as_success_example =
    failures_reported_as_success down (λ t c h. refl) (key "default" "sidecar") trait web [] refl
      refl refl

abbrev document : Document
document = record { schemas = "schemas" }

sidecar_each_lem_example : sidecar_each api trait document false (web ∷ job ∷ []) [] ≡ (
  next (false || any_takes api trait document slice put (web ∷ job ∷ [])),
  patching api trait document slice put (web ∷ job ∷ []) [],
)
sidecar_each_lem_example =
    sidecar_each_lem api trait document slice put (web ∷ job ∷ []) false []
      (record { reads = λ r path. refl; writes = λ r entries path. refl; patches = λ r r' h. refl })
