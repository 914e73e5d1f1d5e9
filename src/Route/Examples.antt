-- ===== src/Route/Examples.antt =====
-- Tests of the Route controller, and its theorems at concrete inputs.
use kubevela_catalog.Base.{
  All, String, List, [], ◌∷◌, Option, none, some, true, ◌≡◌, refl, contains,
}
use kubevela_catalog.Base.Int.{pos}
use kubevela_catalog.Base.Exec.{ok, panic, ◌>>=◌}
use kubevela_catalog.K8s.{new_error, key, ObjectMeta, empty_reference, Unstructured, IntOrString}
use kubevela_catalog.K8s.Sample.{kube}
use kubevela_catalog.Route.{Backend, Rule, Route}
use kubevela_catalog.Route.Backends.{
  Service, wants_backend, any_wants_backend, need_discovery, fill_route_trait_with_service,
}
use kubevela_catalog.Route.Backends.Filling.{fill_idempotent}
use kubevela_catalog.Route.Ingress.Construct.{
  nginx_annotations, contour_annotations, construct, is_local, ingresses_from, rule_ingress,
  service_ingress, service_of, ingress_of, rule_name,
}
use kubevela_catalog.Route.Ingress.Construct.Objects.{IngressesOf, construct-IngressesOf}
use kubevela_catalog.Route.Ingress.Status.{
  nginx, RouteIngress, get_route_ingress, construct_by, check_issuer_of, check_ingresses,
  check_ingress, check_certificate_of, check_certificate, check_address, address_of, has_address,
  use_client, first_condition, check_status, ready,
}
use kubevela_catalog.Route.Ingress.Status.Ready.{IsServing, check_status-IsServing}
use kubevela_catalog.Route.Server.{Api}
use kubevela_catalog.Route.Reconcile.{reconcile}
use kubevela_catalog.Route.Reconcile.Fallback.{unknown_provider_panics}

abbrev port : IntOrString
port = kube.from_int (pos 80)

abbrev named_port : IntOrString
named_port = record { is_string = true; int_val = pos 0; str_val = "http" }

abbrev backend : Backend
backend = record {
  read_timeout = pos 60;
  send_timeout = pos 30;
  backend_service = some (record { port = port; service_name = "web" });
}

abbrev rule : String → Option Backend → Rule
rule name b = record {
  name = name;
  path = "/";
  rewrite_target = "/app";
  custom_headers = [];
  default_backend = none;
  backend = b;
}

abbrev meta : ObjectMeta
meta = record {
  api_version = "standard.oam.dev/v1alpha1";
  kind = "Route";
  name = "shop";
  namespace = "default";
  uid = "u1";
  labels = [];
}

abbrev route : String → List Rule → Route
route provider rules = record {
  meta = meta;
  spec = record {
    workload_reference = empty_reference;
    host = "shop.example.com";
    tls = some (record { issuer_name = "issuer"; issuer_type = "ClusterIssuer" });
    rules = rules;
    provider = provider;
    ingress_class = "nginx";
  };
  status = record { ingresses = []; service = none; status = ""; conditions = [] };
}

abbrev shop : Route
shop = route "nginx" (rule "front" (some backend) ∷ rule "" none ∷ [])

abbrev service : Service
service = record { name = "svc"; ports = record { port = pos 8080; target_port = port } ∷ [] }

abbrev workload : Unstructured
workload = record {
  api_version = "apps/v1";
  kind = "Deployment";
  name = "web";
  namespace = "default";
  uid = "w";
  labels = [];
}

-- A server that takes every write, where everything is ready.
abbrev api : Route → Api
api t = record {
  kube = kube;
  get_trait = λ k h. ok t;
  fetch_workload = λ r h. ok workload;
  fetch_children = λ u h. ([], none);
  fetch_workload_definition = λ u h. ok ("", true);
  patch_service = λ s h. none;
  patch_ingress = λ i h. none;
  get_issuer = λ k h. ok [];
  get_certificate = λ k h.
      ok (record { condition_type = "Ready"; status = "True"; reason = ""; message = "" } ∷ []);
  get_ingress = λ k h. ok (record { ip = "10.0.0.1"; hostname = "" } ∷ []);
  update_status = λ r h. none;
  patch_condition = λ r c h. none;
  retry_on_conflict = λ m. m;
  decode_service = λ u. none;
  discovery_from_pod_spec = λ u path. ok (port ∷ []);
  discovery_from_pod_template = λ u. ok (port ∷ [], []);
  select_oam_app_labels_without_revision = λ l. l;
  error_text = λ e. "error";
  err_locating_workload = "cannot find workload";
  err_creating_service = "cannot create service";
  service_kind = "Service";
  service_api_version = "v1";
  condition_true = "True";
  certificate_ready = "Ready";
  type_synced = "Synced";
  type_ready = "Ready";
  reason_unavailable = "Unavailable";
  reason_creating = "Creating";
  reason_available = "Available";
}

fill_idempotent_example :
    fill_route_trait_with_service kube service (fill_route_trait_with_service kube service shop)
    ≡ fill_route_trait_with_service kube service shop
fill_idempotent_example = fill_idempotent kube service shop (λ e. cc e) (λ e. cc e, tt)

construct-IngressesOf_example :
    IngressesOf shop 0 shop.spec.rules (construct kube contour_annotations shop)
unfolding contains
construct-IngressesOf_example =
    construct-IngressesOf kube contour_annotations shop (λ e. cc e) refl refl

abbrev by_nginx : RouteIngress
by_nginx = record { provider = nginx; has_client = true }

check_status-IsServing_example :
    All (IsServing (api shop) shop) (construct_by (api shop) by_nginx shop)
unfolding check_status check_issuer_of check_ingresses check_ingress check_certificate_of
    check_certificate check_address address_of has_address use_client first_condition ready
    construct_by construct contains is_local ingresses_from rule_ingress service_ingress service_of
    ingress_of ◌>>=◌
check_status-IsServing_example =
    check_status-IsServing (api shop) by_nginx shop [] (ready (api shop)) refl refl

abbrev odd : Route
odd = route "traefik" (rule "front" (some backend) ∷ [])

unknown_provider_panics_example : (reconcile (api odd) (key "default" "shop") []).0 ≡ panic
unfolding need_discovery any_wants_backend wants_backend get_route_ingress construct contains
    is_local ingresses_from rule_ingress service_ingress service_of rule_name
unknown_provider_panics_example =
    unknown_provider_panics (api odd) (key "default" "shop") odd workload
      (new_error "unknow route ingress provider 'traefik', only 'nginx' is supported now")
      (ingress_of kube nginx_annotations odd "front" (rule "front" (some backend)) backend
        (record { port = port; service_name = "web" }))
      [] refl refl refl refl refl (λ i h. refl)
