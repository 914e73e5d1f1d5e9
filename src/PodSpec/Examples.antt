-- ===== src/PodSpec/Examples.antt =====
-- Tests of the controller of the PodSpecWorkload and its webhooks, and their theorems at concrete
-- inputs.
use kubevela_catalog.Base.{[], ◌∷◌, List, length, get_elem?, none, some, ◌≡◌, ◌≢◌, refl, arith}
use kubevela_catalog.Base.Int.{pos}
use kubevela_catalog.Base.Exec.{ok}
use kubevela_catalog.K8s.{empty_reference}
use kubevela_catalog.K8s.Sample.{kube}
use kubevela_catalog.K8s.Admission.{create, update, mutating_handle}
use kubevela_catalog.PodSpec.{ContainerPort, Container, Workload, Api}
use kubevela_catalog.PodSpec.Controller.{service_ports}
use kubevela_catalog.PodSpec.Controller.Ports.{all_ports, entry, service_ports_numbered}
use kubevela_catalog.PodSpec.Webhook.{default_pod_spec_workload, handle_validating, handle_mutating}
use kubevela_catalog.PodSpec.Webhook.Defaulting.{defaulted_never_panics}

abbrev http : ContainerPort
http = record { name = "http"; protocol = ""; container_port = pos 80 }

abbrev https : ContainerPort
https = record { name = "https"; protocol = "TCP"; container_port = pos 443 }

abbrev containers : List Container
containers =
    record { name = "web"; ports = http ∷ [] } ∷ record { name = "proxy"; ports = https ∷ [] } ∷ []

abbrev workload : Workload
workload = record {
  meta = record {
    api_version = "standard.oam.dev/v1alpha1";
    kind = "PodSpecWorkload";
    name = "shop";
    namespace = "default";
    uid = "w";
    labels = [];
  };
  replicas = none;
  containers = containers;
  resources = [];
}

abbrev api : Api
api = record {
  kube = kube;
  get_workload = λ k h. ok workload;
  patch_deployment = λ d h. ok empty_reference;
  patch_service = λ s h. ok empty_reference;
  update_status = λ w h. ok w;
  patch_condition = λ w c h. none;
  retry_on_conflict = λ m. m;
  pass_label_and_annotation = λ w d. d;
  pass_to_template = λ w d. d;
  own_deployment = λ w d. ok d;
  own_service = λ w s. ok s;
}

service_ports_numbered_example :
    (length (service_ports kube (pos 8080) containers) ≡ length (all_ports containers))
    × (get_elem? (service_ports kube (pos 8080) containers) 1 ≡ some (entry kube (pos 8081) https))
unfolding all_ports
service_ports_numbered_example = service_ports_numbered kube containers 1 https (omega arith) refl

defaulted_never_panics_example :
    (handle_validating (λ m. []) (λ n. []) create (ok workload) (ok workload) ≡ none)
    × (handle_validating
          (λ m. [])
          (λ n. [])
          update
          (ok (default_pod_spec_workload workload))
          (ok workload)
        ≢ none)
unfolding handle_mutating mutating_handle
defaulted_never_panics_example =
    defaulted_never_panics (λ m. []) (λ n. []) workload (default_pod_spec_workload workload)
      (λ w. none) update (ok workload) refl
