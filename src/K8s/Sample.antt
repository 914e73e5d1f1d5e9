-- ===== src/K8s/Sample.antt =====
-- Sample libraries, for the tests and the examples of all controllers.
use kubevela_catalog.Base.{some, false}
use kubevela_catalog.K8s.{Kube}

abbrev pub kube : Kube
kube = record {
  is_not_found = λ e. false;
  ignore_not_found = λ e. some e;
  wait_result = record { requeue_after = 30 };
  oam_api_version = "core.oam.dev/v1alpha2";
  apps_api_version = "apps/v1";
  core_api_version = "v1";
  networking_api_version = "networking.k8s.io/v1beta1";
  gvk_string = λ u. "apps/v1, Kind=Deployment";
  from_int = λ n. record { is_string = false; int_val = n; str_val = "" };
  int_value = λ p. p.int_val;
}
