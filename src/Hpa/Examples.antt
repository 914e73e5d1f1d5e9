-- ===== src/Hpa/Examples.antt =====
-- Tests of the controller of the HorizontalPodAutoscalerTrait, and its theorems at concrete inputs.
use kubevela_catalog.Base.{All, [], ◌∷◌, none, some, true, ◌≡◌, sym, ap}
use kubevela_catalog.Base.Int.{pos}
use kubevela_catalog.Base.Exec.{Result, ok}
use kubevela_catalog.K8s.{Error, key, TypedReference, Unstructured}
use kubevela_catalog.K8s.Sample.{kube}
use kubevela_catalog.Hpa.{Trait, Hpa, Api}
use kubevela_catalog.Hpa.Render.{render_hpa}
use kubevela_catalog.Hpa.Render.Targets.{
  KeepsTarget, IsForDeployment, Holds, render_hpa-IsForDeployment,
}
use kubevela_catalog.Hpa.Reconcile.{reconcile}
use kubevela_catalog.Hpa.Reconcile.Cleanup.{NoDelete, Echoes, reconcile_deletes_nothing}

abbrev reference : TypedReference
reference = record { api_version = "apps/v1"; kind = "Deployment"; name = "web"; uid = "w" }

abbrev legacy : TypedReference
legacy = record {
  api_version = "autoscaling/v1";
  kind = "HorizontalPodAutoscaler";
  name = "old";
  uid = "old";
}

abbrev trait : Trait
trait = record {
  meta = record {
    api_version = "core.oam.dev/v1alpha2";
    kind = "HorizontalPodAutoscalerTrait";
    name = "hpa";
    namespace = "default";
    uid = "h";
    labels = [];
  };
  spec = record {
    min_replicas = some (pos 1);
    max_replicas = pos 5;
    target_cpu_utilization_percentage = some (pos 80);
    workload_reference = reference;
  };
  resources = legacy ∷ [];
}

abbrev workload : Unstructured
workload = record {
  api_version = "apps/v1";
  kind = "StatefulSet";
  name = "web";
  namespace = "default";
  uid = "w";
  labels = [];
}

abbrev api : Api
api = record {
  kube = record kube { gvk_string = λ u. "apps/v1, Kind=StatefulSet" };
  get_trait = λ k h. ok trait;
  get_workload = λ r k h. ok workload;
  fetch_workload_definition = λ u h. ok [];
  patch_hpa = λ p h. ok (record legacy { name = "hpa"; uid = "new" });
  update_status = λ t h. ok t;
  get_hpa = λ k h. ok workload;
  delete_hpa = λ u h. none;
  patch_condition = λ t c h. none;
  decode_deployment = λ u. ok (record { name = u.name; have_requests = true ∷ [] });
  own = λ t p. ok p;
  group_version_hpa = "autoscaling/v1";
}

ok_injective : {A : Type 0} (a b : A) → ◌≡◌ {A = Result Error A} (ok a) (ok b) → a ≡ b
ok_injective a b e = cc e

keeps_target : KeepsTarget api
keeps_target t p q e = (
  ap (λ (x : Hpa). x.name) (ok_injective q p (sym e)),
  ap (λ (x : Hpa). x.scale_target_ref) (ok_injective q p (sym e)),
)

echoes : Echoes api
echoes t u h e = ap (λ (x : Trait). x.resources) (ok_injective u t (sym e))

reconcile_deletes_nothing_example : NoDelete (reconcile api (key "default" "hpa") []).1
reconcile_deletes_nothing_example = reconcile_deletes_nothing api (key "default" "hpa") echoes

render_hpa-IsForDeployment_example :
    Holds (All (IsForDeployment trait)) (render_hpa api trait (workload ∷ workload ∷ []))
render_hpa-IsForDeployment_example =
    render_hpa-IsForDeployment api trait (workload ∷ workload ∷ []) keeps_target
