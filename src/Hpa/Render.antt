-- ===== src/Hpa/Render.antt =====
-- The autoscalers for the resources of a workload
-- (legacy/traits/hpatrait/controllers/horizontalpodautoscalertrait_controller_helper.go).
pub mod Targets
use kubevela_catalog.Base.{
  String, List, [], ◌∷◌, Option, none, some, Bool, true, false, str_eq, if◌then◌else◌,
}
use kubevela_catalog.Base.Exec.{Result, ok, err}
use kubevela_catalog.K8s.{Error, new_error, wrapped, Unstructured}
use kubevela_catalog.Hpa.{Trait, ScaleTarget, Hpa, Deployment, Api}

abbrev pub kind_hpa : String
kind_hpa = "HorizontalPodAutoscaler"

-- the loop over the containers
unfoldable pub all_have_requests : List Bool → Bool
all_have_requests [] = true
all_have_requests (b ∷ bs) = if b then all_have_requests bs else false

-- both an element and the rest, or the first error
unfoldable pub cons_result :
    {A : Type 0} → Result Error A → Result Error (List A) → Result Error (List A)
cons_result (err e) rest = err e
cons_result (ok x) (err e) = err e
cons_result (ok x) (ok xs) = ok (x ∷ xs)

module _ (api : Api) where
  -- one case of `renderReference`, with the texts of its errors
  unfoldable pub reference_to :
      String → String → Result Error Deployment → Result Error (Option ScaleTarget)
  reference_to convert requests (err e) = err (wrapped e convert)
  reference_to convert requests (ok d) =
      if all_have_requests d.have_requests
      then ok
          (some (record { kind = "Deployment"; name = d.name; api_version = api.apps_api_version }))
      else err (new_error requests)

  -- nothing for a resource of another kind
  unfoldable pub render_reference : Unstructured → Result Error (Option ScaleTarget)
  unfolding reference_to
  render_reference u =
      if str_eq (api.gvk_string u) "apps/v1, Kind=Deployment"
      then reference_to "Failed to convert an unstructured obj to a appsv1.deployment"
          "cannot get container.resources.requests from deployment" (api.decode_deployment u)
      else if str_eq (api.gvk_string u) "apps/v1, Kind=StatefulSet"
      then reference_to "Failed to convert an unstructured obj to a appsv1.statefulset"
          "cannot get container.resources.requests from statefulset" (api.decode_deployment u)
      else ok none

  unfoldable pub hpa_for : Trait → ScaleTarget → Hpa
  hpa_for t target = record {
    kind = kind_hpa;
    name = t.meta.name;
    namespace = t.meta.namespace;
    labels = ("hpatrait.oam.crossplane.io", t.meta.uid) ∷ [];
    scale_target_ref = target;
    min_replicas = t.spec.min_replicas;
    max_replicas = t.spec.max_replicas;
    target_cpu_utilization_percentage = t.spec.target_cpu_utilization_percentage;
  }

  -- the body of the loop, with what the rest of the loop gives
  unfoldable pub render_one :
      Trait → Result Error (Option ScaleTarget) → Result Error (List Hpa) → Result Error (List Hpa)
  unfolding hpa_for cons_result
  render_one t (err e) rest = err e
  render_one t (ok none) rest = rest
  render_one t (ok (some target)) rest = cons_result (api.own t (hpa_for t target)) rest

  unfoldable pub render_hpa : Trait → List Unstructured → Result Error (List Hpa)
  render_hpa t [] = ok []
  render_hpa t (u ∷ us) = render_one t (render_reference u) (render_hpa t us)
