-- ===== src/Route/Server.antt =====
-- The server and the libraries as the Route controller uses them
-- (legacy/traits/routetrait/controllers).
use kubevela_catalog.Base.{String, List, Option, Bool}
use kubevela_catalog.Base.Exec.{Func, Result}
use kubevela_catalog.K8s.{
  Error, NamespacedName, Labels, OwnerReference, IntOrString, Unstructured, Condition, Kube,
}
use kubevela_catalog.Route.{Route}
use kubevela_catalog.Route.Backends.{Service}
use kubevela_catalog.Route.Ingress.{Ingress}

-- the Service that the controller makes, of type ClusterIP
pub record NewService : Type 0 where
  pub kind : String
  pub api_version : String
  pub namespace : String
  pub labels : Labels
  pub owners : List OwnerReference
  pub selector : Labels
  pub service : Service

-- a condition of an issuer or a certificate of cert-manager
pub record CertCondition : Type 0 where
  pub condition_type : String
  pub status : String
  pub reason : String
  pub message : String

-- one entry of the load balancer's status
pub record Address : Type 0 where
  pub ip : String
  pub hostname : String

pub data Call : Type 0 where
  get_trait : NamespacedName → Call
  fetch_workload : Route → Call
  fetch_children : Unstructured → Call
  fetch_workload_definition : Unstructured → Call
  patch_service : NewService → Call
  patch_ingress : Ingress → Call
  get_issuer : NamespacedName → Call
  get_certificate : NamespacedName → Call
  get_ingress : NamespacedName → Call
  update_status : Route → Call
  patch_condition : Route → Condition → Call

pub record Api : Type 0 where
  pub kube : Kube
  pub open kube use *
  pub get_trait : NamespacedName → List Call → Result Error Route
  -- oamutil.FetchWorkload and FetchWorkloadChildResources
  pub fetch_workload : Route → List Call → Result Error Unstructured
  pub fetch_children : Unstructured → List Call → List Unstructured × Option Error
  -- FetchWorkloadDefinition, and what utils.GetPodSpecPath makes of the definition
  pub fetch_workload_definition : Unstructured → List Call → Result Error (String × Bool)
  pub patch_service : NewService → List Call → Option Error
  pub patch_ingress : Ingress → List Call → Option Error
  -- the conditions in the status of the object
  pub get_issuer : NamespacedName → List Call → Result Error (List CertCondition)
  pub get_certificate : NamespacedName → List Call → Result Error (List CertCondition)
  -- the load balancer in the status of the ingress
  pub get_ingress : NamespacedName → List Call → Result Error (List Address)
  pub update_status : Route → List Call → Option Error
  pub patch_condition : Route → Condition → List Call → Option Error
  -- retry.RetryOnConflict with its default backoff
  pub retry_on_conflict : Func Call (Option Error) → Func Call (Option Error)
  -- json.Marshal and json.Unmarshal into a corev1.Service
  pub decode_service : Unstructured → Option Service
  -- utils.DiscoveryFromPodSpec and DiscoveryFromPodTemplate
  pub discovery_from_pod_spec : Unstructured → String → Result Error (List IntOrString)
  pub discovery_from_pod_template : Unstructured → Result Error (List IntOrString × Labels)
  pub select_oam_app_labels_without_revision : Labels → Labels
  -- err.Error()
  pub error_text : Error → String
  -- constants of the package `common` and of cert-manager
  pub err_locating_workload : String
  pub err_creating_service : String
  pub service_kind : String
  pub service_api_version : String
  pub condition_true : String
  pub certificate_ready : String
  -- the condition types and reasons of crossplane-runtime
  pub type_synced : String
  pub type_ready : String
  pub reason_unavailable : String
  pub reason_creating : String
  pub reason_available : String
