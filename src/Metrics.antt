-- ===== src/Metrics.antt =====
-- The data of the MetricsTrait (legacy/traits/metricstrait/api/v1alpha1/metricstrait_types.go), the
-- objects that its controller makes, and the server as it uses it.
pub mod Controller
pub mod Webhook
mod Examples
use kubevela_catalog.Base.{ℕ, String, List, Option, Bool}
use kubevela_catalog.Base.Exec.{Func, Result}
use kubevela_catalog.K8s.{
  Error, ObjectMeta, TypedReference, NamespacedName, Labels, OwnerReference, IntOrString,
  Unstructured, Condition, Kube,
}

pub record ScrapeService : Type 0 where
  pub format : String
  pub target_port : IntOrString
  pub target_selector : Labels
  pub path : String
  pub scheme : String
  pub enabled : Option Bool

pub record Spec : Type 0 where
  pub scrape_service : ScrapeService
  pub workload_reference : TypedReference

-- with the last condition that the controller set
pub record Status : Type 0 where
  pub condition : Option Condition
  pub service_monitor_name : String
  pub port : IntOrString
  pub selector_labels : Labels

pub record Trait : Type 0 where
  pub meta : ObjectMeta
  pub spec : Spec
  pub status : Status

-- monitoring.ServiceMonitor
pub record ServiceMonitor : Type 0 where
  pub name : String
  pub namespace : String
  pub labels : Labels
  pub owners : List OwnerReference
  pub match_labels : Labels
  pub match_names : List String
  pub target_port : IntOrString
  pub path : String
  pub scheme : String

-- the Service that the controller makes, of type ClusterIP, with one port
pub record NewService : Type 0 where
  pub kind : String
  pub api_version : String
  pub name : String
  pub namespace : String
  pub labels : Labels
  pub owners : List OwnerReference
  pub selector : Labels
  pub port : ℕ
  pub target_port : IntOrString

-- An element of a slice that is read out of an unstructured object: a Go value of any type, of
-- which the controller asks whether it is a corev1.ServicePort.
pub data Item : Type 0 where
  service_port_item : IntOrString → Item
  other_item : Item

-- A child of the workload; its map of labels may be nil.
pub record Child : Type 0 where
  pub api_version : String
  pub kind : String
  pub labels : Option Labels
  pub ports : List Item

pub data Call : Type 0 where
  get_trait : NamespacedName → Call
  fetch_workload : Trait → Call
  fetch_children : Unstructured → Call
  patch_service : NewService → Call
  patch_monitor : ServiceMonitor → Call
  delete_monitor : NamespacedName → Call
  update_status : Trait → Call
  patch_condition : Trait → Condition → Call

pub record Api : Type 0 where
  pub kube : Kube
  pub open kube use *
  pub get_trait : NamespacedName → List Call → Result Error Trait
  pub fetch_workload : Trait → List Call → Result Error Unstructured
  pub fetch_children : Unstructured → List Call → Result Error (List Child)
  -- the patch puts the server's answer into the service
  pub patch_service : NewService → List Call → Result Error NewService
  pub patch_monitor : ServiceMonitor → List Call → Option Error
  pub delete_monitor : NamespacedName → List Call → Option Error
  pub update_status : Trait → List Call → Option Error
  pub patch_condition : Trait → Condition → List Call → Option Error
  pub retry_on_conflict : Func Call (Option Error) → Func Call (Option Error)
  -- utils.DiscoveryFromPodTemplate
  pub discovery_from_pod_template : Unstructured → List IntOrString × Labels × Option Error
  -- IntOrString.String
  pub port_text : IntOrString → String
  -- constants of the package `common`
  pub service_kind : String
  pub service_api_version : String
  pub err_locating_workload : String
  pub err_locating_service : String
  pub err_creating_service : String
  pub err_update_status : String
