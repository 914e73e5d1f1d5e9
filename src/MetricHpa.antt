-- ===== src/MetricHpa.antt =====
-- The MetricHPATrait (legacy/traits/metrichpatrait/api/v1alpha2/metrichpatrait_types.go), the
-- objects that its controller makes, and the server as it uses it.
pub mod Render
pub mod Reconcile
mod Examples
use kubevela_catalog.Base.{String, List, Option}
use kubevela_catalog.Base.Int.{ℤ}
use kubevela_catalog.Base.Exec.{Result}
use kubevela_catalog.K8s.{
  Error, ObjectMeta, TypedReference, NamespacedName, Unstructured, Condition, Labels, Kube,
}

pub record Spec : Type 0 where
  pub polling_interval : Option ℤ
  pub cooldown_period : Option ℤ
  pub min_replica_count : Option ℤ
  pub max_replica_count : Option ℤ
  pub prom_server_address : String
  pub prom_query : String
  pub prom_threshold : Option ℤ
  pub workload_reference : TypedReference

pub record Trait : Type 0 where
  pub meta : ObjectMeta
  pub spec : Spec
  pub resources : List TypedReference

pub record ConfigMap : Type 0 where
  pub name : String
  pub namespace : String
  pub labels : Labels
  pub entries : List (String × String)

-- the source of a corev1.Volume that the code uses: a config map's name, or an empty directory
pub data VolumeSource : Type 0 where
  config_map : String → VolumeSource
  empty_dir : VolumeSource

pub record Volume : Type 0 where
  pub name : String
  pub source : VolumeSource

pub record VolumeMount : Type 0 where
  pub name : String
  pub mount_path : String

pub record Container : Type 0 where
  pub name : String
  pub image : String
  pub args : List String
  pub container_port : ℤ
  pub volume_mounts : List VolumeMount

-- an appsv1.Deployment, as the code builds it, with one container
pub record Deployment : Type 0 where
  pub name : String
  pub namespace : String
  pub replicas : ℤ
  pub match_labels : Labels
  pub template_labels : Labels
  pub volumes : List Volume
  pub container : Container

-- a corev1.Service with one port
pub record Service : Type 0 where
  pub name : String
  pub namespace : String
  pub protocol : String
  pub port : ℤ
  pub selector : Labels

-- kedav1alpha1.ScaledObject with one trigger
pub record ScaledObject : Type 0 where
  pub name : String
  pub namespace : String
  pub deployment_name : String
  pub polling_interval : Option ℤ
  pub cooldown_period : Option ℤ
  pub min_replica_count : Option ℤ
  pub max_replica_count : Option ℤ
  pub trigger_type : String
  pub trigger_metadata : List (String × String)

-- a kind of object that is applied, read or deleted
pub data Made : Type 0 where
  made_config_map : ConfigMap → Made
  made_deployment : Deployment → Made
  made_service : Service → Made
  made_scaled_object : ScaledObject → Made

pub data Sort : Type 0 where
  deployment service scaled_object : Sort

pub data Call : Type 0 where
  get_trait : NamespacedName → Call
  get_workload : TypedReference → NamespacedName → Call
  fetch_children : Unstructured → Call
  patch_object : Made → Call
  get_object : Sort → NamespacedName → Call
  delete_object : Sort → Unstructured → Call
  update_status : Trait → Call
  patch_condition : Trait → Condition → Call

pub record Api : Type 0 where
  pub kube : Kube
  pub open kube use *
  pub get_trait : NamespacedName → List Call → Result Error Trait
  pub get_workload : TypedReference → NamespacedName → List Call → Result Error Unstructured
  pub fetch_children : Unstructured → List Call → Result Error (List Unstructured)
  -- a patch and an update put the server's answer into the object
  pub patch_object : Made → List Call → Result Error Unstructured
  pub get_object : Sort → NamespacedName → List Call → Result Error Unstructured
  pub delete_object : Sort → Unstructured → List Call → Option Error
  pub update_status : Trait → List Call → Result Error Trait
  pub patch_condition : Trait → Condition → List Call → Option Error
  -- json.Unmarshal into a deployment or a service
  pub decode : Sort → Unstructured → Option Error
  -- ctrl.SetControllerReference: an error, or the object with the reference
  pub own : Trait → Made → Result Error Made
  -- the text of an error, util.KindDeployment, util.KindService, and the text of an int32
  pub error_text : Error → String
  pub kind_deployment : String
  pub kind_service : String
  pub keda_api_version : String
  pub show : ℤ → String
