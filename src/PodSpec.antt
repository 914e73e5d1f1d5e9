-- ===== src/PodSpec.antt =====
-- The PodSpecWorkload (legacy/workloads/podspecworkload/api/v1alpha1/podspecworkload_types.go), the
-- objects that its controller makes, and the server as it uses it. Of a pod only the containers'
-- names and ports are modelled.
pub mod Controller
pub mod Webhook
mod Examples
use kubevela_catalog.Base.{String, List, Option}
use kubevela_catalog.Base.Int.{ℤ}
use kubevela_catalog.Base.Dict.{Dict}
use kubevela_catalog.Base.Exec.{Func, Result}
use kubevela_catalog.K8s.{
  Error, ObjectMeta, TypedReference, NamespacedName, IntOrString, Condition, Kube,
}

pub record ContainerPort : Type 0 where
  pub name : String
  pub protocol : String
  pub container_port : ℤ

pub record Container : Type 0 where
  pub name : String
  pub ports : List ContainerPort

pub record Workload : Type 0 where
  pub meta : ObjectMeta
  pub replicas : Option ℤ
  pub containers : List Container
  pub resources : List TypedReference

-- appsv1.Deployment, before the labels, the annotations and the owner of the workload are passed on
pub record Deployment : Type 0 where
  pub kind : String
  pub api_version : String
  pub name : String
  pub namespace : String
  pub replicas : Option ℤ
  pub match_labels : Dict String
  pub template_labels : Dict String
  pub containers : List Container

pub record ServicePort : Type 0 where
  pub name : String
  pub protocol : String
  pub port : ℤ
  pub target_port : IntOrString

-- corev1.Service, of type ClusterIP
pub record Service : Type 0 where
  pub kind : String
  pub api_version : String
  pub name : String
  pub namespace : String
  pub labels : Dict String
  pub selector : Dict String
  pub ports : List ServicePort

pub data Call : Type 0 where
  get_workload : NamespacedName → Call
  patch_deployment : Deployment → Call
  patch_service : Service → Call
  update_status : Workload → Call
  patch_condition : Workload → Condition → Call

pub record Api : Type 0 where
  pub kube : Kube
  pub open kube use *
  pub get_workload : NamespacedName → List Call → Result Error Workload
  -- a patch updates the object: what is read of it afterwards
  pub patch_deployment : Deployment → List Call → Result Error TypedReference
  pub patch_service : Service → List Call → Result Error TypedReference
  -- the update puts the server's answer into the workload
  pub update_status : Workload → List Call → Result Error Workload
  pub patch_condition : Workload → Condition → List Call → Option Error
  pub retry_on_conflict : Func Call (Result Error Workload) → Func Call (Result Error Workload)
  -- util.PassLabelAndAnnotation from the workload to a deployment and to its pod template
  pub pass_label_and_annotation : Workload → Deployment → Deployment
  pub pass_to_template : Workload → Deployment → Deployment
  -- ctrl.SetControllerReference: an error, or the object with the reference
  pub own_deployment : Workload → Deployment → Result Error Deployment
  pub own_service : Workload → Service → Result Error Service
