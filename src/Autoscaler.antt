-- ===== src/Autoscaler.antt =====
-- The Autoscaler trait (legacy/traits/autoscalertrait/api/v1alpha1/autoscaler_types.go), the KEDA
-- objects that its controller makes, and the server and libraries as it uses them.
pub mod Cron
pub mod Keda
mod Examples
use kubevela_catalog.Base.{ℕ, String, List, Option, Bool}
use kubevela_catalog.Base.Int.{ℤ}
use kubevela_catalog.Base.Dict.{Dict}
use kubevela_catalog.Base.Exec.{Result}
use kubevela_catalog.K8s.{
  Error, ObjectMeta, TypedReference, NamespacedName, OwnerReference, Unstructured, Condition, Kube,
}

pub record Trigger : Type 0 where
  pub name : String
  pub trigger_type : String
  pub condition : Dict String

pub record TargetWorkload : Type 0 where
  pub name : String
  pub api_version : String
  pub kind : String

pub record Spec : Type 0 where
  pub min_replicas : Option ℤ
  pub max_replicas : Option ℤ
  pub triggers : List Trigger
  pub target_workload : TargetWorkload
  pub workload_reference : TypedReference

pub record Scaler : Type 0 where
  pub meta : ObjectMeta
  pub spec : Spec

pub record CronTypeCondition : Type 0 where
  pub start_at : String
  pub duration : String
  pub days : String
  pub replicas : String
  pub timezone : String

-- kedav1alpha1.ScaleTriggers
pub record ScaleTrigger : Type 0 where
  pub trigger_type : String
  pub name : String
  pub metadata : Dict String

-- kedav1alpha1.ScaledObjectSpec
pub record ScaledObjectSpec : Type 0 where
  pub scale_target_ref : TargetWorkload
  pub min_replica_count : Option ℤ
  pub max_replica_count : Option ℤ
  pub triggers : List ScaleTrigger

pub record ScaledObject : Type 0 where
  pub name : String
  pub namespace : String
  pub owners : List OwnerReference
  pub spec : ScaledObjectSpec

-- A time.Duration, as the integers that `int(d.Hours())` and `int(d.Minutes())` give.
pub record Duration : Type 0 where
  pub hours : ℤ
  pub minutes : ℤ

pub data Call : Type 0 where
  get_trait : NamespacedName → Call
  locate_parent : Scaler → Call
  fetch_workload : Scaler → Call
  fetch_children : Unstructured → Call
  get_scaled_object : NamespacedName → Call
  create_scaled_object : ScaledObject → Call
  update_scaled_object : ScaledObject → Call
  patch_condition : Scaler → Condition → Call

pub record Api : Type 0 where
  pub kube : Kube
  pub open kube use *
  pub get_trait : NamespacedName → List Call → Result Error Scaler
  -- util.LocateParentAppConfig: only its error is looked at
  pub locate_parent : Scaler → List Call → Option Error
  pub fetch_workload : Scaler → List Call → Result Error Unstructured
  pub fetch_children : Unstructured → List Call → Result Error (List Unstructured)
  pub get_scaled_object : NamespacedName → List Call → Result Error ScaledObject
  pub create_scaled_object : ScaledObject → List Call → Option Error
  pub update_scaled_object : ScaledObject → List Call → Option Error
  pub patch_condition : Scaler → Condition → List Call → Option Error
  -- json.Marshal of the condition and json.Unmarshal into a CronTypeCondition
  pub decode_condition : Dict String → Result Error CronTypeCondition
  -- time.Parse("15:04", s), as the hour and the minute
  pub parse_clock : String → Result Error (ℕ × ℕ)
  -- time.ParseDuration
  pub parse_duration : String → Result Error Duration
  -- strconv.Atoi, strings.Split by ",", strings.TrimSpace and strings.EqualFold
  pub atoi : String → Result Error ℤ
  pub split : String → List String
  pub trim_space : String → String
  pub equal_fold : String → String → Bool
  -- texts of errors of the packages `common` and `util`
  pub err_locate_app_config : String
  pub err_locating_workload : String
  pub err_fetch_child_resources : String
