-- ===== src/Sidecar.antt =====
-- The SidecarTrait (legacy/traits/sidecartrait/api/v1alpha2/sidecartrait_types.go), the resources
-- that its controller puts a container and volumes into, and the server as it uses it.
pub mod Combine
pub mod Locate
pub mod Reconcile
mod Examples
use kubevela_catalog.Base.{String, List, Option}
use kubevela_catalog.Base.Exec.{Result}
use kubevela_catalog.K8s.{Error, ObjectMeta, NamespacedName, Unstructured, Condition, Kube}

-- An element of an unstructured slice: its entry "name", if it has one, and the rest as a text.
pub record Entry : Type 0 where
  pub name : Option String
  pub body : String

-- a corev1.Container or a corev1.Volume
pub record Item : Type 0 where
  pub name : String
  pub body : String

pub record Trait : Type 0 where
  pub meta : ObjectMeta
  pub container : Item
  pub volumes : List Item

-- an unstructured object with its fields, which are encoded as a text
pub record Resource : Type 0 where
  pub object : Unstructured
  pub content : String

-- openapi.Resources and proto.Schema, which only the libraries look into
pub record Document : Type 0 where
  pub schemas : String

pub record Schema : Type 0 where
  pub definition : String

-- whether a field is a proto.Array
pub data Field : Type 0 where
  array other : Field

pub data Call : Type 0 where
  get_trait : NamespacedName → Call
  fetch_workload : Trait → Call
  fetch_children : Resource → Call
  open_api_schema : Call
  -- the resource that the merge patch starts from, and the changed one
  patch_resource : Resource → Resource → Call
  patch_condition : Trait → Condition → Call

pub record Api : Type 0 where
  pub kube : Kube
  pub open kube use *
  pub get_trait : NamespacedName → List Call → Result Error Trait
  -- util.FetchWorkload and util.FetchWorkloadChildResources
  pub fetch_workload : Trait → List Call → Result Error Resource
  pub fetch_children : Resource → List Call → Result Error (List Resource)
  pub open_api_schema : List Call → Result Error String
  pub patch_resource : Resource → Resource → List Call → Option Error
  pub patch_condition : Trait → Condition → List Call → Option Error
  -- openapi.NewOpenAPIData, LookupResource and explain.LookupSchemaForField
  pub new_open_api_data : String → Result Error Document
  pub lookup_resource : Document → String → String → String → Option Schema
  pub lookup_schema_for_field : Option Schema → List String → Result Error (Option Field)
  -- util.APIVersion2GroupVersion
  pub group_version : String → String × String
  -- unstructured.NestedSlice and unstructured.SetNestedField
  pub nested_slice : Resource → List String → Result Error (Option (List Entry))
  pub set_nested_field : Resource → List Entry → List String → Result Error Resource
  -- struct2Unmarshal's json.Marshal and UnmarshalJSON
  pub encode : Item → Result Error Entry
  -- util.ErrFetchChildResources
  pub err_fetch_child_resources : String
  -- ReconcileError of a nil error: a condition, or a panic
  pub nil_error_condition : Option Condition
