-- ===== src/K8s.antt =====
-- The values of Kubernetes and of its client libraries that all controllers use, as far as the
-- controllers read or build them. The libraries are not part of the repository: what the code
-- calls of them is a field of `Kube`, and of the `Api` record of each controller.
pub mod Sample
pub mod Admission
use kubevela_catalog.Base.{ℕ, String, Bool, true, List, Option, ◌&&◌, str_eq, eq_Bool}
use kubevela_catalog.Base.Int.{ℤ, eq_ℤ}

-- Errors: the answers of the server, and those that the code builds by `errors.New`,
-- `fmt.Errorf` (with its text) and `errors.Wrap`.
pub data Error : Type 0 where
  server : ℕ → String → Error
  new_error : String → Error
  wrapped : Error → String → Error

-- ctrl.Result, with the delay in seconds (0 for none)
pub record CtrlResult : Type 0 where
  pub requeue_after : ℕ

-- the two results of a `Reconcile`
pub record Reply : Type 0 where
  pub result : CtrlResult
  pub error : Option Error

abbrev pub reply : ℕ → Option Error → Reply
reply n e = record { result = record { requeue_after = n }; error = e }

pub record NamespacedName : Type 0 where
  pub namespace : String
  pub name : String

abbrev pub key : String → String → NamespacedName
key namespace name = record { namespace = namespace; name = name }

-- runtimev1alpha1.TypedReference
pub record TypedReference : Type 0 where
  pub api_version : String
  pub kind : String
  pub name : String
  pub uid : String

abbrev pub ref_eq : TypedReference → TypedReference → Bool
ref_eq a b =
    str_eq a.api_version b.api_version
    && str_eq a.kind b.kind
    && str_eq a.name b.name
    && str_eq a.uid b.uid

abbrev pub empty_reference : TypedReference
empty_reference = record { api_version = ""; kind = ""; name = ""; uid = "" }

abbrev pub Labels : Type 0
Labels = List (String × String)

-- intstr.IntOrString, compared by `==` field by field
pub record IntOrString : Type 0 where
  pub is_string : Bool
  pub int_val : ℤ
  pub str_val : String

abbrev pub port_eq : IntOrString → IntOrString → Bool
port_eq a b =
    eq_Bool a.is_string b.is_string && eq_ℤ a.int_val b.int_val && str_eq a.str_val b.str_val

-- An object of any kind (unstructured.Unstructured), as far as the controllers read it.
pub record Unstructured : Type 0 where
  pub api_version : String
  pub kind : String
  pub name : String
  pub namespace : String
  pub uid : String
  pub labels : Labels

-- metav1.ObjectMeta with the object's own kind and API version, as a trait has them
pub record ObjectMeta : Type 0 where
  pub api_version : String
  pub kind : String
  pub name : String
  pub namespace : String
  pub uid : String
  pub labels : Labels

-- the condition that a controller writes into the status of its trait
pub data Condition : Type 0 where
  reconcile_error : Error → Condition
  reconcile_success : Condition

-- metav1.OwnerReference, with both of its flags set by all controllers that build one
pub record OwnerReference : Type 0 where
  pub api_version : String
  pub kind : String
  pub uid : String
  pub name : String
  pub controller : Bool
  pub block_owner_deletion : Bool

-- the reference of a trait's own objects to it
abbrev pub owner_of : ObjectMeta → OwnerReference
owner_of m = record {
  api_version = m.api_version;
  kind = m.kind;
  uid = m.uid;
  name = m.name;
  controller = true;
  block_owner_deletion = true;
}

-- Functions and values of the client libraries.
pub record Kube : Type 0 where
  pub is_not_found : Error → Bool
  pub ignore_not_found : Error → Option Error
  -- util.ReconcileWaitResult
  pub wait_result : CtrlResult
  -- the API versions that the libraries' `SchemeGroupVersion.String()` give
  pub oam_api_version : String
  pub apps_api_version : String
  pub core_api_version : String
  pub networking_api_version : String
  -- GetObjectKind().GroupVersionKind().String()
  pub gvk_string : Unstructured → String
  -- intstr.FromInt and IntOrString.IntValue
  pub from_int : ℤ → IntOrString
  pub int_value : IntOrString → ℤ
