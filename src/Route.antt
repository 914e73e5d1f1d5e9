-- ===== src/Route.antt =====
-- The data of the Route trait (legacy/traits/routetrait/api/v1alpha1/route_types.go).
pub mod Backends
pub mod Ingress
pub mod Server
pub mod Discover
pub mod Reconcile
mod Examples
use kubevela_catalog.Base.{String, List, Option, str_eq, Bool}
use kubevela_catalog.Base.Int.{ℤ}
use kubevela_catalog.Base.Dict.{Dict}
use kubevela_catalog.K8s.{ObjectMeta, TypedReference, IntOrString}

pub record BackendServiceRef : Type 0 where
  pub port : IntOrString
  pub service_name : String

pub record Backend : Type 0 where
  pub read_timeout : ℤ
  pub send_timeout : ℤ
  pub backend_service : Option BackendServiceRef

-- `custom_headers` is a Go map, in the order in which a loop over it meets the entries.
pub record Rule : Type 0 where
  pub name : String
  pub path : String
  pub rewrite_target : String
  pub custom_headers : Dict String
  pub default_backend : Option TypedReference
  pub backend : Option Backend

-- TLS, with the type of the issuer as a text
pub record Tls : Type 0 where
  pub issuer_name : String
  pub issuer_type : String

abbrev pub is_cluster_issuer : Tls → Bool
is_cluster_issuer tls = str_eq tls.issuer_type "ClusterIssuer"

pub record RouteSpec : Type 0 where
  pub workload_reference : TypedReference
  pub host : String
  pub tls : Option Tls
  pub rules : List Rule
  pub provider : String
  pub ingress_class : String

-- a condition of the status, without its time
pub record RouteCondition : Type 0 where
  pub condition_type : String
  pub is_true : Bool
  pub reason : String
  pub message : String

pub record RouteStatus : Type 0 where
  pub ingresses : List TypedReference
  pub service : Option TypedReference
  pub status : String
  pub conditions : List RouteCondition

pub record Route : Type 0 where
  pub meta : ObjectMeta
  pub spec : RouteSpec
  pub status : RouteStatus
