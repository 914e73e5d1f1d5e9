-- ===== src/Route/Ingress.antt =====
-- The ingress objects that a route becomes (legacy/traits/routetrait/controllers/ingress).
pub mod Construct
pub mod Status
use kubevela_catalog.Base.{String, List, Option}
use kubevela_catalog.Base.Dict.{Dict}
use kubevela_catalog.K8s.{Labels, OwnerReference, TypedReference, IntOrString}

-- v1beta1.IngressTLS
pub record IngressTls : Type 0 where
  pub hosts : List String
  pub secret_name : String

-- v1.TypedLocalObjectReference
pub record Resource : Type 0 where
  pub api_group : String
  pub kind : String
  pub name : String

-- The rule of the ingress: one host with one path.
pub record IngressRule : Type 0 where
  pub host : String
  pub path : String
  pub service_name : String
  pub service_port : IntOrString

-- v1beta1.Ingress
pub record Ingress : Type 0 where
  pub kind : String
  pub api_version : String
  pub name : String
  pub namespace : String
  pub annotations : Dict String
  pub labels : Labels
  pub owners : List OwnerReference
  pub tls : List IngressTls
  pub backend : Option Resource
  pub rules : List IngressRule
