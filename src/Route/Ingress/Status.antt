-- ===== src/Route/Ingress/Status.antt =====
-- The choice of a provider (legacy/traits/routetrait/controllers/ingress/api.go), and the two
-- `CheckStatus` methods (nginx_ingress.go and contour_ingress.go), which are the same text.
pub mod Ready
use kubevela_catalog.Base.{
  String, List, [], ◌∷◌, Option, none, some, Bool, true, false, not, ◌&&◌, ◌||◌, str_eq, ◌<>◌,
  if◌then◌else◌,
}
use kubevela_catalog.Base.Exec.{
  Exec, Func, Result, ok, err, pure, return, fault, ask, on_error, ◌>>=◌, ◌>>◌,
}
use kubevela_catalog.K8s.{Error, new_error, key}
use kubevela_catalog.Route.{Tls, is_cluster_issuer, RouteCondition, Route}
use kubevela_catalog.Route.Ingress.{Ingress}
use kubevela_catalog.Route.Ingress.Construct.{nginx_annotations, contour_annotations, construct}
use kubevela_catalog.Route.Server.{
  CertCondition, Address, Call, get_issuer, get_certificate, get_ingress, Api,
}

pub data Provider : Type 0 where
  nginx : Provider
  contour : Provider

-- a provider; its client may be nil
pub record RouteIngress : Type 0 where
  pub provider : Provider
  pub has_client : Bool

abbrev pub status_ready : String
status_ready = "Ready"

abbrev pub status_synced : String
status_synced = "Synced"

-- the two results of `CheckStatus`
pub record Checked : Type 0 where
  pub status : String
  pub conditions : List RouteCondition

unfoldable pub get_route_ingress : String → Result Error RouteIngress
get_route_ingress provider =
    if str_eq provider "nginx" || str_eq provider ""
    then ok (record { provider = nginx; has_client = true })
    else if str_eq provider "contour"
    then ok (record { provider = contour; has_client = true })
    else err (
        new_error
          ("unknow route ingress provider '" <> provider <> "', only 'nginx' is supported now"))

module _ (api : Api) where
  -- the interface method `Construct`
  unfoldable pub construct_by : RouteIngress → Route → List Ingress
  construct_by ri route = elim ri.provider [
    | nginx ↦ construct api.kube nginx_annotations route
    | contour ↦ construct api.kube contour_annotations route
  ]

  unfoldable pub synced : String → String → Checked
  synced reason message = record {
    status = status_synced;
    conditions =
        record {
          condition_type = api.type_synced;
          is_true = false;
          reason = reason;
          message = message;
        }
        ∷ [];
  }

  unfoldable pub ready : Checked
  ready = record {
    status = status_ready;
    conditions =
        record {
          condition_type = api.type_ready;
          is_true = true;
          reason = api.reason_available;
          message = "";
        }
        ∷ [];
  }

  -- a method call on the client, which may be nil
  unfoldable pub use_client : RouteIngress → Exec Call Checked Unit
  use_client ri = if ri.has_client then pure tt else fault

  -- `err != nil || len(conditions) < 1`, and then the first condition
  unfoldable pub first_condition :
      Result Error (List CertCondition) → String → Exec Call Checked CertCondition
  first_condition (err e) pending = return (synced api.reason_unavailable (api.error_text e))
  first_condition (ok []) pending = return (synced api.reason_unavailable pending)
  first_condition (ok (c ∷ cs)) pending = pure c

  unfoldable pub check_issuer : RouteIngress → Route → Tls → Exec Call Checked Unit
  check_issuer ri route tls = do
    use_client ri
    let k = key route.meta.namespace tls.issuer_name
    found ← ask (get_issuer k) (api.get_issuer k)
    c ←
        first_condition found
          ("issuer '" <> tls.issuer_name <> "' is pending to be resolved by controller")
    if not (str_eq c.status api.condition_true) then return (synced c.reason c.message) else pure tt

  unfoldable pub check_issuer_of : RouteIngress → Route → Option Tls → Exec Call Checked Unit
  check_issuer_of ri route none = pure tt
  check_issuer_of ri route (some tls) =
      if not (is_cluster_issuer tls) then check_issuer ri route tls else pure tt

  unfoldable pub check_certificate : RouteIngress → Route → Ingress → Exec Call Checked Unit
  check_certificate ri route i = do
    use_client ri
    let k = key route.meta.namespace (i.name <> "-cert")
    found ← ask (get_certificate k) (api.get_certificate k)
    c ←
        first_condition found
          ("CertificateRequest " <> i.name <> " is pending to be resolved by controller")
    if not (str_eq c.status api.condition_true)
          || not (str_eq c.condition_type api.certificate_ready)
        then return (synced c.reason c.message)
        else pure tt

  unfoldable pub check_certificate_of :
      RouteIngress → Route → Ingress → Option Tls → Exec Call Checked Unit
  check_certificate_of ri route i none = pure tt
  check_certificate_of ri route i (some tls) = check_certificate ri route i

  -- the load balancer has a first entry with an address
  unfoldable pub has_address : List Address → Bool
  has_address [] = false
  has_address (a ∷ rest) = not (str_eq a.ip "" && str_eq a.hostname "")

  unfoldable pub address_of : Ingress → Result Error (List Address) → Exec Call Checked Unit
  address_of i (err e) = return (synced api.reason_unavailable (api.error_text e))
  address_of i (ok addresses) =
      if has_address addresses
      then pure tt
      else return
          (synced api.reason_creating ("IP/Hostname of " <> i.name <> " ingress is generating"))

  unfoldable pub check_address : RouteIngress → Ingress → Exec Call Checked Unit
  check_address ri i = do
    use_client ri
    let k = key i.namespace i.name
    found ← ask (get_ingress k) (api.get_ingress k)
    address_of i found

  unfoldable pub check_ingress : RouteIngress → Route → Ingress → Exec Call Checked Unit
  check_ingress ri route i = do check_certificate_of ri route i route.spec.tls; check_address ri i

  unfoldable pub check_ingresses : RouteIngress → Route → List Ingress → Exec Call Checked Unit
  check_ingresses ri route [] = pure tt
  check_ingresses ri route (i ∷ is) = do check_ingress ri route i; check_ingresses ri route is

  unfoldable pub check_status : RouteIngress → Route → Func Call Checked
  check_status ri route = do
    check_issuer_of ri route route.spec.tls
    check_ingresses ri route (construct_by ri route)
    return ready
