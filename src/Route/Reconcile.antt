-- ===== src/Route/Reconcile.antt =====
-- The reconcile loop of the Route trait
-- (legacy/traits/routetrait/controllers/route_controller.go). Events and logs are left out.
pub mod Fallback
use kubevela_catalog.Base.{
  String, List, [], ◌∷◌, Option, none, some, Bool, true, false, not, str_eq, map, if◌then◌else◌,
}
use kubevela_catalog.Base.Exec.{
  Exec, Func, Result, ok, err, pure, return, ask, or_else, on_error, call, ◌>>=◌, ◌>>◌,
}
use kubevela_catalog.K8s.{
  Error, wrapped, Reply, reply, NamespacedName, key, TypedReference, Unstructured, reconcile_error,
}
use kubevela_catalog.Route.{Route, RouteStatus}
use kubevela_catalog.Route.Backends.{need_discovery}
use kubevela_catalog.Route.Ingress.{Ingress}
use kubevela_catalog.Route.Ingress.Status.{
  nginx, RouteIngress, status_ready, Checked, get_route_ingress, construct_by, check_status,
}
use kubevela_catalog.Route.Server.{
  Call, get_trait, fetch_workload, patch_ingress, update_status, patch_condition, Api,
}
use kubevela_catalog.Route.Discover.{discovery_and_fill_backend}

-- the fallback for an unknown provider is `&ingress.Nginx{}`, without a client
unfoldable pub provider_or_nginx : Result Error RouteIngress → RouteIngress
provider_or_nginx (ok ri) = ri
provider_or_nginx (err e) = record { provider = nginx; has_client = false }

module _ (api : Api) where
  unfoldable pub fail : {A : Type 0} → Route → Error → Exec Call Reply A
  fail t e = do
    answer ← ask (patch_condition t (reconcile_error e)) (api.patch_condition t (reconcile_error e))
    return (record { result = api.wait_result; error = answer })

  -- UpdateStatus: the stored route with the new status
  unfoldable pub write_status : Route → Func Call (Option Error)
  write_status route = api.retry_on_conflict (do
    let k = key route.meta.namespace route.meta.name
    found ← ask (get_trait k) (api.get_trait k)
    stored ← or_else found (λ e. return (some e))
    let new : Route = record stored { status = route.status }
    answer ← ask (update_status new) (api.update_status new)
    return answer)

  unfoldable pub apply_ingresses : Route → List Ingress → Exec Call Reply Unit
  apply_ingresses t [] = pure tt
  apply_ingresses t (i ∷ is) = do
    answer ← ask (patch_ingress i) (api.patch_ingress i)
    on_error answer (λ e. fail t (wrapped e "failed to apply the ingress"))
    apply_ingresses t is

  unfoldable pub ingress_reference : Route → Ingress → TypedReference
  ingress_reference t i = record {
    api_version = api.networking_api_version;
    kind = "Ingress";
    name = i.name;
    uid = t.meta.uid;
  }

  -- the backend is looked for only if a rule wants one
  unfoldable pub discover : Unstructured → Route → Exec Call Reply (Route × Option TypedReference)
  discover workload t =
      if need_discovery t
      then (do
        (t', found) ← call (discovery_and_fill_backend api workload t)
        svc ← or_else found (λ e. fail t' e)
        pure (t', svc))
      else pure (t, none)

  unfoldable pub report : Route → Checked → Func Call Reply
  report t checked = do
    let t' : Route = record t {
      status = record t.status { status = checked.status; conditions = checked.conditions };
    }
    answer ← call (write_status t')
    if not (str_eq checked.status status_ready) then return (reply 10 answer) else (do
      on_error answer (λ e. return (record { result = api.wait_result; error = some e }))
      return (reply 0 none))

  -- the ingresses of a route whose backends are known
  unfoldable pub apply : RouteIngress → Route → Option TypedReference → Func Call Reply
  apply ri t svc = do
    let ingresses = construct_by api ri t
    apply_ingresses t ingresses
    let t' : Route = record t {
      status = record t.status { ingresses = map (ingress_reference t) ingresses; service = svc };
    }
    checked ← call (check_status api ri t')
    report t' checked

  unfoldable pub reconcile : NamespacedName → Func Call Reply
  reconcile request = do
    found ← ask (get_trait request) (api.get_trait request)
    t ← or_else found (λ e. return (reply 0 (api.ignore_not_found e)))
    fetched ← ask (fetch_workload t) (api.fetch_workload t)
    workload ← or_else fetched (λ e. fail t (wrapped e api.err_locating_workload))
    (t', svc) ← discover workload t
    apply (provider_or_nginx (get_route_ingress t'.spec.provider)) t' svc
