-- ===== src/Route/Reconcile/Fallback.antt =====
-- The fallback for an unknown provider, which has no client.
use kubevela_catalog.Base.{
  ℕ, ◌+◌, List, [], ◌∷◌, Option, none, some, false, ◌≡◌, refl, ◌∙◌, arith, map,
}
use kubevela_catalog.Base.Exec.{ok, err, next, panic, ◌>>=◌}
use kubevela_catalog.K8s.{Error, Kube, NamespacedName, TypedReference, Unstructured}
use kubevela_catalog.Route.{Backend, BackendServiceRef, Rule, Route, RouteStatus}
use kubevela_catalog.Route.Backends.{need_discovery}
use kubevela_catalog.Route.Ingress.{Ingress}
use kubevela_catalog.Route.Ingress.Construct.{
  nginx_annotations, ingress_of, service_of, service_ingress, rule_ingress, ingresses_from,
  construct,
}
use kubevela_catalog.Route.Ingress.Status.{
  nginx, RouteIngress, get_route_ingress, construct_by, use_client, check_issuer, check_issuer_of,
  check_certificate, check_certificate_of, check_address, check_ingress, check_ingresses,
  check_status,
}
use kubevela_catalog.Route.Server.{Call, get_trait, fetch_workload, Api}
use kubevela_catalog.Route.Reconcile.{
  provider_or_nginx, ingress_reference, apply_ingresses, discover, apply, reconcile,
}

abbrev with_status : Route → RouteStatus → Route
with_status t s = record t { status = s }

module _ (kube : Kube) (t : Route) (s : RouteStatus) where
  service_ingress-with_status :
      (idx : ℕ) (rule : Rule) (o : Option (Backend × BackendServiceRef))
      → service_ingress kube nginx_annotations (with_status t s) idx rule o
        ≡ service_ingress kube nginx_annotations t idx rule o
  unfolding service_ingress ingress_of nginx_annotations
  service_ingress-with_status idx rule none = refl
  service_ingress-with_status idx rule (some (b, service)) = refl

  ingresses_from-with_status :
      (idx : ℕ) (rules : List Rule)
      → ingresses_from kube nginx_annotations (with_status t s) idx rules
        ≡ ingresses_from kube nginx_annotations t idx rules
  unfolding ingresses_from rule_ingress
  ingresses_from-with_status idx [] = refl
  ingresses_from-with_status idx (rule ∷ rules) = cc (
    service_ingress-with_status idx rule (service_of rule),
    ingresses_from-with_status (idx + 1) rules,
  )

  construct-with_status :
      construct kube nginx_annotations (with_status t s) ≡ construct kube nginx_annotations t
  unfolding construct
  construct-with_status = cc (ingresses_from-with_status 0 t.spec.rules)

-- nginx without a client
abbrev pub fallback : RouteIngress
fallback = record { provider = nginx; has_client = false }

module _ (api : Api) where
  -- the server takes every ingress
  abbrev pub TakesIngresses : Type 0
  TakesIngresses = (i : Ingress) (h : List Call) → api.patch_ingress i h ≡ none

  applied :
      (t : Route) (is : List Ingress) (h : List Call)
      → TakesIngresses
      → (apply_ingresses api t is h).0 ≡ next tt
  unfolding apply_ingresses ◌>>=◌
  applied t [] h takes = refl
  applied t (i ∷ is) h takes = rw (takes i h) (applied t is _ takes)

  check_ingresses_panics :
      (t : Route) (i : Ingress) (is : List Ingress) (h : List Call)
      → (check_ingresses api fallback t (i ∷ is) h).0 ≡ panic
  unfolding check_ingresses check_ingress check_certificate_of check_certificate check_address
      use_client ◌>>=◌
  check_ingresses_panics t i is h = ground arith

  check_status_panics :
      (t : Route) (i : Ingress) (is : List Ingress) (h : List Call)
      → construct api.kube nginx_annotations t ≡ i ∷ is
      → (check_status api fallback t h).0 ≡ panic
  unfolding check_status check_issuer_of check_issuer use_client construct_by ◌>>=◌
  check_status_panics t i is h constructed = ground (arith, check_ingresses_panics t i is h)

  apply_panics :
      (t : Route) (svc : Option TypedReference) (i : Ingress) (is : List Ingress) (h : List Call)
      → TakesIngresses
      → construct api.kube nginx_annotations t ≡ i ∷ is
      → (apply api fallback t svc h).0 ≡ panic
  unfolding apply construct_by ◌>>=◌
  apply_panics t svc i is h takes constructed =
      let s : RouteStatus = record t.status {
        ingresses = map (ingress_reference api t) (i ∷ is);
        service = svc;
      } in
      ground (
        arith,
        applied t (i ∷ is) h takes,
        check_status_panics (with_status t s) i is (apply_ingresses api t (i ∷ is) h).1
            (construct-with_status api.kube t s ∙ constructed),
      )

-- If GetRouteIngress knows no provider of the route's name, the route needs no discovery and becomes
-- at least one ingress, and the server gives the route and its workload and takes the ingresses, the
-- reconcile loop panics: the fallback provider has no client.
pub unknown_provider_panics :
    (api : Api) (request : NamespacedName) (t : Route) (workload : Unstructured) (e : Error)
    (i : Ingress) (is : List Ingress)
    → api.get_trait request [] ≡ ok t
    → api.fetch_workload t (get_trait request ∷ []) ≡ ok workload
    → need_discovery t ≡ false
    → get_route_ingress t.spec.provider ≡ err e
    → construct api.kube nginx_annotations t ≡ i ∷ is
    → TakesIngresses api
    → (reconcile api request []).0 ≡ panic
unfolding reconcile discover provider_or_nginx ◌>>=◌
unknown_provider_panics api request t workload e i is got fetched filled unknown constructed takes =
    ground (
      arith,
      apply_panics api t none i is (fetch_workload t ∷ get_trait request ∷ []) takes constructed,
    )
