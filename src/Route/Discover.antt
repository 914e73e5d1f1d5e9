-- ===== src/Route/Discover.antt =====
-- Finding a backend for a route (legacy/traits/routetrait/controllers/route_controller.go).
-- A function that changes the route through its pointer returns it, also beside an error.
use kubevela_catalog.Base.{
  List, [], ◌∷◌, Option, none, some, Bool, not, ◌&&◌, str_eq, map, if◌then◌else◌,
}
use kubevela_catalog.Base.Int.{wrap32}
use kubevela_catalog.Base.Exec.{
  Func, Result, ok, err, return, ask, or_else, on_error, call, ◌>>=◌, ◌>>◌,
}
use kubevela_catalog.K8s.{
  Error, new_error, wrapped, Labels, TypedReference, IntOrString, Unstructured, owner_of,
}
use kubevela_catalog.Route.{Route}
use kubevela_catalog.Route.Backends.{ServicePort, need_discovery, fill_route_trait_with_service}
use kubevela_catalog.Route.Server.{
  NewService, Call, fetch_children, fetch_workload_definition, patch_service, Api,
}

module _ (api : Api) where
  unfoldable pub is_service : Unstructured → Bool
  is_service u = str_eq u.api_version api.core_api_version && str_eq u.kind "Service"

  -- fillBackendByCheckChildResource: a child that cannot be decoded is skipped
  unfoldable pub fill_by_children : Route → List Unstructured → Route
  fill_by_children route [] = route
  fill_by_children route (u ∷ us) =
      fill_by_children
        (if is_service u
          then elim (api.decode_service u) [
            | none ↦ route
            | some s ↦ fill_route_trait_with_service api.kube s route
          ]
          else route)
        us

  -- the loop over the workload and its children: the first template found
  unfoldable pub first_template : List Unstructured → Result Error (List IntOrString × Labels)
  first_template [] = err (new_error "fail to automatically discovery backend from workload")
  first_template (u ∷ us) = elim (api.discovery_from_pod_template u) [
    | ok found ↦ ok found
    | err e ↦ first_template us
  ]

  unfoldable pub discover_ports_label :
      Unstructured → List Unstructured → Func Call (Result Error (List IntOrString × Labels))
  discover_ports_label workload children = do
    found ← ask (fetch_workload_definition workload) (api.fetch_workload_definition workload)
    (path, has_template) ← or_else found (λ e. return (err e))
    if not (str_eq path "")
        then elim (api.discovery_from_pod_spec workload path) [
          | err e ↦ return (err e)
          | ok ports ↦
              return (ok (ports, api.select_oam_app_labels_without_revision workload.labels))
        ]
        else if has_template
        then return (api.discovery_from_pod_template workload)
        else return (first_template (workload ∷ children))

  unfoldable pub service_port : IntOrString → ServicePort
  service_port p = record { port = wrap32 (api.int_value p); target_port = p }

  -- the Service of a route, for the ports and the labels that were discovered
  unfoldable pub service_for : Route → List IntOrString → Labels → NewService
  service_for route ports labels = record {
    kind = api.service_kind;
    api_version = api.service_api_version;
    namespace = route.meta.namespace;
    labels = api.select_oam_app_labels_without_revision route.meta.labels;
    owners = owner_of route.meta ∷ [];
    selector = labels;
    service = record { name = route.meta.name; ports = map service_port ports };
  }

  unfoldable pub fill_backend_by_created_service :
      Unstructured → Route → List Unstructured → Func Call (Route × Result Error TypedReference)
  fill_backend_by_created_service workload route children = do
    found ← call (discover_ports_label workload children)
    (ports, labels) ← or_else found (λ e. return (route, err e))
    let new : NewService = service_for route ports labels
    answer ← ask (patch_service new) (api.patch_service new)
    on_error answer (λ e. return (route, err e))
    return (
      fill_route_trait_with_service api.kube new.service route,
      ok (record {
        api_version = api.service_api_version;
        kind = api.service_kind;
        name = new.service.name;
        uid = route.meta.uid;
      }),
    )

  -- an error other than "not found"
  unfoldable pub fatal : Option Error → Option Error
  fatal none = none
  fatal (some e) = if not (api.is_not_found e) then some e else none

  unfoldable pub discovery_and_fill_backend :
      Unstructured → Route → Func Call (Route × Result Error (Option TypedReference))
  discovery_and_fill_backend workload route = do
    (children, error) ← ask (fetch_children workload) (api.fetch_children workload)
    on_error (fatal error) (λ e. return (route, err e))
    let filled = fill_by_children route children
    if need_discovery filled
        then (do
          (route', found) ← call (fill_backend_by_created_service workload filled children)
          elim found [
            | err e ↦ return (route', err (wrapped e api.err_creating_service))
            | ok svc ↦ return (route', ok (some svc))
          ])
        else return (filled, ok none)
