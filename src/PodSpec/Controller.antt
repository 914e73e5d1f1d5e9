-- ===== src/PodSpec/Controller.antt =====
-- The reconcile loop of the PodSpecWorkload
-- (legacy/workloads/podspecworkload/controllers/podspecworkload_controller.go). Events and logs
-- are left out.
pub mod Ports
use kubevela_catalog.Base.{
  ℕ, ◌+◌, String, List, [], ◌∷◌, ◌++◌, Option, none, some, Bool, true, false, str_eq, map, ltb,
  length, if◌then◌else◌,
}
use kubevela_catalog.Base.Int.{ℤ, pos, add32}
use kubevela_catalog.Base.Dict.{Dict}
use kubevela_catalog.Base.Exec.{
  Exec, Func, Result, ok, err, pure, return, ask, or_else, on_error, call, ◌>>=◌, ◌>>◌,
}
use kubevela_catalog.K8s.{
  Error, wrapped, Reply, reply, NamespacedName, key, TypedReference, reconcile_error,
  reconcile_success, Kube,
}
use kubevela_catalog.PodSpec.{
  ContainerPort, Container, Workload, Deployment, ServicePort, Service, Call, get_workload,
  patch_deployment, patch_service, update_status, patch_condition, Api,
}

abbrev pub label_name_key : String
label_name_key = "component.oam.dev/name"

abbrev pub name_label : Workload → Dict String
name_label w = (label_name_key, w.meta.name) ∷ []

-- `if len(Protocol) == 0 { Protocol = TCP }`
unfoldable pub default_protocol : ContainerPort → ContainerPort
default_protocol p = if str_eq p.protocol "" then record p { protocol = "TCP" } else p

-- the two loops over the containers and their ports
unfoldable pub default_protocols : List Container → List Container
default_protocols cs = map (λ (c : Container). record c { ports = map default_protocol c.ports }) cs

unfoldable pub check_container_ports_specified : List Container → Bool
check_container_ports_specified [] = false
check_container_ports_specified (c ∷ cs) =
    if ltb 0 (length c.ports) then true else check_container_ports_specified cs

module _ (kube : Kube) where
  -- the inner loop, from the next port of the service
  unfoldable pub service_ports_of : ℤ → List ContainerPort → List ServicePort
  service_ports_of n [] = []
  service_ports_of n (p ∷ ps) =
      record {
        name = p.name;
        protocol = p.protocol;
        port = n;
        target_port = kube.from_int p.container_port;
      }
      ∷ service_ports_of (add32 n (pos 1)) ps

  -- the port of the service after the inner loop
  unfoldable pub advance_port : ℤ → List ContainerPort → ℤ
  advance_port n [] = n
  advance_port n (p ∷ ps) = advance_port (add32 n (pos 1)) ps

  unfoldable pub service_ports : ℤ → List Container → List ServicePort
  service_ports n [] = []
  service_ports n (c ∷ cs) = service_ports_of n c.ports ++ service_ports (advance_port n c.ports) cs

module _ (api : Api) where
  unfoldable pub fail : {A : Type 0} → Workload → Error → Exec Call Reply A
  fail w e = do
    answer ← ask (patch_condition w (reconcile_error e)) (api.patch_condition w (reconcile_error e))
    return (record { result = api.wait_result; error = answer })

  -- The deployment shares the slices of containers and ports with the workload, so that the loop
  -- over the protocols changes the workload too: it is returned.
  unfoldable pub render_deployment : Workload → Workload × Result Error Deployment
  render_deployment w =
      let containers = default_protocols w.containers in
      let w' : Workload = record w { containers = containers } in
      let d : Deployment = record {
        kind = "Deployment";
        api_version = api.apps_api_version;
        name = w.meta.name;
        namespace = w.meta.namespace;
        replicas = w.replicas;
        match_labels = name_label w;
        template_labels = name_label w;
        containers = containers;
      } in
      (w', api.own_deployment w' (api.pass_to_template w' (api.pass_label_and_annotation w' d)))

  unfoldable pub render_service : Workload → Result Error Service
  render_service w = api.own_service w (record {
    kind = "Service";
    api_version = api.core_api_version;
    name = w.meta.name;
    namespace = w.meta.namespace;
    labels = name_label w;
    selector = name_label w;
    ports = service_ports api.kube (pos 8080) w.containers;
  })

  unfoldable pub write_status : Workload → Func Call (Result Error Workload)
  write_status w = api.retry_on_conflict (do
    let k = key w.meta.namespace w.meta.name
    found ← ask (get_workload k) (api.get_workload k)
    stored ← or_else found (λ e. return (err e))
    let new : Workload = record stored { resources = w.resources }
    answer ← ask (update_status new) (api.update_status new)
    return answer)

  -- the service, for a workload with a port
  unfoldable pub apply_service : Workload → Exec Call Reply Workload
  apply_service w =
      if check_container_ports_specified w.containers
      then (do
        service ← or_else (render_service w) (λ e. fail w (wrapped e "cannot render service"))
        answer ← ask (patch_service service) (api.patch_service service)
        made ← or_else answer (λ e. fail w (wrapped e "cannot apply the service"))
        pure (record w { resources = w.resources ++ made ∷ [] }))
      else pure w

  unfoldable pub apply : Workload → Func Call Reply
  apply workload = do
    let (w, rendered) = render_deployment workload
    deploy ← or_else rendered (λ e. fail w (wrapped e "cannot render deployment"))
    answer ← ask (patch_deployment deploy) (api.patch_deployment deploy)
    made ← or_else answer (λ e. fail w (wrapped e "cannot apply the deployment"))
    w2 ← apply_service (record w { resources = made ∷ [] })
    written ← call (write_status w2)
    w3 ← or_else written (λ e. return (record { result = api.wait_result; error = some e }))
    patched ← ask (patch_condition w3 reconcile_success) (api.patch_condition w3 reconcile_success)
    return (reply 0 patched)

  unfoldable pub reconcile : NamespacedName → Func Call Reply
  reconcile request = do
    found ← ask (get_workload request) (api.get_workload request)
    w ← or_else found (λ e. return (reply 0 (api.ignore_not_found e)))
    apply w
