-- ===== src/Metrics/Controller.antt =====
-- The reconcile loop of the MetricsTrait
-- (legacy/traits/metricstrait/controllers/metricstrait_controller.go). Events and logs are left
-- out.
pub mod Collection
pub mod Discovery
use kubevela_catalog.Base.{
  ℕ, String, List, [], ◌∷◌, Option, none, some, Bool, true, false, not, ◌&&◌, str_eq, ◌<>◌,
  if◌then◌else◌,
}
use kubevela_catalog.Base.Int.{pos}
use kubevela_catalog.Base.Exec.{
  Exec, Func, Result, ok, err, pure, return, ask, or_else, on_error, call, ◌>>=◌, ◌>>◌,
}
use kubevela_catalog.K8s.{
  Error, new_error, wrapped, Reply, reply, NamespacedName, key, Labels, IntOrString, port_eq,
  Unstructured, owner_of, reconcile_error, reconcile_success,
}
use kubevela_catalog.Metrics.{
  ScrapeService, Status, Trait, ServiceMonitor, NewService, Item, service_port_item, other_item,
  Child, Call, get_trait, fetch_workload, fetch_children, patch_service, patch_monitor,
  delete_monitor, update_status, patch_condition, Api,
}

abbrev pub get_oam_service_label : Labels
get_oam_service_label = ("k8s-app", "oam") ∷ ("controller", "metricsTrait") ∷ []

abbrev pub service_monitor_ns_name : String
service_monitor_ns_name = "monitoring"

-- the port of every service that is made
abbrev pub service_port : ℕ
service_port = 4848

abbrev pub zero_port : IntOrString
zero_port = record { is_string = false; int_val = pos 0; str_val = "" }

-- `servicePort, _ := port.(corev1.ServicePort)`, then its target port: zero where the assertion
-- fails
unfoldable pub target_of : Item → IntOrString
target_of (service_port_item p) = p
target_of other_item = zero_port

unfoldable pub has_target : IntOrString → List Item → Bool
has_target target [] = false
has_target target (i ∷ is) = if port_eq (target_of i) target then true else has_target target is

-- `Enabled != nil && !*Enabled`
unfoldable pub is_disabled : ScrapeService → Bool
is_disabled s = elim s.enabled [ none ↦ false | some enabled ↦ not enabled ]

unfoldable pub with_monitor : Trait → String → Trait
with_monitor t name = record t { status = record t.status { service_monitor_name = name } }

unfoldable pub construct_service_monitor : Trait → IntOrString → ServiceMonitor
construct_service_monitor t target = record {
  name = t.meta.name;
  namespace = service_monitor_ns_name;
  labels = get_oam_service_label;
  owners = owner_of t.meta ∷ [];
  match_labels = get_oam_service_label;
  match_names = t.meta.namespace ∷ [];
  target_port = target;
  path = t.spec.scrape_service.path;
  scheme = t.spec.scrape_service.scheme;
}

module _ (api : Api) where
  unfoldable pub fail : {A : Type 0} → Trait → Error → Exec Call Reply A
  fail t e = do
    answer ← ask (patch_condition t (reconcile_error e)) (api.patch_condition t (reconcile_error e))
    return (record { result = api.wait_result; error = answer })

  -- the labels of the first service with the port; they may be nil
  unfoldable pub find_service : IntOrString → List Child → Option Labels
  find_service target [] = none
  find_service target (c ∷ cs) =
      if str_eq c.api_version api.service_api_version
        && str_eq c.kind api.service_kind
        && has_target target c.ports
      then c.labels
      else find_service target cs

  unfoldable pub fetch_services_label :
      Unstructured → IntOrString → Func Call (Result Error (Option Labels))
  fetch_services_label workload target = do
    found ← ask (fetch_children workload) (api.fetch_children workload)
    children ← or_else found (λ e. return (err e))
    return (ok (find_service target children))

  -- the selector of a service that is made
  unfoldable pub selector_for : Unstructured → Trait → Labels
  selector_for workload t =
      let (ports, labels, error) = api.discovery_from_pod_template workload in
      elim error [
        | none ↦ labels
        | some e ↦ elim t.spec.scrape_service.target_selector [
          | [] ↦ workload.labels
          | l ∷ ls ↦ l ∷ ls
        ]
      ]

  -- the given port, or else the first that was discovered
  unfoldable pub choose_port : IntOrString → List IntOrString → Result Error IntOrString
  choose_port target ports =
      if str_eq (api.port_text target) "0"
      then elim ports [ [] ↦ err (new_error "no ports discovered or specified") | p ∷ ps ↦ ok p ]
      else ok target

  unfoldable pub service_for : Unstructured → Trait → IntOrString → NewService
  service_for workload t target = record {
    kind = api.service_kind;
    api_version = api.service_api_version;
    name = "oam-" <> workload.name;
    namespace = workload.namespace;
    labels = get_oam_service_label;
    owners = owner_of t.meta ∷ [];
    selector = selector_for workload t;
    port = service_port;
    target_port = target;
  }

  unfoldable pub create_service :
      Unstructured → Trait → Func Call (Result Error (Labels × IntOrString))
  create_service workload t = do
    let (ports, labels, error) = api.discovery_from_pod_template workload
    target ← or_else (choose_port t.spec.scrape_service.target_port ports) (λ e. return (err e))
    let service : NewService = service_for workload t target
    answer ← ask (patch_service service) (api.patch_service service)
    applied ← or_else answer (λ e. return (err e))
    return (ok (applied.selector, target))

  -- the deletion's error is only logged
  unfoldable pub gc_orphan_service_monitor : Trait → Func Call Trait
  gc_orphan_service_monitor t = do
    let t' : Trait = with_monitor t (if is_disabled t.spec.scrape_service then "" else t.meta.name)
    if str_eq t.status.service_monitor_name t.meta.name then return t' else (do
      let k = key t.meta.namespace t.status.service_monitor_name
      answer ← ask (delete_monitor k) (api.delete_monitor k)
      return t')

  unfoldable pub write_status : Trait → Func Call (Option Error)
  write_status t = api.retry_on_conflict (do
    let k = key t.meta.namespace t.meta.name
    found ← ask (get_trait k) (api.get_trait k)
    stored ← or_else found (λ e. return (some e))
    let new : Trait = record stored { status = t.status }
    answer ← ask (update_status new) (api.update_status new)
    return answer)

  unfoldable pub disable : Trait → Func Call Reply
  disable t = do
    t' ← call (gc_orphan_service_monitor t)
    answer ← ask (patch_condition t' reconcile_success) (api.patch_condition t' reconcile_success)
    return (reply 0 answer)

  -- errors.Wrap, which keeps a nil error
  abbrev pub wrap : Option Error → String → Option Error
  wrap none s = none
  wrap (some e) s = some (wrapped e s)

  -- an error other than "not found"
  unfoldable pub found_labels :
      Trait → Result Error (Option Labels) → Exec Call Reply (Option Labels)
  found_labels t (ok labels) = pure labels
  found_labels t (err e) =
      if not (api.is_not_found e) then fail t (wrapped e api.err_locating_service) else pure none

  -- the labels and the port of the service, which is made if there is none
  unfoldable pub service_or_new :
      Unstructured → Trait → Option Labels → Exec Call Reply (Labels × IntOrString)
  service_or_new workload t (some labels) = pure (labels, t.spec.scrape_service.target_port)
  service_or_new workload t none = do
    made ← call (create_service workload t)
    or_else made (λ e. fail t (wrapped e api.err_creating_service))

  unfoldable pub monitor : Trait → Labels → IntOrString → Func Call Reply
  monitor t labels target = do
    let t1 : Trait = record t {
      status = record t.status { port = target; selector_labels = labels };
    }
    let m = construct_service_monitor t1 target
    answer ← ask (patch_monitor m) (api.patch_monitor m)
    on_error answer (λ e. fail t1 (wrapped e "failed to apply the service monitor"))
    t2 ← call (gc_orphan_service_monitor t1)
    let t3 : Trait = record t2 { status = record t2.status { condition = some reconcile_success } }
    written ← call (write_status t3)
    return (reply 0 (wrap written api.err_update_status))

  unfoldable pub enable : Trait → Func Call Reply
  enable t = do
    fetched ← ask (fetch_workload t) (api.fetch_workload t)
    workload ← or_else fetched (λ e. fail t (wrapped e api.err_locating_workload))
    found ← call (fetch_services_label workload t.spec.scrape_service.target_port)
    service_label ← found_labels t found
    (labels, target) ← service_or_new workload t service_label
    monitor t labels target

  unfoldable pub reconcile : NamespacedName → Func Call Reply
  reconcile request = do
    found ← ask (get_trait request) (api.get_trait request)
    t ← or_else found (λ e. return (reply 0 (api.ignore_not_found e)))
    if is_disabled t.spec.scrape_service then disable t else enable t
