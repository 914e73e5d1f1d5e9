-- ===== src/Metrics/Controller/Collection.antt =====
-- When the service monitor of a trait is deleted.
use kubevela_catalog.Base.{
  List, [], ◌∷◌, Option, none, some, true, ◌≡◌, ◌≢◌, refl, sym, ◌∙◌, ap, arith, str_eq_refl,
  if◌then◌else◌,
}
use kubevela_catalog.Base.Exec.{Exec, Func, Result, ok, err, ◌>>=◌}
use kubevela_catalog.Base.Exec.Keeps.{
  Keeps, AllCalls, Keeps-if, Keeps-ask, Keeps-bind, Keeps-call, keeps_rules,
}
use kubevela_catalog.K8s.{
  Error, ObjectMeta, NamespacedName, Labels, IntOrString, Unstructured, reconcile_success,
}
use kubevela_catalog.Metrics.{
  Trait, Call, get_trait, patch_monitor, delete_monitor, patch_condition, Api,
}
use kubevela_catalog.Metrics.Controller.{
  is_disabled, with_monitor, gc_orphan_service_monitor, disable, reconcile, fail, create_service,
  service_or_new, write_status, monitor, construct_service_monitor, found_labels,
  fetch_services_label, enable,
}

-- A disabled trait whose status names its own service monitor, as it does after every reconcile
-- while it was enabled, deletes nothing: the only write is the patch of its condition.
pub disabled_keeps_monitor :
    (api : Api) (request : NamespacedName) (t : Trait)
    → api.get_trait request [] ≡ ok t
    → is_disabled t.spec.scrape_service ≡ true
    → t.status.service_monitor_name ≡ t.meta.name
    → (reconcile api request []).1
      ≡ patch_condition (with_monitor t "") reconcile_success ∷ get_trait request ∷ []
unfolding reconcile disable gc_orphan_service_monitor ◌>>=◌
disabled_keeps_monitor api request t got disabled own = ground (arith, str_eq_refl t.meta.name)

-- Monitors are made in the namespace "monitoring" and under the trait's name, and deleted from the
-- trait's own namespace.
abbrev pub IsApart : Trait → Call → Type 0
IsApart t (patch_monitor m) = (m.namespace ≡ "monitoring") × (m.name ≡ t.meta.name)
IsApart t (delete_monitor k) = (k.namespace ≡ t.meta.namespace) × (k.namespace ≢ "monitoring")
IsApart t _ = Unit

-- a function that is retried makes no other calls than its own
abbrev pub OnlyRetries : Api → Type 1
OnlyRetries api =
    (P : List Call → Type 0) (m : Func Call (Option Error))
    → Keeps P m
    → Keeps P (api.retry_on_conflict m)

module _ (api : Api) (t : Trait) (retries : OnlyRetries api)
    (other : t.meta.namespace ≢ "monitoring") where
  abbrev Apart : {R A : Type 0} → Exec Call R A → Type 0
  Apart m = Keeps (AllCalls (IsApart t)) m

  fail-Apart : {A : Type 0} (t' : Trait) (e : Error) → Apart (fail api {A = A} t' e)
  unfolding fail
  fail-Apart t' e = search (keeps_rules, tt)

  collection-Apart : (t' : Trait) → t'.meta ≡ t.meta → Apart (gc_orphan_service_monitor api t')
  unfolding gc_orphan_service_monitor
  collection-Apart t' same =
      let space : t'.meta.namespace ≡ t.meta.namespace =
        ap (λ (m : ObjectMeta). m.namespace) same in
      let deleted : (t'.meta.namespace ≡ t.meta.namespace) × (t'.meta.namespace ≢ "monitoring") =
        (space, λ e. other (sym space ∙ e)) in
      search (keeps_rules, deleted)

  disable-Apart : Apart (disable api t)
  unfolding disable
  disable-Apart =
      Keeps-bind _ _ (Keeps-call _ (collection-Apart t refl)) (λ t'. search (keeps_rules, tt))

  create_service-Apart : (w : Unstructured) → Apart (create_service api w t)
  unfolding create_service
  create_service-Apart w = search (keeps_rules, tt)

  service_or_new-Apart :
      (w : Unstructured) (found : Option Labels) → Apart (service_or_new api w t found)
  unfolding service_or_new
  service_or_new-Apart w none = search (keeps_rules, fail-Apart, create_service-Apart)
  service_or_new-Apart w (some labels) = search keeps_rules

  write_status-Apart : (t' : Trait) → Apart (write_status api t')
  unfolding write_status
  write_status-Apart t' = retries _ _ (search (keeps_rules, tt))

  monitor-Apart : (labels : Labels) (target : IntOrString) → Apart (monitor api t labels target)
  unfolding monitor construct_service_monitor
  monitor-Apart labels target = Keeps-bind _ _ (Keeps-ask _ _ (refl, refl)) (λ answer.
      Keeps-bind _ _ (search (keeps_rules, fail-Apart)) (λ u.
        Keeps-bind _ _ (Keeps-call _ (collection-Apart _ refl))
          (λ t2. search (keeps_rules, write_status-Apart))))

  found_labels-Apart : (found : Result Error (Option Labels)) → Apart (found_labels api t found)
  unfolding found_labels
  found_labels-Apart (ok labels) = search keeps_rules
  found_labels-Apart (err e) = search (keeps_rules, fail-Apart)

  fetch-Apart :
      (w : Unstructured) (target : IntOrString) → Apart (fetch_services_label api w target)
  unfolding fetch_services_label
  fetch-Apart w target = search (keeps_rules, tt)

  enable-Apart : Apart (enable api t)
  unfolding enable
  enable-Apart =
      search
        (
          keeps_rules, fail-Apart, fetch-Apart, found_labels-Apart, service_or_new-Apart,
          monitor-Apart, tt,
        )
        depth 14

  reconcile_trait-Apart :
      Apart (if is_disabled t.spec.scrape_service then disable api t else enable api t)
  reconcile_trait-Apart = Keeps-if _ _ _ (λ e. enable-Apart) (λ e. disable-Apart)

-- Of a trait in another namespace than "monitoring", the reconcile loop makes monitors in the
-- namespace "monitoring" only, and deletes monitors only from other namespaces, whatever the server
-- answers, if a retried call is the call itself: so it never deletes a monitor that it has made.
pub collection_misses_monitors :
    (api : Api) (request : NamespacedName) (t : Trait)
    → OnlyRetries api
    → t.meta.namespace ≢ "monitoring"
    → api.get_trait request [] ≡ ok t
    → AllCalls (IsApart t) (reconcile api request []).1
unfolding reconcile ◌>>=◌
collection_misses_monitors api request t retries other got =
    rw got ((reconcile_trait-Apart api t retries other).at (get_trait request ∷ []) (tt, tt))
