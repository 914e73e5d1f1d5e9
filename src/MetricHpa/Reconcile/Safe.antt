-- ===== src/MetricHpa/Reconcile/Safe.antt =====
-- That the reconcile loop does not panic with a Prometheus of its own.
use mathlib.Core.Path.{subst}
use kubevela_catalog.Base.{String, List, [], ◌∷◌, Option, none, some, true, ◌≡◌, ◌≢◌, refl, str_eq}
use kubevela_catalog.Base.Int.{ℤ}
use kubevela_catalog.Base.Exec.{Ctl, panic, Exec, Result, ok, err, deref}
use kubevela_catalog.Base.Exec.Ends.{Outcome, Ends-bind}
use kubevela_catalog.Base.Exec.Stops.{
  Stops, Any, Stops-call, Stops-pure, Stops-return, Stops-ask, Stops-or_else, Stops-if,
  Stops-on_error, Stops-bind,
}
use kubevela_catalog.K8s.{Error, TypedReference, Unstructured}
use kubevela_catalog.MetricHpa.{Trait, Made, Sort, Call, Api}
use kubevela_catalog.MetricHpa.Reconcile.{
  Uids, sort_of, delete_found, clean_up, get_referenced_workload, decode_child,
  get_cw_child_resource, set_controller_reference, apply, fail, cleanup_resources, apply_config_map,
  apply_prometheus, apply_scaled_object, garbage_collect, finish, apply_all, reconcile_trait,
}

-- no result is ruled out, but a panic is
abbrev pub Safe : {R A : Type 0} → (A → Type 0) → Exec Call R A → Type 0
Safe N = Stops Any ⊥ N

ruleset safe_rules = (
  Stops-call, Stops-ask, Stops-pure, Stops-return, Stops-or_else, Stops-if, Stops-on_error,
  Stops-bind, tt,
)

Outcome-panic :
    {R A : Type 0} (Q : R → Type 0) (N : A → Type 0) (r : Ctl R A) → Outcome Q ⊥ N r → r ≢ panic
Outcome-panic Q N r o e = subst (Outcome Q ⊥ N) e o

deref-Safe : {R A : Type 0} (o : Option A) (v : A) → o ≡ some v → Safe {R = R} Any (deref o)
unfolding deref
deref-Safe o v e = rw e (Stops-pure v tt)

module _ (api : Api) (t : Trait) where
  -- the deployment and the service are there
  abbrev IsThere : String × Option (Unstructured × Unstructured) → Type 0
  IsThere (address, none) = ⊥
  IsThere (address, some p) = Unit

  fail-Safe : {A : Type 0} {N : A → Type 0} (shown e : Error) → Safe N (fail api {A = A} t shown e)
  unfolding fail
  fail-Safe shown e = search safe_rules

  set_controller_reference-Safe : (m : Made) → Safe Any (set_controller_reference api t m)
  unfolding set_controller_reference
  set_controller_reference-Safe m = search safe_rules

  apply-Safe : (m : Made) (text : String) → Safe Any (apply api t m text)
  unfolding apply
  apply-Safe m text = search (safe_rules, fail-Safe)

  apply_config_map-Safe : Safe Any (apply_config_map api t)
  unfolding apply_config_map
  apply_config_map-Safe = search (safe_rules, set_controller_reference-Safe, apply-Safe)

  apply_prometheus-Safe :
      str_eq t.spec.prom_server_address "" ≡ true → Safe IsThere (apply_prometheus api t)
  unfolding apply_prometheus
  apply_prometheus-Safe own =
      rw own (search (safe_rules, set_controller_reference-Safe, apply-Safe) depth 9)

  apply_scaled_object-Safe :
      (address : String) (threshold : ℤ)
      → t.spec.prom_threshold ≡ some threshold
      → Safe Any (apply_scaled_object api t address)
  unfolding apply_scaled_object
  apply_scaled_object-Safe address threshold given =
      Stops-bind _ _ (deref-Safe t.spec.prom_threshold threshold given)
        (λ v. search (safe_rules, set_controller_reference-Safe, apply-Safe))

  delete_found-Safe : (k : Sort) (r : Result Error Unstructured) → Safe Any (delete_found api k r)
  unfolding delete_found
  delete_found-Safe k (ok u) = search safe_rules
  delete_found-Safe k (err e) = search safe_rules

  clean_up-Safe :
      (uids : Uids) (r : TypedReference) (o : Option Sort) → Safe Any (clean_up api t uids r o)
  unfolding clean_up
  clean_up-Safe uids r none = search safe_rules
  clean_up-Safe uids r (some k) = search (safe_rules, delete_found-Safe)

  cleanup_resources-Safe :
      (uids : Uids) (rs : List TypedReference) → Safe Any (cleanup_resources api t uids rs)
  unfolding cleanup_resources
  cleanup_resources-Safe uids [] = search safe_rules
  cleanup_resources-Safe uids (r ∷ rs) =
      Stops-bind _ _ (clean_up-Safe uids r (sort_of api r)) (λ u. cleanup_resources-Safe uids rs)

  garbage_collect-Safe :
      (address : String) (p : Option (Unstructured × Unstructured)) (object : Unstructured)
      → IsThere (address, p)
      → Safe Any (garbage_collect api t p object)
  unfolding garbage_collect
  garbage_collect-Safe address none object there = elim there [ ]
  garbage_collect-Safe address (some p) object there =
      Stops-bind _ _ (deref-Safe (some p) p refl)
        (λ q. search (safe_rules, cleanup_resources-Safe, fail-Safe))

  finish-Safe :
      (p : Option (Unstructured × Unstructured)) (object : Unstructured)
      → Safe Any (finish api t p object)
  unfolding finish
  finish-Safe p object = search safe_rules depth 9

  decode_child-Safe : (u : Unstructured) → Safe Any (decode_child api u)
  unfolding decode_child
  decode_child-Safe u = search safe_rules

  get_cw_child_resource-Safe : (us : List Unstructured) → Safe Any (get_cw_child_resource api us)
  unfolding get_cw_child_resource
  get_cw_child_resource-Safe [] = search safe_rules
  get_cw_child_resource-Safe (u ∷ us) =
      Stops-bind _ _ (decode_child-Safe u) (λ v. get_cw_child_resource-Safe us)

  get_referenced_workload-Safe : Safe Any (get_referenced_workload api t)
  unfolding get_referenced_workload
  get_referenced_workload-Safe = search safe_rules depth 9

  apply_all-Safe :
      (threshold : ℤ)
      → str_eq t.spec.prom_server_address "" ≡ true
      → t.spec.prom_threshold ≡ some threshold
      → Safe Any (apply_all api t)
  unfolding apply_all
  apply_all-Safe threshold own given = Stops-bind _ _ apply_config_map-Safe (λ u. record {
    ends = Ends-bind _ _ IsThere _ _ _ (apply_prometheus-Safe own).ends (λ (address, p) there.
        (Stops-bind _ _ (apply_scaled_object-Safe address threshold given) (λ object.
          Stops-bind _ _ (garbage_collect-Safe address p object there)
            (λ v. finish-Safe p object))).ends);
  })

  reconcile_trait-Safe :
      (threshold : ℤ)
      → str_eq t.spec.prom_server_address "" ≡ true
      → t.spec.prom_threshold ≡ some threshold
      → Safe Any (reconcile_trait api t)
  unfolding reconcile_trait
  reconcile_trait-Safe threshold own given =
      let last = apply_all-Safe threshold own given in
      Stops-bind _ _ (Stops-call _ get_referenced_workload-Safe) (λ (result, found).
        Stops-bind _ _ (search safe_rules) (λ workload.
          Stops-bind _ _ (search safe_rules) (λ answer.
            Stops-bind _ _ (search (safe_rules, fail-Safe)) (λ resources.
              Stops-bind _ _ (Stops-call _ (get_cw_child_resource-Safe resources))
                (λ failed. Stops-bind _ _ (search (safe_rules, fail-Safe)) (λ u. last))))))

  -- If the trait names no Prometheus server and has a threshold, the reconcile loop does not panic,
  -- whatever the server answers to any call.
  pub own_server_never_panics :
      (threshold : ℤ) (h : List Call)
      → str_eq t.spec.prom_server_address "" ≡ true
      → t.spec.prom_threshold ≡ some threshold
      → (reconcile_trait api t h).0 ≢ panic
  own_server_never_panics threshold h own given =
      Outcome-panic Any Any (reconcile_trait api t h).0
        ((reconcile_trait-Safe threshold own given).ends.at h)
