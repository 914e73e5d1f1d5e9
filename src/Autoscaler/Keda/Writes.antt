-- ===== src/Autoscaler/Keda/Writes.antt =====
-- Which writes the controller makes, and what it makes of a failed read.
use kubevela_catalog.Base.{String, List, [], ◌∷◌, none, true, ◌≡◌, refl, arith, if◌then◌else◌}
use kubevela_catalog.Base.Exec.{or_else, Exec, Result, ok, err, stop, ◌>>=◌}
use kubevela_catalog.Base.Exec.Keeps.{Keeps, AllCalls, Keeps-ask, Keeps-pure, keeps_rules}
use kubevela_catalog.Base.Exec.Ends.{Ends-ask, Ends-pure, Keeps-bind_after}
use kubevela_catalog.K8s.{Error, NamespacedName, key}
use kubevela_catalog.Autoscaler.{
  TargetWorkload, Scaler, ScaleTrigger, ScaledObject, Call, get_scaled_object, create_scaled_object,
  update_scaled_object, Api,
}
use kubevela_catalog.Autoscaler.Keda.{
  keda_triggers, spec_for, object_for, write_scaled_object, scale_by_keda, fail, with_target,
  reconcile,
}

-- For triggers that can be prepared: if there is no scaled object, one is created; if there is
-- one, its specification is replaced; on any other answer of the server nothing is written, and
-- no error is returned.
pub scale_by_keda_lem :
    (api : Api) (s : Scaler) (namespace : String) (triggers : List ScaleTrigger) (h : List Call)
    → keda_triggers api s s.spec.triggers ≡ ok triggers
    → let k = key namespace s.meta.name in
      let new = object_for api s namespace (spec_for api s triggers) in
      let h1 : List Call = get_scaled_object k ∷ h in
      scale_by_keda api s namespace h ≡ (elim (api.get_scaled_object k h) [
        | ok stored ↦
            (let changed : ScaledObject = record stored { spec = spec_for api s triggers } in
              (stop (api.update_scaled_object changed h1), update_scaled_object changed ∷ h1))
        | err e ↦
            if api.is_not_found e
            then (stop (api.create_scaled_object new h1), create_scaled_object new ∷ h1)
            else (stop none, h1)
      ])
unfolding scale_by_keda write_scaled_object ◌>>=◌
scale_by_keda_lem api s namespace triggers h prepared = ground arith

-- Every scaled object that is written has the replica bounds of the scaler; a new one has its name,
-- is in this namespace, and has the scaler as its only owner and controller.
abbrev pub IsFor : Scaler → String → Call → Type 0
IsFor s namespace (create_scaled_object o) =
    (o.name ≡ s.meta.name)
    × (o.namespace ≡ namespace)
    × (o.owners
        ≡ record {
          api_version = s.meta.api_version;
          kind = s.meta.kind;
          uid = s.meta.uid;
          name = s.meta.name;
          controller = true;
          block_owner_deletion = true;
        }
          ∷ [])
    × (o.spec.min_replica_count ≡ s.spec.min_replicas)
    × (o.spec.max_replica_count ≡ s.spec.max_replicas)
IsFor s namespace (update_scaled_object o) =
    (o.spec.min_replica_count ≡ s.spec.min_replicas)
    × (o.spec.max_replica_count ≡ s.spec.max_replicas)
IsFor s namespace _ = Unit

module _ (api : Api) (s : Scaler) (namespace : String) where
  abbrev For : {R A : Type 0} → Exec Call R A → Type 0
  For m = Keeps (AllCalls (IsFor s namespace)) m

  fail-For : {A : Type 0} (e : Error) → For (fail api {A = A} s e)
  unfolding fail
  fail-For e = search (keeps_rules, tt)

  write-For :
      (target : TargetWorkload) (triggers : List ScaleTrigger) (found : Result Error ScaledObject)
      → let t = with_target api s target in
        For (write_scaled_object api t namespace (spec_for api t triggers) found)
  unfolding write_scaled_object spec_for object_for with_target
  write-For target triggers (err e) =
      let t = with_target api s target in
      let o : ScaledObject = object_for api t namespace (spec_for api t triggers) in
      let made : IsFor s namespace (create_scaled_object o) = (refl, refl, refl, refl, refl) in
      search (keeps_rules, made)
  write-For target triggers (ok stored) =
      let t = with_target api s target in
      let o : ScaledObject = record stored { spec = spec_for api t triggers } in
      let made : IsFor s namespace (update_scaled_object o) = (refl, refl) in
      search (keeps_rules, made)

  scale_by_keda-For :
      (target : TargetWorkload) → For (scale_by_keda api (with_target api s target) namespace)
  unfolding scale_by_keda
  scale_by_keda-For target = search (keeps_rules, write-For, tt)

-- If the server gives the scaler, then whatever else it answers, every scaled object that the
-- reconcile loop creates has the name of the scaler, is in the namespace of the request, has the
-- scaler as its only owner and controller, and has the scaler's minimum and maximum of replicas;
-- and so has, in its specification, every one that it updates.
pub reconcile_writes_bounds :
    (api : Api) (request : NamespacedName) (s : Scaler)
    → ((h : List Call) → api.get_trait request h ≡ ok s)
    → AllCalls (IsFor s request.namespace) (reconcile api request []).1
unfolding reconcile or_else
reconcile_writes_bounds api request s got =
    let keeps : For api s request.namespace (reconcile api request) =
      Keeps-bind_after _ _ _ _ (Keeps-ask _ _ tt) (Ends-ask _ _ (λ a. a ≡ ok s) _ _ got)
        (λ answer e. rw e (
          Keeps-bind_after _ _ _ _ (Keeps-pure s) (Ends-pure _ _ (λ a. a ≡ s) s refl) (λ s' same.
            rw same (search (keeps_rules, fail-For, scale_by_keda-For, tt) depth 16)))) in
    keeps.at [] tt
