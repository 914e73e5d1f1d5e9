-- ===== src/MetricHpa/Reconcile/External.antt =====
-- What a Prometheus server of the user's does to the reconcile loop.
use kubevela_catalog.Base.{
  String, List, [], ◌∷◌, none, some, false, ◌≡◌, refl, str_eq, Bool-cases, inl, inr,
}
use kubevela_catalog.Base.Int.{ℤ}
use kubevela_catalog.Base.Exec.{panic, next, stop, ok, ◌>>=◌}
use kubevela_catalog.K8s.{NamespacedName, key, Unstructured}
use kubevela_catalog.MetricHpa.{
  Trait, Made, made_config_map, made_scaled_object, Sort, Call, get_trait, get_workload,
  fetch_children, patch_object, Api,
}
use kubevela_catalog.MetricHpa.Render.{prome_config_map, scaled_object_of}
use kubevela_catalog.MetricHpa.Reconcile.{
  gvk_deployment, gvk_service, get_referenced_workload, decode_child, get_cw_child_resource,
  set_controller_reference, apply, apply_config_map, apply_prometheus, apply_scaled_object,
  garbage_collect, apply_all, reconcile_trait, reconcile,
}

module _ (api : Api) (t : Trait) (with_owner : Made → Made) (applied : Made → Unstructured) where
  -- the children can be decoded, and the server takes all objects
  pub record IsWilling : Type 0 where
    pub decodes : (s : Sort) (u : Unstructured) → api.decode s u ≡ none
    pub owns : (m : Made) → api.own t m ≡ ok (with_owner m)
    pub applies : (m : Made) (h : List Call) → api.patch_object m h ≡ ok (applied m)

  get_cw_child_resource_lem :
      (us : List Unstructured) (h : List Call)
      → IsWilling
      → get_cw_child_resource api us h ≡ (stop none, h)
  unfolding get_cw_child_resource decode_child ◌>>=◌
  get_cw_child_resource_lem [] h willing = refl
  get_cw_child_resource_lem (u ∷ us) h willing =
      elim (Bool-cases (str_eq (api.gvk_string u) gvk_deployment)) [
        | inl d ↦ rw (d, willing.decodes Sort.deployment u) (get_cw_child_resource_lem us h willing)
        | inr other ↦ elim (Bool-cases (str_eq (api.gvk_string u) gvk_service)) [
          | inl s ↦
              rw (other, s, willing.decodes Sort.service u) (get_cw_child_resource_lem us h willing)
          | inr neither ↦ rw (other, neither) (get_cw_child_resource_lem us h willing)
        ]
      ]

  apply_config_map_lem :
      (h : List Call)
      → IsWilling
      → apply_config_map api t h
        ≡ (next tt, patch_object (with_owner (made_config_map (prome_config_map t))) ∷ h)
  unfolding apply_config_map set_controller_reference apply ◌>>=◌
  apply_config_map_lem h willing =
      let conf = made_config_map (prome_config_map t) in
      rw (willing.owns conf, willing.applies (with_owner conf) h) refl

  apply_prometheus_external :
      (h : List Call)
      → str_eq t.spec.prom_server_address "" ≡ false
      → apply_prometheus api t h ≡ (next (t.spec.prom_server_address, none), h)
  unfolding apply_prometheus ◌>>=◌
  apply_prometheus_external h external = rw external refl

  apply_scaled_object_lem :
      (address : String) (threshold : ℤ) (h : List Call)
      → IsWilling
      → t.spec.prom_threshold ≡ some threshold
      → let object = with_owner (made_scaled_object (scaled_object_of api t address threshold)) in
        apply_scaled_object api t address h ≡ (next (applied object), patch_object object ∷ h)
  unfolding apply_scaled_object set_controller_reference apply ◌>>=◌
  apply_scaled_object_lem address threshold h willing given =
      let scaled = made_scaled_object (scaled_object_of api t address threshold) in
      simp (given, willing.owns scaled, willing.applies (with_owner scaled) h)

  external_panics :
      (threshold : ℤ) (h : List Call)
      → IsWilling
      → str_eq t.spec.prom_server_address "" ≡ false
      → t.spec.prom_threshold ≡ some threshold
      → let conf = with_owner (made_config_map (prome_config_map t)) in
        let object =
          with_owner
            (made_scaled_object (scaled_object_of api t t.spec.prom_server_address threshold)) in
        apply_all api t h ≡ (panic, patch_object object ∷ patch_object conf ∷ h)
  unfolding apply_all garbage_collect ◌>>=◌
  external_panics threshold h willing external given =
      let conf = with_owner (made_config_map (prome_config_map t)) in
      rw (apply_config_map_lem h willing) (
        rw (apply_prometheus_external (patch_object conf ∷ h) external) (
          rw
            (apply_scaled_object_lem t.spec.prom_server_address threshold (patch_object conf ∷ h)
              willing given)
            refl))

  -- Whenever the trait names a Prometheus server of the user's and a threshold, the workload and its
  -- children can be read and decoded, and the server takes every object, the reconcile loop panics,
  -- after it has applied the config map and the scaled object and nothing else.
  pub external_server_panics :
      (request : NamespacedName) (w : Unstructured) (us : List Unstructured) (threshold : ℤ)
      → IsWilling
      → api.get_trait request [] ≡ ok t
      → ((h : List Call)
          → api.get_workload t.spec.workload_reference
              (key t.meta.namespace t.spec.workload_reference.name)
              h
            ≡ ok w)
      → ((h : List Call) → api.fetch_children w h ≡ ok us)
      → str_eq t.spec.prom_server_address "" ≡ false
      → t.spec.prom_threshold ≡ some threshold
      → let ref = t.spec.workload_reference in
        reconcile api request [] ≡ (
          panic,
          patch_object (
                with_owner (
                  made_scaled_object (scaled_object_of api t t.spec.prom_server_address threshold)))
              ∷ patch_object (with_owner (made_config_map (prome_config_map t)))
              ∷ fetch_children w
              ∷ get_workload ref (key t.meta.namespace ref.name)
              ∷ get_trait request
              ∷ [],
        )
  unfolding reconcile reconcile_trait get_referenced_workload ◌>>=◌
  external_server_panics request w us threshold willing got found children external given =
      let ref = t.spec.workload_reference in
      let h1 : List Call = get_trait request ∷ [] in
      let h2 : List Call = get_workload ref (key t.meta.namespace ref.name) ∷ h1 in
      let h3 : List Call = fetch_children w ∷ h2 in
      rw (got, found h1, children h2)
        (rw (get_cw_child_resource_lem us h3 willing)
          (external_panics threshold h3 willing external given))
