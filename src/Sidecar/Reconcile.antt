-- ===== src/Sidecar/Reconcile.antt =====
-- The reconcile loop of the SidecarTrait
-- (legacy/traits/sidecartrait/controllers/sidecartrait_controller.go).
pub mod Success
pub mod Deploy
use kubevela_catalog.Base.{
  String, List, [], ◌∷◌, Option, none, some, Bool, true, false, ◌||◌, if◌then◌else◌,
}
use kubevela_catalog.Base.Exec.{
  Exec, Func, Result, ok, err, pure, return, ask, deref, or_else, on_error, call, ◌>>=◌, ◌>>◌,
}
use kubevela_catalog.K8s.{
  Error, new_error, wrapped, Reply, reply, NamespacedName, Condition, reconcile_error,
  reconcile_success,
}
use kubevela_catalog.Sidecar.{
  Entry, Trait, Resource, Document, Call, get_trait, fetch_workload, fetch_children,
  open_api_schema, patch_resource, patch_condition, Api,
}
use kubevela_catalog.Sidecar.Combine.{combine_containers, combine_volumes}
use kubevela_catalog.Sidecar.Locate.{Located, locate_containers_field, locate_volumes_field}

-- The failures of `sidecarResource`: the wait result with the error of the condition's patch.
-- errors.Wrap of a nil error is nil.
abbrev pub wrap : Option Error → String → Option Error
wrap none text = none
wrap (some e) text = some (wrapped e text)

-- `if len(resources) == 0 { … }`
abbrev pub or_workload : Resource → List Resource → List Resource
or_workload workload [] = workload ∷ []
or_workload workload (r ∷ rs) = r ∷ rs

abbrev pub entries_of : Option (List Entry) → List Entry
entries_of none = []
entries_of (some entries) = entries

abbrev pub patch_text : String
patch_text = "cannot patch the resource for containers"

abbrev pub sidecar_text : String
sidecar_text = "cannot sidecar the resourc"

module _ (api : Api) where
  -- cpv1alpha1.ReconcileError, which may panic on a nil error
  unfoldable pub condition_of : Option Error → Option Condition
  condition_of none = api.nil_error_condition
  condition_of (some e) = some (reconcile_error e)

  unfoldable pub fail : {A : Type 0} → Trait → Option Error → Exec Call Reply A
  fail t e = do
    c ← deref (condition_of e)
    answer ← ask (patch_condition t c) (api.patch_condition t c)
    return (record { result = api.wait_result; error = answer })

  -- `if !ok || err != nil { … }` after NestedSlice
  unfoldable pub slice_of :
      Trait → Result Error (Option (List Entry)) → Exec Call Reply (List Entry)
  slice_of t (err e) = fail t (wrap (some e) patch_text)
  slice_of t (ok none) = fail t (wrap none patch_text)
  slice_of t (ok (some entries)) = pure entries

  -- "Combine container": the resource, and whether it was changed
  unfoldable pub put_container : Trait → Resource → Located → Exec Call Reply (Resource × Bool)
  put_container t res (false, path) = pure (res, false)
  put_container t res (true, path) = do
    entries ← slice_of t (api.nested_slice res path)
    let containers = combine_containers api.encode entries t.container
    changed ←
        or_else (api.set_nested_field res containers path) (λ e. fail t (wrap (some e) patch_text))
    pure (changed, true)

  -- "Combine Volumes"
  unfoldable pub put_volumes : Trait → Resource → Bool → Located → Exec Call Reply (Resource × Bool)
  put_volumes t res combine (false, path) = pure (res, combine)
  put_volumes t res combine (true, path) = do
    found ← or_else (api.nested_slice res path) (λ e. fail t (wrap (some e) patch_text))
    let volumes = combine_volumes api.encode (entries_of found) t.volumes
    changed ←
        or_else (api.set_nested_field res volumes path) (λ e. fail t (wrap (some e) patch_text))
    pure (changed, true)

  unfoldable pub patch_changed : Trait → Resource → Resource → Bool → Exec Call Reply Unit
  patch_changed t original res false = pure tt
  patch_changed t original res true = do
    answer ← ask (patch_resource original res) (api.patch_resource original res)
    on_error answer (λ e. fail t (wrap (some e) sidecar_text))

  -- The loop over the resources. The result says whether one of them took the sidecar.
  unfoldable pub sidecar_each : Trait → Document → Bool → List Resource → Exec Call Reply Bool
  sidecar_each t document found [] = pure found
  sidecar_each t document found (res ∷ rest) = do
    (with_container, some_container) ←
        put_container t res (locate_containers_field api document res)
    (with_volumes, combine) ←
        put_volumes t with_container some_container
          (locate_volumes_field api document with_container)
    patch_changed t res with_volumes combine
    sidecar_each t document (found || combine) rest

  unfoldable pub some_found : Trait → Bool → Func Call Reply
  some_found t true = return (reply 0 none)
  some_found t false = fail t (some (new_error sidecar_text))

  unfoldable pub sidecar_resource : Trait → List Resource → Func Call Reply
  sidecar_resource t resources = do
    answer ← ask open_api_schema api.open_api_schema
    schema_doc ← or_else answer (λ e. fail t (wrap (some e) "failed to query openAPI"))
    document ←
        or_else (api.new_open_api_data schema_doc)
          (λ e. fail t (wrap (some e) "failed to query openAPI"))
    found ← sidecar_each t document false resources
    some_found t found

  -- the rest of `Reconcile`, after `sidecarResource`
  unfoldable pub finish : Trait → Reply → Func Call Reply
  finish t r = do
    on_error r.error (λ e. return (record { result = r.result; error = some e }))
    answer ← ask (patch_condition t reconcile_success) (api.patch_condition t reconcile_success)
    return (reply 0 answer)

  unfoldable pub reconcile_trait : Trait → Func Call Reply
  reconcile_trait t = do
    found ← ask (fetch_workload t) (api.fetch_workload t)
    workload ← or_else found (λ e. return (reply 0 (some e)))
    answer ← ask (fetch_children workload) (api.fetch_children workload)
    resources ← or_else answer (λ e. fail t (some (new_error api.err_fetch_child_resources)))
    r ← call (sidecar_resource t (or_workload workload resources))
    finish t r

  unfoldable pub reconcile : NamespacedName → Func Call Reply
  reconcile request = do
    found ← ask (get_trait request) (api.get_trait request)
    t ← or_else found (λ e. return (reply 0 (api.ignore_not_found e)))
    reconcile_trait t
