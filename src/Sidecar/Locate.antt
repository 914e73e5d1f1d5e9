-- ===== src/Sidecar/Locate.antt =====
-- The search for the fields of a resource that take the sidecar
-- (locateField of legacy/traits/sidecartrait/controllers/sidecartrait_controller_helper.go).
use kubevela_catalog.Base.{String, List, [], ◌∷◌, Option, none, some, Bool, true, false}
use kubevela_catalog.Base.Exec.{Result, ok, err}
use kubevela_catalog.K8s.{Error}
use kubevela_catalog.Sidecar.{Resource, Document, Schema, Field, array, other, Api}

-- whether there is such a field, and its path
abbrev pub Located : Type 0
Located = Bool × List String

-- The first path of the schema decides: a field there that is no array ends the search.
unfoldable pub field_at : Result Error (Option Field) → List String → Located → Located
field_at (ok (some array)) path rest = (true, path)
field_at (ok (some other)) path rest = (false, path)
field_at (ok none) path rest = rest
field_at (err e) path rest = rest

abbrev pub containers_paths : List (List String)
containers_paths =
    ("spec" ∷ "containers" ∷ []) ∷ ("spec" ∷ "template" ∷ "spec" ∷ "containers" ∷ []) ∷ []

abbrev pub volumes_paths : List (List String)
volumes_paths = ("spec" ∷ "volumes" ∷ []) ∷ ("spec" ∷ "template" ∷ "spec" ∷ "volumes" ∷ []) ∷ []

module _ (api : Api) where
  unfoldable pub locate_from : Option Schema → List (List String) → Located
  locate_from schema [] = (false, [])
  locate_from schema (path ∷ paths) =
      field_at (api.lookup_schema_for_field schema path) path (locate_from schema paths)

  unfoldable pub locate_field : Document → Resource → List (List String) → Located
  locate_field document res paths =
      let (group, version) = api.group_version res.object.api_version in
      locate_from (api.lookup_resource document group version res.object.kind) paths

  unfoldable pub locate_containers_field : Document → Resource → Located
  locate_containers_field document res = locate_field document res containers_paths

  unfoldable pub locate_volumes_field : Document → Resource → Located
  locate_volumes_field document res = locate_field document res volumes_paths
