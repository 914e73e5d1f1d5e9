-- ===== src/Hack/UiSchema.antt =====
-- The UI schemas of Terraform definitions (hack/addons/gen-addon-ui-schema.go).
mod Examples
use kubevela_catalog.Base.{
  ℕ, String, List, [], ◌∷◌, ◌++◌, Option, Bool, not, ◌&&◌, ◌<>◌, has_prefix, if◌then◌else◌,
}
use kubevela_catalog.Base.Path.{after_prefix, dir, join}
use kubevela_catalog.Base.Exec.{
  Exec, Func, Result, ok, err, pure, return, ask, or_else, on_error, call, ◌>>=◌, ◌>>◌,
}
use kubevela_catalog.K8s.{Error}
use kubevela_catalog.Hack.Sync.{DirEntry}

abbrev pub schema_temple : String
schema_temple =
    "- jsonKey: writeConnectionSecretToRef\n  disable: true\n- jsonKey: providerRef\n  disable: true\n- jsonKey: region\n  disable: true\n\n"

pub data Call : Type 0 where
  getwd : Call
  read_dir : String → Call
  stat : String → Call
  mkdir_all : String → Call
  write_file : String → String → Call

pub record Api : Type 0 where
  pub getwd : List Call → Result Error String
  pub read_dir : String → List Call → Result Error (List DirEntry)
  -- os.Stat fails with an error that os.IsNotExist accepts
  pub is_missing : String → List Call → Bool
  pub mkdir_all : String → List Call → Option Error
  pub write_file : String → String → List Call → Option Error

unfoldable pub schema_file : String → String → String
schema_file provider_path definition = join (
    provider_path
    ∷ "schemas"
    ∷ ("component-uischema-" <> after_prefix definition "terraform-")
    ∷ [])

unfoldable pub schema_files : String → List DirEntry → List String
unfolding schema_file
schema_files provider_path [] = []
schema_files provider_path (d ∷ ds) =
    let rest = schema_files provider_path ds in
    if has_prefix d.name "terraform-" then schema_file provider_path d.name ∷ rest else rest

module _ (api : Api) where
  -- the files of the loop, after those that it has found
  unfoldable pub list_providers :
      String → List String → List DirEntry → Func Call (Result Error (List String))
  list_providers addons files [] = return (ok files)
  list_providers addons files (info ∷ infos) =
      if info.is_dir && has_prefix info.name "terraform-"
      then (do
        let provider_path = join (addons ∷ info.name ∷ [])
        let path = join (provider_path ∷ "definitions" ∷ [])
        answer ← ask (read_dir path) (api.read_dir path)
        definitions ← or_else answer (λ e. return (err e))
        list_providers addons (files ++ schema_files provider_path definitions) infos)
      else list_providers addons files infos

  unfoldable pub list_terraform_schema_files : Func Call (Result Error (List String))
  list_terraform_schema_files = do
    here ← ask getwd api.getwd
    pwd ← or_else here (λ e. return (err e))
    let addons = join (pwd ∷ "addons" ∷ [])
    answer ← ask (read_dir addons) (api.read_dir addons)
    infos ← or_else answer (λ e. return (err e))
    list_providers addons [] infos

  -- The answer of the functions below is the code of an early exit.
  unfoldable pub make_directory : String → Exec Call ℕ Unit
  make_directory path = do
    missing ← ask (stat path) (api.is_missing path)
    if not missing then pure tt else (do
      failed ← ask (mkdir_all path) (api.mkdir_all path)
      on_error failed (λ e. return 1))

  unfoldable pub write_schemas : List String → Func Call ℕ
  write_schemas [] = return 0
  write_schemas (schema ∷ schemas) = do
    make_directory (dir schema)
    failed ← ask (write_file schema schema_temple) (api.write_file schema schema_temple)
    on_error failed (λ e. return 1)
    write_schemas schemas

  unfoldable pub main : Func Call ℕ
  main = do
    listed ← call list_terraform_schema_files
    schemas ← or_else listed (λ e. return 1)
    write_schemas schemas
