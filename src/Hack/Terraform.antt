-- ===== src/Hack/Terraform.antt =====
-- The addon of a Terraform provider from its scaffold (hack/addons/terraform/gen.go).
use kubevela_catalog.Base.{
  String, List, [], ◌∷◌, Option, none, some, Bool, not, ◌<>◌, str_eq, if◌then◌else◌,
}
use kubevela_catalog.Base.Path.{join}
use kubevela_catalog.Base.Exec.{
  Exec, Func, Result, pure, return, fault, ask, deref, or_else, on_error, call, ◌>>=◌, ◌>>◌,
}
use kubevela_catalog.K8s.{Error, new_error}

pub record Property : Type 0 where
  pub name : String
  pub secret_key : String
  pub description : String
  pub is_region : Bool

pub record Provider : Type 0 where
  pub name : String
  pub cloud_name : String
  pub properties : List Property
  pub region : String

pub record FileInfo : Type 0 where
  pub name : String
  pub is_dir : Bool

-- a parsed template
pub record Template : Type 0 where
  pub text : String

pub data Call : Type 0 where
  stat remove_all mkdir_all read_dir mkdir read_file : String → Call
  write_file : String → String → Call

pub record Api : Type 0 where
  -- os.Stat: whether there is no such file
  pub is_missing : String → List Call → Bool
  pub mkdir_all : String → List Call → Option Error
  pub mkdir : String → List Call → Option Error
  pub read_dir : String → List Call → Result Error (List FileInfo)
  pub read_file : String → List Call → Result Error String
  pub write_file : String → String → List Call → Option Error
  -- Parse gives a nil template beside an error, which the script does not look at
  pub parse : String → Option Template
  pub execute : Template → Provider → Result Error String
  -- the metadata of the scaffold
  pub unmarshal_provider : String → Result Error Provider

abbrev pub addons_path : String
addons_path = "addons/"

abbrev pub terraform_provider_scaffold : String
terraform_provider_scaffold = "./hack/addons/terraform/terraform-provider-scaffold"

-- the name of a rendered file
unfoldable pub rendered_name : Provider → String → String
rendered_name provider name =
    if not (str_eq name "parameter.cue") then provider.name <> "-" <> name else name

module _ (api : Api) (provider : Provider) where
  -- Executing a nil template panics.
  unfoldable pub render : String → String → String → Func Call (Option Error)
  render text path name = do
    let target = join (path ∷ name ∷ [])
    t ← deref (api.parse text)
    rendered ← or_else (api.execute t provider) (λ e. return (some e))
    written ← ask (write_file target rendered) (api.write_file target rendered)
    return written

  -- a file of the scaffold: from one directory into another, under a name
  unfoldable pub render_file : String → String → String → String → Exec Call (Option Error) Unit
  render_file source_dir name target_dir target_name = do
    let file = join (source_dir ∷ name ∷ [])
    found ← ask (read_file file) (api.read_file file)
    text ← or_else found (λ e. return (some e))
    failed ← call (render text target_dir target_name)
    on_error failed (λ e. return (some e))

  unfoldable pub render_files : String → String → List FileInfo → Exec Call (Option Error) Unit
  render_files source_dir target_dir [] = pure tt
  render_files source_dir target_dir (t ∷ ts) = do
    render_file source_dir t.name target_dir (rendered_name provider t.name)
    render_files source_dir target_dir ts

  unfoldable pub render_dir : String → FileInfo → Exec Call (Option Error) Unit
  render_dir target info = do
    let sub_path = join (target ∷ info.name ∷ [])
    made ← ask (mkdir sub_path) (api.mkdir sub_path)
    on_error made (λ e. return (some e))
    let source = join (terraform_provider_scaffold ∷ info.name ∷ [])
    found ← ask (read_dir source) (api.read_dir source)
    files ← or_else found (λ e. return (some e))
    render_files source sub_path files

  unfoldable pub render_all : String → List FileInfo → Func Call (Option Error)
  render_all target [] = return none
  render_all target (info ∷ infos) = do
    if info.is_dir
        then render_dir target info
        else render_file terraform_provider_scaffold info.name target info.name
    render_all target infos

  -- an addon that is there already is removed first
  unfoldable pub remove_old : String → Exec Call (Option Error) Unit
  remove_old target = do
    missing ← ask (stat target) (api.is_missing target)
    if not missing then (ask (remove_all target) (λ h. tt)) else pure tt

  unfoldable pub gen_addon : Func Call (Option Error)
  gen_addon =
      if str_eq provider.name "" then return (some (new_error "provider name is empty")) else (do
        let target = join (addons_path ∷ ("terraform-" <> provider.name) ∷ [])
        remove_old target
        made ← ask (mkdir_all target) (api.mkdir_all target)
        on_error made (λ e. return (some e))
        found ←
            ask (read_dir terraform_provider_scaffold) (api.read_dir terraform_provider_scaffold)
        infos ← or_else found (λ e. fault)
        render_all target infos)

abbrev pub metadata_file : String
metadata_file = "hack/addons/terraform/terraform-provider-scaffold/metadata.yaml"

-- every error of the main function is a panic
unfoldable pub main : Api → Func Call Unit
main api = do
  found ← ask (read_file metadata_file) (api.read_file metadata_file)
  config ← or_else found (λ e. fault)
  provider ← or_else (api.unmarshal_provider config) (λ e. fault)
  failed ← call (gen_addon api provider)
  on_error failed (λ e. fault)
  return tt
