-- ===== src/Hack/UiSchema/Examples.antt =====
-- A run of the script on a repository with one Terraform addon.
use kubevela_catalog.Base.{
  List, [], ◌∷◌, none, true, false, ◌≡◌, refl, str_eq, if◌then◌else◌, has_prefix,
}
use kubevela_catalog.Base.Path.{after_prefix, dir, join, clean, split, join_with_slashes}
use kubevela_catalog.Base.Exec.{ok, stop, pure, return, ask, or_else, on_error, call, ◌>>=◌}
use kubevela_catalog.Hack.Sync.{DirEntry}
use kubevela_catalog.Hack.UiSchema.{
  Api, getwd, read_dir, stat, mkdir_all, write_file, schema_temple, main,
  list_terraform_schema_files, list_providers, schema_files, schema_file, write_schemas,
  make_directory,
}

abbrev entries : List DirEntry
entries =
    record { name = "terraform-aws"; is_dir = true }
    ∷ record { name = "terraform.md"; is_dir = false }
    ∷ record { name = "velaux"; is_dir = true }
    ∷ []

abbrev definitions : List DirEntry
definitions =
    record { name = "terraform-s3.yaml"; is_dir = false }
    ∷ record { name = "README.md"; is_dir = false }
    ∷ []

abbrev api : Api
api = record {
  getwd = λ h. ok "/repo";
  read_dir = λ path h. if str_eq path "/repo/addons" then ok entries else ok definitions;
  is_missing = λ path h. true;
  mkdir_all = λ path h. none;
  write_file = λ file text h. none;
}

main_runs : main api [] ≡ (
  stop 0,
  write_file "/repo/addons/terraform-aws/schemas/component-uischema-s3.yaml" schema_temple
      ∷ mkdir_all "/repo/addons/terraform-aws/schemas"
      ∷ stat "/repo/addons/terraform-aws/schemas"
      ∷ read_dir "/repo/addons/terraform-aws/definitions"
      ∷ read_dir "/repo/addons"
      ∷ getwd
      ∷ [],
)
unfolding main list_terraform_schema_files list_providers schema_files schema_file write_schemas
    make_directory after_prefix dir join clean split join_with_slashes has_prefix pure return ask
    or_else on_error call ◌>>=◌
main_runs = refl
