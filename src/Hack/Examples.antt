-- ===== src/Hack/Examples.antt =====
-- The theorem on the index at a concrete directory, and a run of the Terraform script.
use kubevela_catalog.Base.{List, [], ◌∷◌, none, true, false}
use kubevela_catalog.Base.Exec.{ok, err}
use kubevela_catalog.K8s.{server}
use kubevela_catalog.Hack.Sync.{Metadata, DirEntry, Api, add_local}
use kubevela_catalog.Hack.Sync.Index.{YieldsPacked, add_local-Yields}

abbrev velaux : Metadata
velaux = record {
  name = "velaux";
  version = "1.0.0";
  description = "the console";
  icon = "";
  url = "";
  tags = [];
  system = none;
}

abbrev infos : List DirEntry
infos =
    record { name = "velaux"; is_dir = true } ∷ record { name = "README.md"; is_dir = false } ∷ []

abbrev api : Api
api = record {
  read_dir = λ dir h. ok infos;
  read_file = λ file h. ok "name: velaux";
  get = λ url h. err (server 500 "unavailable");
  create = λ file text h. none;
  tar = λ command h. none;
  now = λ h. "now";
  unmarshal_index = λ text. [];
  unmarshal_metadata = λ text. ok velaux;
  is_semver = λ v. true;
  merge = λ entries origin. entries;
  marshal = λ entries. ok "index";
}

add_local-Yields_example :
    YieldsPacked api "addons/" "https://addons"
      (add_local api "addons/" "https://addons" [] infos [])
add_local-Yields_example = add_local-Yields api "addons/" "https://addons" infos [] [] tt
