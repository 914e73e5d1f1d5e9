-- ===== src/Hack/Sync.antt =====
-- The index of the addons' packages (hack/addons/syn_addon_package.go).
pub mod Index
use kubevela_catalog.Base.{
  ℕ, String, List, [], ◌∷◌, ◌++◌, Option, none, some, Bool, true, false, not, str_eq, ◌<>◌, ◌==◌,
  if◌then◌else◌,
}
use kubevela_catalog.Base.Dict.{Dict, put}
use kubevela_catalog.Base.Path.{base, join}
use kubevela_catalog.Base.Exec.{
  next, Exec, Func, Result, ok, err, pure, return, ask, deref, or_else, on_error, call, ◌>>=◌, ◌>>◌,
}
use kubevela_catalog.K8s.{Error, new_error}

pub record SystemRequirements : Type 0 where
  pub vela : String
  pub kubernetes : String

-- the fields of the metadata that the script reads
pub record Metadata : Type 0 where
  pub name : String
  pub version : String
  pub description : String
  pub icon : String
  pub url : String
  pub tags : List String
  pub system : Option SystemRequirements

-- repo.ChartVersion, as far as the script sets it
pub record ChartVersion : Type 0 where
  pub name : String
  pub version : String
  pub icon : String
  pub keywords : List String
  pub description : String
  pub home : String
  pub annotations : Dict String
  pub created : String
  pub urls : List String

abbrev pub Entries : Type 0
Entries = Dict (List ChartVersion)

pub record DirEntry : Type 0 where
  pub name : String
  pub is_dir : Bool

-- an http.Response: its code, and the text of its body or the error of reading it
pub record Response : Type 0 where
  pub status_code : ℕ
  pub body : Result Error String

pub data Call : Type 0 where
  read_dir : String → Call
  read_file : String → Call
  get : String → Call
  create : String → String → Call
  tar : List String → Call
  write_index : String → String → Call

pub record Api : Type 0 where
  pub read_dir : String → List Call → Result Error (List DirEntry)
  pub read_file : String → List Call → Result Error String
  pub get : String → List Call → Result Error Response
  pub create : String → String → List Call → Option Error
  pub tar : List String → List Call → Option Error
  pub now : List Call → String
  -- yaml.UnmarshalStrict into the index, which is what it could read of it
  pub unmarshal_index : String → Entries
  pub unmarshal_metadata : String → Result Error Metadata
  -- semver.NewVersion succeeds
  pub is_semver : String → Bool
  -- repo.IndexFile's Merge, and yaml.Marshal
  pub merge : Entries → Entries → Entries
  pub marshal : Entries → Result Error String

abbrev pub first : List String → Option String
first [] = none
first (u ∷ us) = some u

-- an annotation, unless it is empty
unfoldable pub annotate : String → String → Dict String → Dict String
annotate k v m = if not (str_eq v "") then put k v m else m

unfoldable pub annotations_of : Option SystemRequirements → Dict String
unfolding annotate
annotations_of none = []
annotations_of (some s) =
    annotate "system.vela" s.vela (annotate "system.kubernetes" s.kubernetes [])

unfoldable pub chart_version : String → String → Metadata → ChartVersion
chart_version repo_url created m = record {
  name = m.name;
  version = m.version;
  icon = m.icon;
  keywords = m.tags;
  description = m.description;
  home = m.url;
  annotations = annotations_of m.system;
  created = created;
  urls = (repo_url <> "/" <> m.name <> "-" <> m.version <> ".tgz") ∷ [];
}

abbrev pub tar_command : String → Metadata → String → List String
tar_command dir m addon_dir =
    "tar" ∷ "zcf" ∷ (m.name <> "-" <> m.version <> ".tgz") ∷ (dir <> addon_dir <> "/") ∷ []

-- time.Now
unfoldable pub time : (List Call → String) → Exec Call Unit String
time now h = (next (now h), h)

module _ (api : Api) where
  unfoldable pub save_addon_to_local : String → String → Func Call (Option Error)
  save_addon_to_local dir url = do
    answer ← ask (get url) (api.get url)
    resp ← or_else answer (λ e. return (some e))
    if not (resp.status_code == 200) then return (some (new_error "download chart failed")) else (do
      body ← or_else resp.body (λ e. return (some e))
      written ← ask (create (dir <> base url) body) (api.create (dir <> base url) body)
      return written)

  -- The versions that are kept. One that could not be saved is kept too.
  unfoldable pub save_versions : String → List ChartVersion → Exec Call Unit (List ChartVersion)
  save_versions dir [] = pure []
  save_versions dir (v ∷ vs) = if not (api.is_semver v.version) then save_versions dir vs else (do
    url ← deref (first v.urls)
    failed ← call (save_addon_to_local dir url)
    rest ← save_versions dir vs
    pure (v ∷ rest))

  unfoldable pub save_entries : String → Entries → Exec Call Unit Entries
  save_entries dir [] = pure []
  save_entries dir ((chart, versions) ∷ entries) = do
    kept ← save_versions dir versions
    rest ← save_entries dir entries
    pure ((chart, kept) ∷ rest)

  -- the index of the repository as it is, which is empty if there is none
  unfoldable pub origin_of : Response → Exec Call Unit Entries
  origin_of resp =
      if not (resp.status_code == 404)
      then (do
        text ← or_else resp.body (λ e. return tt)
        if not (str_eq text "") then pure (api.unmarshal_index text) else pure [])
      else pure []

  -- one directory with metadata
  unfoldable pub add_metadata :
      String → String → String → Entries → Result Error String → Exec Call Unit Entries
  add_metadata dir repo_url name entries (err e) = pure entries
  add_metadata dir repo_url name entries (ok text) = do
    m ← or_else (api.unmarshal_metadata text) (λ e. return tt)
    created ← time api.now
    let command = tar_command dir m name
    failed ← ask (tar command) (api.tar command)
    pure (put m.name (chart_version repo_url created m ∷ []) entries)

  -- the loop over the directory
  unfoldable pub add_local : String → String → Entries → List DirEntry → Exec Call Unit Entries
  add_local dir repo_url entries [] = pure entries
  add_local dir repo_url entries (info ∷ rest) =
      if not info.is_dir then add_local dir repo_url entries rest else (do
        let file = join (dir ∷ info.name ∷ "metadata.yaml" ∷ [])
        text ← ask (read_file file) (api.read_file file)
        more ← add_metadata dir repo_url info.name entries text
        add_local dir repo_url more rest)

  unfoldable pub write_out : String → Entries → Entries → Func Call Unit
  write_out dir entries origin = do
    out ← or_else (api.marshal (api.merge entries origin)) (λ e. return tt)
    written ← ask (write_index (dir <> "/index.yaml") out) (λ h. tt)
    return tt

  unfoldable pub sync : String → String → List DirEntry → Func Call Unit
  sync dir repo_url infos = do
    answer ← ask (get (repo_url <> "/index.yaml")) (api.get (repo_url <> "/index.yaml"))
    resp ← or_else answer (λ e. return tt)
    found ← origin_of resp
    origin ← save_entries dir found
    entries ← add_local dir repo_url [] infos
    write_out dir entries origin

  unfoldable pub main : String → String → Func Call Unit
  main dir repo_url = do
    answer ← ask (read_dir dir) (api.read_dir dir)
    infos ← or_else answer (λ e. return tt)
    if str_eq repo_url "" then return tt else sync dir repo_url infos
