-- ===== src/Hack/Sync/Index.antt =====
-- What the index lists.
use mathlib.Core.List.{Memᴰ}
use kubevela_catalog.Base.{
  String, List, [], ◌∷◌, Bool, true, false, not, ◌≡◌, refl, All, str_eq, ◌<>◌, if◌then◌else◌,
}
use kubevela_catalog.Base.Dict.{put}
use kubevela_catalog.Base.Path.{join}
use kubevela_catalog.Base.Exec.{continue, Ctl, next, stop, panic, Result, ok, err, ◌>>=◌}
use kubevela_catalog.K8s.{Error}
use kubevela_catalog.Hack.Sync.{
  Metadata, ChartVersion, Entries, DirEntry, Call, read_file, tar, Api, chart_version, tar_command,
  time, add_metadata, add_local,
}

module _ (api : Api) (dir repo_url : String) where
  -- The entry was made of metadata that was read from the directory of an addon: it is named as they
  -- say and lists one version, with their name, version and texts, to be fetched as the package of
  -- that name and version; and the command was run that packs that directory into it.
  pub record IsPacked (h : List Call) (e : String × List ChartVersion) : Type 0 where
    pub addon_dir : String
    pub before : List Call
    pub text : String
    pub metadata : Metadata
    pub version : ChartVersion
    pub answered : api.read_file (join (dir ∷ addon_dir ∷ "metadata.yaml" ∷ [])) before ≡ ok text
    pub decoded : api.unmarshal_metadata text ≡ ok metadata
    pub named : e.0 ≡ metadata.name
    pub listed : e.1 ≡ version ∷ []
    pub same_name : version.name ≡ metadata.name
    pub same_version : version.version ≡ metadata.version
    pub same_description : version.description ≡ metadata.description
    pub same_home : version.home ≡ metadata.url
    pub same_keywords : version.keywords ≡ metadata.tags
    pub fetched_from :
        version.urls ≡ (repo_url <> "/" <> metadata.name <> "-" <> metadata.version <> ".tgz") ∷ []
    pub packed :
        Memᴰ
          (tar (
            "tar"
            ∷ "zcf"
            ∷ (metadata.name <> "-" <> metadata.version <> ".tgz")
            ∷ (dir <> addon_dir <> "/")
            ∷ []))
          h

  abbrev pub AllPacked : List Call → Entries → Type 0
  AllPacked h = All (IsPacked h)

  -- if a value is yielded
  abbrev pub YieldsPacked : Ctl Unit Entries × List Call → Type 0
  YieldsPacked (next entries, h) = AllPacked h entries
  YieldsPacked (stop u, h) = Unit
  YieldsPacked (panic, h) = Unit

  later-IsPacked :
      (c : Call) (h : List Call) (e : String × List ChartVersion)
      → IsPacked h e
      → IsPacked (c ∷ h) e
  later-IsPacked c h e p = record {
    addon_dir = p.addon_dir;
    before = p.before;
    text = p.text;
    metadata = p.metadata;
    version = p.version;
    answered = p.answered;
    decoded = p.decoded;
    named = p.named;
    listed = p.listed;
    same_name = p.same_name;
    same_version = p.same_version;
    same_description = p.same_description;
    same_home = p.same_home;
    same_keywords = p.same_keywords;
    fetched_from = p.fetched_from;
    packed = Memᴰ.tail p.packed;
  }

  later-AllPacked :
      (c : Call) (h : List Call) (entries : Entries)
      → AllPacked h entries
      → AllPacked (c ∷ h) entries
  later-AllPacked c h [] packed = tt
  later-AllPacked c h (e ∷ entries) (p, packed) =
      (later-IsPacked c h e p, later-AllPacked c h entries packed)

  if-All :
      {A : Type 0} (P : A → Type 0) (b : Bool) (xs ys : List A)
      → All P xs
      → All P ys
      → All P (if b then xs else ys)
  if-All P true xs ys p q = p
  if-All P false xs ys p q = q

  put-AllPacked :
      (k : String) (v : List ChartVersion) (h : List Call) (entries : Entries)
      → IsPacked h (k, v)
      → AllPacked h entries
      → AllPacked h (put k v entries)
  unfolding put
  put-AllPacked k v h [] p packed = (p, tt)
  put-AllPacked k v h ((j, w) ∷ entries) p (q, packed) =
      if-All (IsPacked h) (str_eq j k) ((k, v) ∷ entries) ((j, w) ∷ put k v entries) (p, packed)
        (q, put-AllPacked k v h entries p packed)

  -- the metadata, decoded or not
  add_decoded-Yields :
      (name : String) (entries : Entries) (text : String) (r : Result Error Metadata)
      (before h : List Call)
      → api.read_file (join (dir ∷ name ∷ "metadata.yaml" ∷ [])) before ≡ ok text
      → api.unmarshal_metadata text ≡ r
      → AllPacked h entries
      → YieldsPacked (add_metadata api dir repo_url name entries (ok text) h)
  unfolding add_metadata time chart_version ◌>>=◌
  add_decoded-Yields name entries text (err e) before h answered decoded packed = rw decoded tt
  add_decoded-Yields name entries text (ok m) before h answered decoded packed =
      let command : Call = tar (tar_command dir m name) in
      rw decoded (
        put-AllPacked m.name (chart_version repo_url (api.now h) m ∷ []) (command ∷ h) entries
          (record {
            addon_dir = name;
            before = before;
            text = text;
            metadata = m;
            version = chart_version repo_url (api.now h) m;
            answered = answered;
            decoded = decoded;
            named = refl;
            listed = refl;
            same_name = refl;
            same_version = refl;
            same_description = refl;
            same_home = refl;
            same_keywords = refl;
            fetched_from = refl;
            packed = Memᴰ.head refl;
          })
          (later-AllPacked command h entries packed))

  add_metadata-Yields :
      (name : String) (entries : Entries) (r : Result Error String) (before h : List Call)
      → api.read_file (join (dir ∷ name ∷ "metadata.yaml" ∷ [])) before ≡ r
      → AllPacked h entries
      → YieldsPacked (add_metadata api dir repo_url name entries r h)
  unfolding add_metadata ◌>>=◌
  add_metadata-Yields name entries (err e) before h answered packed = packed
  add_metadata-Yields name entries (ok text) before h answered packed =
      add_decoded-Yields name entries text (api.unmarshal_metadata text) before h answered refl
        packed

  continue-Yields :
      (p : Ctl Unit Entries × List Call) (rest : List DirEntry)
      → YieldsPacked p
      → ((entries : Entries) (h : List Call)
          → AllPacked h entries
          → YieldsPacked (add_local api dir repo_url entries rest h))
      → YieldsPacked (continue p.0 (λ more. add_local api dir repo_url more rest) p.1)
  continue-Yields (next entries, h) rest packed k = k entries h packed
  continue-Yields (stop u, h) rest packed k = tt
  continue-Yields (panic, h) rest packed k = tt

  if-Yields :
      (b : Bool) (m n : List Call → Ctl Unit Entries × List Call) (h : List Call)
      → YieldsPacked (m h)
      → YieldsPacked (n h)
      → YieldsPacked ((if b then m else n) h)
  if-Yields true m n h p q = p
  if-Yields false m n h p q = q

  -- Every entry that the loop over the directories yields was made of metadata that the server gave
  -- and that were decoded: it is named as they say and lists one version, with their name, version,
  -- description, tags and home, whose address is that of the package of that name and version; and
  -- the command that packs the addon's directory into that package was run. So is every entry if
  -- those that the loop starts with are.
  pub add_local-Yields :
      (infos : List DirEntry) (entries : Entries) (h : List Call)
      → AllPacked h entries
      → YieldsPacked (add_local api dir repo_url entries infos h)
  unfolding add_local ◌>>=◌
  add_local-Yields [] entries h packed = packed
  add_local-Yields (info ∷ rest) entries h packed =
      let file = join (dir ∷ info.name ∷ "metadata.yaml" ∷ []) in
      let h1 : List Call = read_file file ∷ h in
      let text = api.read_file file h in
      if-Yields (not info.is_dir) _ _ h (add_local-Yields rest entries h packed) (
        continue-Yields (add_metadata api dir repo_url info.name entries text h1) rest
          (add_metadata-Yields info.name entries text h h1 refl
            (later-AllPacked (read_file file) h entries packed))
          (λ more h2 p. add_local-Yields rest more h2 p))
