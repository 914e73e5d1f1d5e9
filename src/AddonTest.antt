-- ===== src/AddonTest.antt =====
-- The driver of the addons' tests (test/e2e-test/addon-test/main.go).
pub mod Slice
pub mod Dependency
pub mod Affected
pub mod Enable
pub mod Version
pub mod Main
mod Examples
use kubevela_catalog.Base.{String, List, Option, Bool}
use kubevela_catalog.Base.Exec.{Result}
use kubevela_catalog.K8s.{Error}

-- AddonMeta, with the names of the dependencies
pub record AddonMeta : Type 0 where
  pub name : String
  pub dependencies : List String

-- an os.DirEntry
pub record DirEntry : Type 0 where
  pub name : String
  pub is_dir : Bool

-- The files of the repository, and regexp's FindString.
pub record Repository : Type 0 where
  -- os.ReadDir of "./addons"
  pub dir : Result Error (List DirEntry)
  -- readAddonMeta: without a file, and on a file that cannot be read, the caller panics
  pub read_addon_meta : String → Option AddonMeta
  pub find_string : String → String → String
