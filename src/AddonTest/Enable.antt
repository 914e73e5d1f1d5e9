-- ===== src/AddonTest/Enable.antt =====
-- The enabling of addons one by one (readPendingAddons, enableAddonsByOrder, enableOneAddon,
-- disableOneAddon, testDefinitionsInAddons and loopCheck of test/e2e-test/addon-test/main.go).
pub mod Order
use kubevela_catalog.Base.{
  String, List, [], ◌∷◌, ◌++◌, Option, none, some, Bool, true, false, ◌||◌, ◌<>◌, str_eq, contains,
  has_prefix, if◌then◌else◌,
}
use kubevela_catalog.Base.Path.{base}
use kubevela_catalog.Base.Exec.{
  Exec, Func, Result, ok, err, pure, return, ask, or_else, on_error, call, ◌>>=◌, ◌>>◌,
}
use kubevela_catalog.K8s.{Error, new_error, wrapped}
use kubevela_catalog.AddonTest.Slice.{has}

-- Of a command: it could not be started, it failed, or it succeeded.
pub data Finished : Type 0 where
  not_started unsuccessful : Error → Finished
  succeeded : Finished

-- what os.Stat says of a file
pub data Stat : Type 0 where
  exists is_missing : Stat
  stat_error : Error → Stat

pub data Call : Type 0 where
  run : List String → Call
  stat : String → Call
  fetch_index : String → Call
  write_failed : String → List String → Call

pub record Api : Type 0 where
  pub run : List String → List Call → Finished
  pub stat : String → List Call → Stat
  -- calculateAddonsNameFromRepoUrl
  pub fetch_index : String → List Call → Result Error (List String)

-- The lines of the file PENDING that are neither empty nor a comment.
unfoldable pub read_pending_addons : List String → List String
read_pending_addons [] = []
read_pending_addons (t ∷ ts) =
    let rest = read_pending_addons ts in if str_eq t "" || has_prefix t "#" then rest else t ∷ rest

unfoldable pub enable_command : String → List String
enable_command dir =
    if contains dir "fluxcd"
    then "vela" ∷ "addon" ∷ "enable" ∷ dir ∷ "onlyHelmComponents=true" ∷ []
    else if contains dir "loki"
    then "vela" ∷ "addon" ∷ "enable" ∷ dir ∷ "serviceType=NodePort" ∷ []
    else "vela" ∷ "addon" ∷ "enable" ∷ dir ∷ []

abbrev pub disable_command : String → List String
disable_command addon = "vela" ∷ "addon" ∷ "disable" ∷ addon ∷ []

abbrev pub def_test_dir : String
def_test_dir = "test/e2e-test/addon-test/definition-test/testdata/"

abbrev pub error_of : Finished → Option Error
error_of (not_started e) = some e
error_of (unsuccessful e) = some e
error_of succeeded = none

module _ (api : Api) where
  unfoldable pub disable_one_addon : String → Func Call (Option Error)
  disable_one_addon addon = do
    done ← ask (run (disable_command addon)) (api.run (disable_command addon))
    return (error_of done)

  -- checkAppStatus, whose outcome is only printed
  unfoldable pub check_app_status : String → Exec Call (Option Error) Unit
  check_app_status dir = do
    let command = "vela" ∷ "status" ∷ "-n" ∷ "vela-system" ∷ ("addon-" <> base dir) ∷ []
    done ← ask (run command) (api.run command)
    pure tt

  -- A test that could not be started is waited for all the same, which is an error too.
  unfoldable pub run_tests : Stat → Func Call (Option Error)
  run_tests is_missing = return none
  run_tests (stat_error e) = return (some e)
  run_tests exists = do
    let command =
        "go" ∷ "test" ∷ "-v" ∷ "test/e2e-test/addon-test/definition-test/suit_test.go" ∷ []
    done ← ask (run command) (api.run command)
    return (error_of done)

  unfoldable pub test_definitions_in_addons : String → Func Call (Option Error)
  test_definitions_in_addons dir = do
    let file = def_test_dir <> base dir
    there ← ask (stat file) (api.stat file)
    run_tests there

  -- after the command that enables the addon
  unfoldable pub after_enable : String → Finished → Func Call (Option Error)
  after_enable dir (not_started e) = return (some e)
  after_enable dir (unsuccessful e) = do check_app_status dir; return (some e)
  after_enable dir succeeded = do
    tested ← call (test_definitions_in_addons dir)
    on_error tested (λ e. return (some (wrapped e ("failed tp test definition of addon " <> dir))))
    return none

  unfoldable pub enable_one_addon : String → Func Call (Option Error)
  enable_one_addon dir = do
    done ← ask (run (enable_command dir)) (api.run (enable_command dir))
    after_enable dir done

  -- the failed addons, and an error, one of which is nil
  unfoldable pub after_failure :
      String → Bool → List String → Error → Exec Call (List String × Option Error) (List String)
  after_failure addon true failed e = pure (failed ++ addon ∷ [])
  after_failure addon false failed e = do
    disabled ← call (disable_one_addon addon)
    on_error disabled (λ d. return ([], some d))
    return ([], some e)

  -- `if err := enableOneAddon(…); err != nil { … }`
  unfoldable pub after_addon :
      String
      → Bool
      → List String
      → Option Error
      → Exec Call (List String × Option Error) (List String)
  after_addon addon loop_check failed none = pure failed
  after_addon addon loop_check failed (some e) = after_failure addon loop_check failed e

  -- one round of the loop; the path of an addon is a prefix and its name
  unfoldable pub enable_next :
      List String
      → String
      → Bool
      → String
      → List String
      → Exec Call (List String × Option Error) (List String)
  enable_next pending prefix loop_check addon failed =
      if has addon pending then pure failed else (do
        enabled ← call (enable_one_addon (prefix <> addon))
        after_addon addon loop_check failed enabled)

  unfoldable pub enable_addons :
      List String
      → String
      → Bool
      → List String
      → List String
      → Func Call (List String × Option Error)
  enable_addons pending prefix loop_check failed [] = return (failed, none)
  enable_addons pending prefix loop_check failed (addon ∷ rest) = do
    failed' ← enable_next pending prefix loop_check addon failed
    enable_addons pending prefix loop_check failed' rest

  unfoldable pub enable_addons_by_order :
      List String → String → List String → Bool → Func Call (List String × Option Error)
  enable_addons_by_order pending prefix changed loop_check =
      enable_addons pending prefix loop_check [] changed

  -- `if len(failedAddons) != 0 { … }`: whether there was a failure
  unfoldable pub note_failed : String → List String → Exec Call (Option Error) Bool
  note_failed file [] = pure false
  note_failed file (a ∷ rest) = do written ← ask (write_failed file (a ∷ rest)) (λ h. tt); pure true

  abbrev pub repo_url : String
  repo_url = "https://addons.kubevela.net"

  abbrev pub experimental_repo_url : String
  experimental_repo_url = "https://addons.kubevela.net/experimental"

  unfoldable pub loop_check : List String → Func Call (Option Error)
  loop_check pending = do
    index ← ask (fetch_index repo_url) (api.fetch_index repo_url)
    addons ← or_else index (λ e. return (some e))
    (failed, ignored) ← call (enable_addons_by_order pending "" addons true)
    first ← note_failed "/root/failed-addons" failed
    exp_index ← ask (fetch_index experimental_repo_url) (api.fetch_index experimental_repo_url)
    exp_addons ← or_else exp_index (λ e. return (some e))
    (exp_failed, exp_ignored) ← call (enable_addons_by_order pending "" exp_addons true)
    second ← note_failed "/root/failed-exp-addons" exp_failed
    if first || second then return (some (new_error "failed to loop check addons")) else return none
