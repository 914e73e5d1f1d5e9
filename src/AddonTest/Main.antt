-- ===== src/AddonTest/Main.antt =====
-- The main function of test/e2e-test/addon-test/main.go.
use kubevela_catalog.Base.{ℕ, String, List, [], ◌∷◌, Option, Bool, false, if◌then◌else◌}
use kubevela_catalog.Base.Exec.{
  Exec, Func, Result, ok, err, return, fault, on_error, call, ◌>>=◌, ◌>>◌,
}
use kubevela_catalog.K8s.{Error}
use kubevela_catalog.AddonTest.{Repository}
use kubevela_catalog.AddonTest.Dependency.{Walk, done, panics, out_of_fuel}
use kubevela_catalog.AddonTest.Affected.{determine_need_enable_addon}
use kubevela_catalog.AddonTest.Version.{check_upgrade_addon_version}
use kubevela_catalog.AddonTest.Enable.{
  Call, Api, read_pending_addons, enable_addons_by_order, loop_check,
}

-- the exit code of the process: 0, or 1 where the code calls os.Exit(1)
pub data Exit : Type 0 where
  success failure : Exit

-- a walk that needs more steps than it is given does not end, which is no panic
pub data Ending : Type 0 where
  exits : Exit → Ending
  does_not_end : Ending

module _ (repo : Repository) (api : Api) where
  -- `if err != nil { …; os.Exit(1) }`
  unfoldable pub exit_on : Option Error → Exec Call Ending Unit
  exit_on e = on_error e (λ e. return (exits failure))

  unfoldable pub enable_changed : List String → Walk → Func Call Ending
  enable_changed pending panics = fault
  enable_changed pending out_of_fuel = return does_not_end
  enable_changed pending (done []) = return (exits success)
  enable_changed pending (done (a ∷ rest)) = do
    (failed, error) ← call (enable_addons_by_order api pending "addons/" (a ∷ rest) false)
    exit_on error
    return (exits success)

  unfoldable pub check_loop : List String → Func Call Ending
  check_loop pending = do
    error ← call (loop_check api pending)
    exit_on error
    return (exits success)

  unfoldable pub check_changed : ℕ → List String → List String → Func Call Ending
  check_changed fuel pending changed_file = do
    exit_on (check_upgrade_addon_version changed_file)
    enable_changed pending (determine_need_enable_addon repo fuel changed_file)

  -- the lines of the file PENDING or an error, whether LOOPCHECK is "true", and the arguments
  unfoldable pub main : ℕ → Result Error (List String) → Bool → List String → Func Call Ending
  main fuel (err e) looping changed_file = return (exits failure)
  main fuel (ok lines) looping changed_file =
      let pending = read_pending_addons lines in
      if looping then check_loop pending else check_changed fuel pending changed_file
