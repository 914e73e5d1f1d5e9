-- ===== src/AddonTest/Enable/Order.antt =====
-- What the loop check reports.
use kubevela_catalog.Base.{
  String, List, [], ◌∷◌, ◌++◌, none, some, Bool, true, ◌≡◌, refl, ap, ◌∙◌, ◌<>◌, if◌then◌else◌,
  Bool-cases, inl, inr,
}
use mathlib.Core.List.{append-nil, append_assoc}
use kubevela_catalog.Base.Exec.{next, stop, ◌>>=◌}
use kubevela_catalog.K8s.{Error}
use kubevela_catalog.AddonTest.Slice.{has}
use kubevela_catalog.AddonTest.Enable.{
  unsuccessful, succeeded, is_missing, Call, run, Api, enable_command, after_enable, run_tests,
  test_definitions_in_addons, check_app_status, enable_one_addon, after_failure, after_addon,
  enable_next, enable_addons, enable_addons_by_order,
}

module _ (api : Api) (e : Error) (fails : String → Bool) where
  -- Each command that enables fails or succeeds whenever it is run, and there are no tests.
  pub record IsSteady : Type 0 where
    pub runs :
        (dir : String) (h : List Call)
        → api.run (enable_command dir) h ≡ (if fails dir then unsuccessful e else succeeded)
    pub untested : (file : String) (h : List Call) → api.stat file h ≡ is_missing

  enable_one_addon_lem :
      (dir : String) (h : List Call)
      → IsSteady
      → (enable_one_addon api dir h).0 ≡ stop (if fails dir then some e else none)
  unfolding enable_one_addon after_enable check_app_status test_definitions_in_addons run_tests
      ◌>>=◌
  enable_one_addon_lem dir h steady = elim (Bool-cases (fails dir)) [
    | inl bad ↦ rw (steady.runs dir h, bad) refl
    | inr good ↦
        rw (steady.runs dir h, good) (rw (steady.untested _ (run (enable_command dir) ∷ h)) refl)
  ]

  module _ (pending : List String) (prefix : String) where
    -- the addons that are not pending and fail
    unfoldable pub failing : List String → List String
    failing [] = []
    failing (a ∷ rest) =
        let more = failing rest in
        if has a pending then more else if fails (prefix <> a) then a ∷ more else more

    enable_next_lem :
        (a : String) (before : List String) (h : List Call)
        → IsSteady
        → (enable_next api pending prefix true a before h).0
          ≡ next (
              if has a pending
              then before
              else if fails (prefix <> a)
              then before ++ a ∷ []
              else before)
    unfolding enable_next after_addon after_failure ◌>>=◌
    enable_next_lem a before h steady = elim (Bool-cases (has a pending)) [
      | inl skip ↦ rw skip refl
      | inr kept ↦ elim (Bool-cases (fails (prefix <> a))) [
        | inl bad ↦ rw (kept, enable_one_addon_lem (prefix <> a) h steady, bad) refl
        | inr good ↦ rw (kept, enable_one_addon_lem (prefix <> a) h steady, good) refl
      ]
    ]

    enable_addons_lem :
        (addons before : List String) (h : List Call)
        → IsSteady
        → (enable_addons api pending prefix true before addons h).0
          ≡ stop (before ++ failing addons, none)
    unfolding enable_addons failing ◌>>=◌
    enable_addons_lem [] before h steady = rw (append-nil before) refl
    enable_addons_lem (a ∷ rest) before h steady =
        let h' = (enable_next api pending prefix true a before h).1 in
        rw (enable_next_lem a before h steady) (elim (Bool-cases (has a pending)) [
          | inl skip ↦ rw skip (enable_addons_lem rest before h' steady)
          | inr kept ↦ elim (Bool-cases (fails (prefix <> a))) [
            | inl bad ↦
                rw (kept, bad)
                  (enable_addons_lem rest (before ++ a ∷ []) h' steady
                    ∙ ap (λ xs. stop (xs, none)) (append_assoc before (a ∷ []) (failing rest)))
            | inr good ↦ rw (kept, good) (enable_addons_lem rest before h' steady)
          ]
        ])

    -- If each command that enables an addon fails or succeeds whenever it is run, and there are no
    -- tests, then the loop check runs over all addons and reports exactly those that fail and are
    -- not pending, in their order, and no error.
    pub enable_addons_by_order_lem :
        (addons : List String) (h : List Call)
        → IsSteady
        → (enable_addons_by_order api pending prefix addons true h).0 ≡ stop (failing addons, none)
    unfolding enable_addons_by_order
    enable_addons_by_order_lem addons h steady = enable_addons_lem addons [] h steady
