-- ===== src/Hpa/Reconcile/Cleanup.antt =====
-- What the reconcile loop deletes.
use mathlib.Core.Path.{subst}
use kubevela_catalog.Base.{
  String, List, [], ◌∷◌, ◌++◌, Option, Bool, true, not, ◌&&◌, ◌≡◌, refl, sym, ◌∙◌, arith,
  str_eq_refl,
}
use kubevela_catalog.Base.Exec.{ok}
use kubevela_catalog.Base.Exec.Keeps.{
  Keeps, AllCalls, Keeps-bind, Keeps-if, Keeps-call, Keeps-pure, keeps_rules,
}
use kubevela_catalog.Base.Exec.Ends.{
  Ends, Ends-pure, Ends-return, Ends-ask, Ends-or_else, Ends-bind, Keeps-bind_after,
}
use kubevela_catalog.K8s.{Error, NamespacedName, TypedReference, Unstructured}
use kubevela_catalog.Hpa.{Trait, Hpa, Call, delete_hpa, Api}
use kubevela_catalog.Hpa.Reconcile.{
  with_resources, has_uid, fail, fetch_workload, determine_workload_type, apply_hpas, is_hpa,
  clean_up, clean_up_legacy_hpas, some_hpas, finish, apply, reconcile_trait, reconcile,
}

abbrev pub IsNoDelete : Call → Type 0
IsNoDelete (delete_hpa u) = ⊥
IsNoDelete _ = Unit

abbrev pub NoDelete : List Call → Type 0
NoDelete = AllCalls IsNoDelete

-- The server answers an update of the status with the resources that were written.
abbrev pub Echoes : Api → Type 0
Echoes api =
    (t t' : Trait) (h : List Call) → api.update_status t h ≡ ok t' → t'.resources ≡ t.resources

-- Every recorded resource is among the autoscalers that were just applied.
abbrev AllFresh : List String → List TypedReference → Type 0
AllFresh uids [] = Unit
AllFresh uids (r ∷ rs) = (has_uid r.uid uids ≡ true) × AllFresh uids rs

has_uid-left :
    (uid : String) (is js : List String) → has_uid uid is ≡ true → has_uid uid (is ++ js) ≡ true
unfolding has_uid
has_uid-left uid [] js h = cc h
has_uid-left uid (i ∷ is) js h = ground (arith, has_uid-left uid is js)

has_uid-last : (uid : String) (is : List String) → has_uid uid (is ++ uid ∷ []) ≡ true
unfolding has_uid
has_uid-last uid [] = ground (arith, str_eq_refl uid)
has_uid-last uid (i ∷ is) = ground (arith, has_uid-last uid is)

AllFresh-snoc :
    (uids : List String) (rs : List TypedReference) (r : TypedReference)
    → AllFresh uids rs
    → AllFresh (uids ++ r.uid ∷ []) (rs ++ r ∷ [])
AllFresh-snoc uids [] r f = (has_uid-last r.uid uids, tt)
AllFresh-snoc uids (q ∷ rs) r (fresh, f) =
    (has_uid-left q.uid uids (r.uid ∷ []) fresh, AllFresh-snoc uids rs r f)

not_legacy : (b : Bool) {u : Bool} → u ≡ true → b && not u ≡ true → ⊥
not_legacy b fresh legacy = ground (arith, fresh, legacy)

module _ (api : Api) where
  Ends-fail :
      {A : Type 0} (t : Trait) (e : Error) → Ends (λ r. Unit) Unit (λ (a : A). Unit) (fail api t e)
  unfolding fail
  Ends-fail t e =
      Ends-bind _ _ (λ a. Unit) _ _ _ (Ends-ask _ _ _ _ _ (λ h. tt)) (λ a n. Ends-return _ _ _ _ tt)

  fail-NoDelete : {A : Type 0} (t : Trait) (e : Error) → Keeps NoDelete (fail api {A = A} t e)
  unfolding fail
  fail-NoDelete t e = search (keeps_rules, tt)

  fetch_workload-NoDelete : (t : Trait) → Keeps NoDelete (fetch_workload api t)
  unfolding fetch_workload
  fetch_workload-NoDelete t = search (keeps_rules, tt) depth 9

  determine_workload_type-NoDelete :
      (o : Option Unstructured) → Keeps NoDelete (determine_workload_type api o)
  unfolding determine_workload_type
  determine_workload_type-NoDelete o = search (keeps_rules, tt)

  apply_hpas-NoDelete :
      (hpas : List Hpa) (t : Trait) (uids : List String)
      → Keeps NoDelete (apply_hpas api t uids hpas)
  unfolding apply_hpas
  apply_hpas-NoDelete [] t uids = search keeps_rules
  apply_hpas-NoDelete (hpa ∷ hpas) t uids =
      let rest = apply_hpas-NoDelete hpas in search (keeps_rules, fail-NoDelete, tt, rest) depth 12

  -- the applied autoscalers are all that the status records
  apply_hpas-AllFresh :
      (hpas : List Hpa) (t : Trait) (uids : List String)
      → Echoes api
      → AllFresh uids t.resources
      → Ends (λ r. Unit) Unit (λ a. AllFresh a.1 a.0.resources) (apply_hpas api t uids hpas)
  unfolding apply_hpas
  apply_hpas-AllFresh [] t uids echoes fresh = Ends-pure _ _ _ (t, uids) fresh
  apply_hpas-AllFresh (hpa ∷ hpas) t uids echoes fresh =
      Ends-bind _ _ (λ a. Unit) _ _ _ (Ends-ask _ _ _ _ _ (λ h. tt))
        (λ answer n.
          Ends-bind _ _ (λ m. Unit) _ _ _
            (Ends-or_else _ _ _ answer _ (λ m e. tt) (λ e. Ends-fail t _))
            (λ made n.
              let t1 = with_resources t (t.resources ++ made ∷ []) in
              Ends-bind _ _ (λ w. (h : List Call) × (api.update_status t1 h ≡ w)) _ _ _
                (Ends-ask _ _ _ _ _ (λ h. (h, refl)))
                (λ written (h, got).
                  Ends-bind _ _ (λ t2. t2.resources ≡ t1.resources) _ _ _
                    (Ends-or_else _ _ _ written _ (λ t2 e. echoes t1 t2 h (got ∙ e))
                      (λ e. Ends-return _ _ _ _ tt))
                    (λ t2 same. apply_hpas-AllFresh hpas t2 (uids ++ made.uid ∷ []) echoes (
                      subst (AllFresh (uids ++ made.uid ∷ [])) (sym same)
                        (AllFresh-snoc uids t.resources made fresh))))))

  -- an autoscaler that was just applied is left alone
  clean_up-NoDelete :
      (t : Trait) (uids : List String) (rs : List TypedReference)
      → AllFresh uids rs
      → Keeps NoDelete (clean_up_legacy_hpas api t uids rs)
  unfolding clean_up_legacy_hpas clean_up
  clean_up-NoDelete t uids [] fresh = search keeps_rules
  clean_up-NoDelete t uids (r ∷ rs) (fresh, f) =
      Keeps-bind _ _
        (Keeps-if _ _ _ (λ e. Keeps-pure tt) (λ e. absurd (not_legacy (is_hpa api r) fresh e)))
        (λ u. clean_up-NoDelete t uids rs f)

  finish-NoDelete :
      (t : Trait) (uids : List String)
      → AllFresh uids t.resources
      → Keeps NoDelete (finish api (t, uids))
  unfolding finish
  finish-NoDelete t uids fresh =
      Keeps-bind _ _ (Keeps-call _ (clean_up-NoDelete t uids t.resources fresh))
        (λ cleaned. search (keeps_rules, fail-NoDelete) depth 9)

  apply-NoDelete : (t : Trait) (hpas : List Hpa) → Echoes api → Keeps NoDelete (apply api t hpas)
  unfolding apply
  apply-NoDelete t hpas echoes =
      Keeps-bind_after _ _ _ _ (apply_hpas-NoDelete hpas (with_resources t []) [])
        (apply_hpas-AllFresh hpas (with_resources t []) [] echoes tt)
        (λ (t', uids) fresh. finish-NoDelete t' uids fresh)

  some_hpas-NoDelete : (hpas : List Hpa) → Keeps NoDelete (some_hpas api hpas)
  unfolding some_hpas
  some_hpas-NoDelete [] = search keeps_rules
  some_hpas-NoDelete (hpa ∷ hpas) = search keeps_rules

  reconcile_trait-NoDelete : (t : Trait) → Echoes api → Keeps NoDelete (reconcile_trait api t)
  unfolding reconcile_trait
  reconcile_trait-NoDelete t echoes =
      let applied : (hpas : List Hpa) → Keeps NoDelete (apply api t hpas) =
        λ hpas. apply-NoDelete t hpas echoes in
      search
        (
          keeps_rules, fetch_workload-NoDelete, determine_workload_type-NoDelete, fail-NoDelete,
          some_hpas-NoDelete, applied,
        )
        depth 14

-- The reconcile loop never deletes an autoscaler, whatever resources the status had recorded: the
-- status is emptied before the clean-up reads it, and then holds only what was just applied. The
-- server is taken to answer an update of the status with the resources that were written.
pub reconcile_deletes_nothing :
    (api : Api) (request : NamespacedName) → Echoes api → NoDelete (reconcile api request []).1
unfolding reconcile
reconcile_deletes_nothing api request echoes =
    let rest : (t : Trait) → Keeps NoDelete (reconcile_trait api t) =
      λ t. reconcile_trait-NoDelete api t echoes in
    let keeps : Keeps NoDelete (reconcile api request) = search (keeps_rules, rest, tt) depth 9 in
    keeps.at [] tt
