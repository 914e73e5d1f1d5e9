-- ===== src/Sidecar/Reconcile/Success.antt =====
-- What the reconcile loop reports of its failures.
use kubevela_catalog.Base.{List, [], ◌∷◌, Option, none, some, Bool, true, false, ◌≡◌, refl}
use kubevela_catalog.Base.Exec.{
  Ctl, next, stop, panic, deref, Result, ok, err, continue, returned, ◌>>=◌,
}
use kubevela_catalog.Base.Exec.Ends.{Outcome, Ends-return, Ends-ask, Ends-bind}
use kubevela_catalog.Base.Exec.Stops.{
  Stops, Any, Stops-bind, Stops-deref, Stops-pure, Stops-return, stops_rules,
}
use kubevela_catalog.K8s.{
  Error, Reply, reply, NamespacedName, Condition, reconcile_success, reconcile_error,
}
use kubevela_catalog.Sidecar.{
  Entry, Trait, Resource, Document, Call, get_trait, fetch_workload, fetch_children,
  patch_condition, Api,
}
use kubevela_catalog.Sidecar.Locate.{Located}
use kubevela_catalog.Sidecar.Reconcile.{
  or_workload, patch_text, wrap, condition_of, fail, slice_of, put_container, put_volumes,
  patch_changed, sidecar_each, some_found, sidecar_resource, finish, reconcile_trait, reconcile,
}

-- A result without an error, whatever its delay is.
abbrev pub IsQuiet : Reply → Type 0
IsQuiet r = r.error ≡ none

-- the library panics on a nil error
abbrev pub NilPanics : Api → Type 0
NilPanics api = api.nil_error_condition ≡ none

-- The function panics, which it does only if the library does so on a nil error, or ends without delay and error, and sets the condition of a success last.
abbrev pub ReportsSuccess : Api → Trait → Ctl Reply Reply × List Call → Type 0
ReportsSuccess api t (panic, h) = NilPanics api
ReportsSuccess api t (next r, h) = ⊥
ReportsSuccess api t (stop r, []) = ⊥
ReportsSuccess api t (stop r, c ∷ h) =
    (r ≡ reply 0 none) × (c ≡ patch_condition t reconcile_success)

-- the server takes every patch of a condition
abbrev pub Accepts : Api → Type 0
Accepts api = (t : Trait) (c : Condition) (h : List Call) → api.patch_condition t c h ≡ none

Option-Stops : {A : Type 0} (o : Option A) → Stops {C = Call} IsQuiet (o ≡ none) Any (deref o)
unfolding deref
Option-Stops none = Stops-deref none refl (λ a. tt)
Option-Stops (some a) = Stops-pure a tt

module _ (api : Api) (accepts : Accepts api) where
  condition_of-Stops :
      (e : Option Error) → Stops {C = Call} IsQuiet (NilPanics api) Any (deref (condition_of api e))
  unfolding condition_of deref
  condition_of-Stops none = Option-Stops api.nil_error_condition
  condition_of-Stops (some e) = Stops-pure (reconcile_error e) tt

  fail-IsQuiet :
      {A : Type 0} {N : A → Type 0} (t : Trait) (e : Option Error)
      → Stops IsQuiet (NilPanics api) N (fail api t e)
  unfolding fail
  fail-IsQuiet t e = Stops-bind _ _ (condition_of-Stops e) (λ c. record {
    ends =
        Ends-bind _ _ (λ answer. answer ≡ none) _ _ _ (Ends-ask _ _ _ _ _ (λ h. accepts t c h))
          (λ answer quiet. Ends-return _ _ _ _ quiet);
  })

  slice_of-IsQuiet :
      (t : Trait) (r : Result Error (Option (List Entry)))
      → Stops IsQuiet (NilPanics api) Any (slice_of api t r)
  unfolding slice_of
  slice_of-IsQuiet t (err e) = fail-IsQuiet t (wrap (some e) patch_text)
  slice_of-IsQuiet t (ok none) = fail-IsQuiet t (wrap none patch_text)
  slice_of-IsQuiet t (ok (some entries)) = search (stops_rules, tt)

  put_container-IsQuiet :
      (t : Trait) (res : Resource) (l : Located)
      → Stops IsQuiet (NilPanics api) Any (put_container api t res l)
  unfolding put_container
  put_container-IsQuiet t res (false, path) = search (stops_rules, tt)
  put_container-IsQuiet t res (true, path) =
      search (stops_rules, tt, slice_of-IsQuiet, fail-IsQuiet) depth 9

  put_volumes-IsQuiet :
      (t : Trait) (res : Resource) (b : Bool) (l : Located)
      → Stops IsQuiet (NilPanics api) Any (put_volumes api t res b l)
  unfolding put_volumes
  put_volumes-IsQuiet t res b (false, path) = search (stops_rules, tt)
  put_volumes-IsQuiet t res b (true, path) = search (stops_rules, tt, fail-IsQuiet) depth 9

  patch_changed-IsQuiet :
      (t : Trait) (original res : Resource) (b : Bool)
      → Stops IsQuiet (NilPanics api) Any (patch_changed api t original res b)
  unfolding patch_changed
  patch_changed-IsQuiet t original res false = search (stops_rules, tt)
  patch_changed-IsQuiet t original res true = search (stops_rules, tt, fail-IsQuiet) depth 9

  sidecar_each-IsQuiet :
      (t : Trait) (document : Document) (found : Bool) (rs : List Resource)
      → Stops IsQuiet (NilPanics api) Any (sidecar_each api t document found rs)
  unfolding sidecar_each
  sidecar_each-IsQuiet t document found [] = search (stops_rules, tt)
  sidecar_each-IsQuiet t document found (res ∷ rest) =
      let later : (b : Bool)
          → Stops IsQuiet (NilPanics api) Any (sidecar_each api t document b rest) =
        λ b. sidecar_each-IsQuiet t document b rest in
      search (stops_rules, put_container-IsQuiet, put_volumes-IsQuiet, patch_changed-IsQuiet, later)
        depth 9

  some_found-IsQuiet :
      (t : Trait) (found : Bool) → Stops IsQuiet (NilPanics api) IsQuiet (some_found api t found)
  unfolding some_found
  some_found-IsQuiet t true = Stops-return _ refl
  some_found-IsQuiet t false = fail-IsQuiet t _

  sidecar_resource-IsQuiet :
      (t : Trait) (rs : List Resource)
      → Stops IsQuiet (NilPanics api) IsQuiet (sidecar_resource api t rs)
  unfolding sidecar_resource
  sidecar_resource-IsQuiet t rs =
      search (stops_rules, tt, fail-IsQuiet, sidecar_each-IsQuiet, some_found-IsQuiet) depth 12

  returned-ReportsSuccess :
      (t : Trait) (r : Ctl Reply Reply) (h : List Call)
      → Outcome IsQuiet (NilPanics api) IsQuiet r
      → ReportsSuccess api t (continue (returned r) (finish api t) h)
  unfolding finish ◌>>=◌
  returned-ReportsSuccess t (next r) h quiet =
      rw (quiet, accepts t reconcile_success h) (refl, refl)
  returned-ReportsSuccess t (stop r) h quiet =
      rw (quiet, accepts t reconcile_success h) (refl, refl)
  returned-ReportsSuccess t panic h quiet = quiet

  -- Whenever the server gives the trait, the workload and its children and takes every patch of a
  -- condition, the reconcile loop ends without a delay and without an error, and the last call that
  -- it makes sets the condition of a success: even if no field was found or a patch of a resource
  -- failed. It may also panic, but only if the library panics on a condition for a nil error.
  pub failures_reported_as_success :
      (request : NamespacedName) (t : Trait) (workload : Resource) (resources : List Resource)
      → api.get_trait request [] ≡ ok t
      → api.fetch_workload t (get_trait request ∷ []) ≡ ok workload
      → api.fetch_children workload (fetch_workload t ∷ get_trait request ∷ []) ≡ ok resources
      → ReportsSuccess api t (reconcile api request [])
  unfolding reconcile reconcile_trait ◌>>=◌
  failures_reported_as_success request t workload resources got found children =
      let h : List Call = fetch_children workload ∷ fetch_workload t ∷ get_trait request ∷ [] in
      let rs = or_workload workload resources in
      rw (got, found, children)
        (returned-ReportsSuccess t (sidecar_resource api t rs h).0 (sidecar_resource api t rs h).1
          ((sidecar_resource-IsQuiet t rs).ends.at h))
