-- ===== src/MetricHpa/Reconcile/Cleanup.antt =====
-- What the garbage collection deletes.
use kubevela_catalog.Base.{String, List, [], ◌∷◌, Option, none, some, true, ◌≡◌}
use kubevela_catalog.Base.Exec.{ok, err}
use kubevela_catalog.K8s.{Error, NamespacedName, key, TypedReference, Unstructured}
use kubevela_catalog.MetricHpa.{
  Trait, Sort, deployment, service, scaled_object, Call, get_object, delete_object, Api,
}
use kubevela_catalog.MetricHpa.Reconcile.{Uids}

module _ (api : Api) (t : Trait) (deploy_uid service_uid scaledobject_uid : String)
    (stored : Sort → NamespacedName → Option Unstructured) (missing : Error) where
  -- The server gives the objects that it has, says of all others that they are not found, and
  -- deletes what it is told to.
  pub record IsWilling : Type 0 where
    pub gives :
        (s : Sort) (k : NamespacedName) (u : Unstructured) (h : List Call)
        → stored s k ≡ some u
        → api.get_object s k h ≡ ok u
    pub misses :
        (s : Sort) (k : NamespacedName) (h : List Call)
        → stored s k ≡ none
        → api.get_object s k h ≡ err missing
    pub not_found : api.is_not_found missing ≡ true
    pub deletes : (s : Sort) (u : Unstructured) (h : List Call) → api.delete_object s u h ≡ none

  -- the reference is to an object of this sort
  abbrev pub IsOf : Sort → TypedReference → Type 0
  IsOf deployment r = (r.kind ≡ api.kind_deployment) × (r.api_version ≡ api.apps_api_version)
  IsOf service r = (r.kind ≡ api.kind_service) × (r.api_version ≡ api.core_api_version)
  IsOf scaled_object r = (r.kind ≡ "ScaledObject") × (r.api_version ≡ api.keda_api_version)

  -- the reference is to the object of this sort that was just applied
  abbrev pub IsCurrent : Sort → TypedReference → Type 0
  IsCurrent deployment r = r.uid ≡ deploy_uid
  IsCurrent service r = r.uid ≡ service_uid
  IsCurrent scaled_object r = r.uid ≡ scaledobject_uid

  abbrev pub key_of : TypedReference → NamespacedName
  key_of r = key t.meta.namespace r.name

  -- `Collects rs h h'`: after the calls of h, the collection of rs leads to h'. A recorded object of
  -- one of the three sorts that is not the current one is read and, if it is there, deleted;
  -- nothing is called for a current object or one of no sort.
  pub data Collects : List TypedReference → List Call → List Call → Type 0 where
    nothing : {h : List Call} → Collects [] h h
    of_no_sort :
        {r : TypedReference} {rs : List TypedReference} {h h' : List Call}
        → ((s : Sort) → ¬ IsOf s r)
        → Collects rs h h'
        → Collects (r ∷ rs) h h'
    keeps :
        {r : TypedReference} {rs : List TypedReference} {h h' : List Call} (s : Sort)
        → IsOf s r
        → IsCurrent s r
        → Collects rs h h'
        → Collects (r ∷ rs) h h'
    finds_none :
        {r : TypedReference} {rs : List TypedReference} {h h' : List Call} (s : Sort)
        → IsOf s r
        → ¬ IsCurrent s r
        → stored s (key_of r) ≡ none
        → Collects rs (get_object s (key_of r) ∷ h) h'
        → Collects (r ∷ rs) h h'
    deletes_it :
        {r : TypedReference} {rs : List TypedReference} {h h' : List Call} (s : Sort)
        (u : Unstructured)
        → IsOf s r
        → ¬ IsCurrent s r
        → stored s (key_of r) ≡ some u
        → Collects rs (delete_object s u ∷ get_object s (key_of r) ∷ h) h'
        → Collects (r ∷ rs) h h'

  abbrev uids : Uids
  uids = record {
    deploy_uid = deploy_uid;
    service_uid = service_uid;
    scaledobject_uid = scaledobject_uid;
  }
