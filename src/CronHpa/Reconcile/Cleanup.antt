-- ===== src/CronHpa/Reconcile/Cleanup.antt =====
-- What the clean-up deletes.
use kubevela_catalog.Base.{String, List, [], ◌∷◌, Option, none, some, true, ◌≡◌, ◌≢◌}
use kubevela_catalog.Base.Exec.{ok, err}
use kubevela_catalog.K8s.{Error, NamespacedName, key, TypedReference, Unstructured}
use kubevela_catalog.CronHpa.{Trait, Call, get_cron_hpa, delete_cron_hpa, Api}

module _ (api : Api) (t : Trait) (uid : String) (stored : NamespacedName → Option Unstructured)
    (missing : Error) where
  -- The server gives the objects that it has, says of all others that they are not found, and
  -- deletes what it is told to.
  pub record IsWilling : Type 0 where
    pub gives :
        (k : NamespacedName) (u : Unstructured) (h : List Call)
        → stored k ≡ some u
        → api.get_cron_hpa k h ≡ ok u
    pub misses :
        (k : NamespacedName) (h : List Call) → stored k ≡ none → api.get_cron_hpa k h ≡ err missing
    pub not_found : api.is_not_found missing ≡ true
    pub deletes : (u : Unstructured) (h : List Call) → api.delete_cron_hpa u h ≡ none

  -- a recorded autoscaler with another identity than the current one
  pub record IsStale (r : TypedReference) : Type 0 where
    pub same_kind : r.kind ≡ "CronHorizontalPodAutoscaler"
    pub same_version : r.api_version ≡ api.cron_hpa_api_version
    pub other_uid : r.uid ≢ uid

  abbrev pub key_of : TypedReference → NamespacedName
  key_of r = key t.meta.namespace r.name

  -- `Cleans rs h h'`: after the calls of h, the clean-up of rs leads to h'. A stale autoscaler is
  -- read and, if it is there, deleted; nothing is called for anything else.
  pub data Cleans : List TypedReference → List Call → List Call → Type 0 where
    nothing : {h : List Call} → Cleans [] h h
    keeps :
        {r : TypedReference} {rs : List TypedReference} {h h' : List Call}
        → ¬ IsStale r
        → Cleans rs h h'
        → Cleans (r ∷ rs) h h'
    finds_none :
        {r : TypedReference} {rs : List TypedReference} {h h' : List Call}
        → IsStale r
        → stored (key_of r) ≡ none
        → Cleans rs (get_cron_hpa (key_of r) ∷ h) h'
        → Cleans (r ∷ rs) h h'
    deletes_it :
        {r : TypedReference} {rs : List TypedReference} {h h' : List Call} {u : Unstructured}
        → IsStale r
        → stored (key_of r) ≡ some u
        → Cleans rs (delete_cron_hpa u ∷ get_cron_hpa (key_of r) ∷ h) h'
        → Cleans (r ∷ rs) h h'
