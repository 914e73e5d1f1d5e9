-- ===== src/Sidecar/Reconcile/Deploy.antt =====
-- What the loop over the resources changes.
use kubevela_catalog.Base.{
  String, List, [], ◌∷◌, some, Bool, true, false, ◌||◌, ◌≡◌, refl, ap, none, arith, if◌then◌else◌,
}
use kubevela_catalog.Base.Exec.{next, ok, ◌>>=◌}
use kubevela_catalog.Sidecar.{Entry, Trait, Resource, Document, Call, patch_resource, Api}
use kubevela_catalog.Sidecar.Combine.{combine_containers, combine_volumes}
use kubevela_catalog.Sidecar.Locate.{Located, locate_containers_field, locate_volumes_field}
use kubevela_catalog.Sidecar.Reconcile.{
  slice_of, put_container, put_volumes, patch_changed, sidecar_each,
}

or_assoc : (a b c : Bool) → (a || b) || c ≡ a || (b || c)
or_assoc a b c = ground arith

module _ (api : Api) (t : Trait) (document : Document) (slice : Resource → List String → List Entry)
    (put : Resource → List Entry → List String → Resource) where
  -- every field is a slice that can be read and written, and the server takes every patch
  pub record IsWilling : Type 0 where
    pub reads :
        (r : Resource) (path : List String) → api.nested_slice r path ≡ ok (some (slice r path))
    pub writes :
        (r : Resource) (es : List Entry) (path : List String)
        → api.set_nested_field r es path ≡ ok (put r es path)
    pub patches : (r r' : Resource) (h : List Call) → api.patch_resource r r' h ≡ none

  -- a resource with the container, if it has a place for it
  unfoldable pub with_container : Located → Resource → Resource
  with_container (found, path) r =
      if found then put r (combine_containers api.encode (slice r path) t.container) path else r

  unfoldable pub with_volumes : Located → Resource → Resource
  with_volumes (found, path) r =
      if found then put r (combine_volumes api.encode (slice r path) t.volumes) path else r

  unfoldable pub sidecared : Resource → Resource
  sidecared r =
      let r1 = with_container (locate_containers_field api document r) r in
      with_volumes (locate_volumes_field api document r1) r1

  -- whether a resource has a place for containers or volumes
  unfoldable pub takes_sidecar : Resource → Bool
  takes_sidecar r =
      (locate_volumes_field api document
        (with_container (locate_containers_field api document r) r)).0
      || (locate_containers_field api document r).0

  unfoldable pub any_takes : List Resource → Bool
  any_takes [] = false
  any_takes (r ∷ rs) = takes_sidecar r || any_takes rs

  unfoldable pub patching : List Resource → List Call → List Call
  patching [] h = h
  patching (r ∷ rs) h =
      patching rs (if takes_sidecar r then patch_resource r (sidecared r) ∷ h else h)

  put_container_lem :
      (r : Resource) (l : Located) (h : List Call)
      → IsWilling
      → put_container api t r l h ≡ (next (with_container l r, l.0), h)
  unfolding put_container slice_of with_container ◌>>=◌
  put_container_lem r (false, path) h willing = refl
  put_container_lem r (true, path) h willing =
      rw
        (
          willing.reads r path,
          willing.writes r (combine_containers api.encode (slice r path) t.container) path,
        )
        refl

  put_volumes_lem :
      (r : Resource) (b : Bool) (l : Located) (h : List Call)
      → IsWilling
      → put_volumes api t r b l h ≡ (next (with_volumes l r, l.0 || b), h)
  unfolding put_volumes with_volumes ◌>>=◌
  put_volumes_lem r b (false, path) h willing = refl
  put_volumes_lem r b (true, path) h willing =
      rw
        (
          willing.reads r path,
          willing.writes r (combine_volumes api.encode (slice r path) t.volumes) path,
        )
        refl

  patch_changed_lem :
      (r r' : Resource) (b : Bool) (h : List Call)
      → IsWilling
      → patch_changed api t r r' b h ≡ (next tt, if b then patch_resource r r' ∷ h else h)
  unfolding patch_changed ◌>>=◌
  patch_changed_lem r r' false h willing = refl
  patch_changed_lem r r' true h willing = rw (willing.patches r r' h) refl

  -- If all located fields are slices that can be read and written and the server takes all patches,
  -- the loop patches exactly the resources that have a place for containers or volumes, in their
  -- order, each once with the container and the volumes combined into it, and it says whether
  -- there was one.
  pub sidecar_each_lem :
      (rs : List Resource) (found : Bool) (h : List Call)
      → IsWilling
      → sidecar_each api t document found rs h ≡ (next (found || any_takes rs), patching rs h)
  unfolding sidecar_each any_takes patching sidecared takes_sidecar ◌>>=◌
  sidecar_each_lem [] found h willing = ground arith
  sidecar_each_lem (r ∷ rs) found h willing =
      let lc = locate_containers_field api document r in
      let r1 = with_container lc r in
      let lv = locate_volumes_field api document r1 in
      let r2 = with_volumes lv r1 in
      let b = lv.0 || lc.0 in
      rw (put_container_lem r lc h willing) (
        rw (put_volumes_lem r1 lc.0 lv h willing) (
          rw (patch_changed_lem r r2 b h willing) (
            rw (sidecar_each_lem rs (found || b) (if b then patch_resource r r2 ∷ h else h) willing)
              (ap (λ f. (next f, patching rs (if b then patch_resource r r2 ∷ h else h)))
                (or_assoc found b (any_takes rs))))))
