-- ===== src/Hpa/Render/Targets.antt =====
-- What the rendered autoscalers scale.
use kubevela_catalog.Base.{
  All, Bool-cases, inl, inr, String, List, [], ◌∷◌, Option, none, some, ◌≡◌, refl, ◌∙◌, ap, str_eq,
}
use kubevela_catalog.Base.Exec.{Result, ok, err}
use kubevela_catalog.K8s.{Error, Unstructured}
use kubevela_catalog.Hpa.{Trait, ScaleTarget, Hpa, Deployment, Api}
use kubevela_catalog.Hpa.Render.{
  all_have_requests, cons_result, reference_to, render_reference, hpa_for, render_one, render_hpa,
}

-- Setting the controller reference keeps the name and the target of an autoscaler.
abbrev pub KeepsTarget : Api → Type 0
KeepsTarget api =
    (t : Trait) (hpa hpa' : Hpa)
    → api.own t hpa ≡ ok hpa'
    → (hpa'.name ≡ hpa.name) × (hpa'.scale_target_ref ≡ hpa.scale_target_ref)

-- The autoscaler has the name of the trait and scales a Deployment.
abbrev pub IsForDeployment : Trait → Hpa → Type 0
IsForDeployment t hpa = (hpa.name ≡ t.meta.name) × (hpa.scale_target_ref.kind ≡ "Deployment")

-- A result, if there is one, satisfies `P`.
abbrev pub Holds : {A : Type 0} → (A → Type 0) → Result Error A → Type 0
Holds P (ok a) = P a
Holds P (err e) = Unit

module _ (api : Api) where
  abbrev NamesDeployment : Option ScaleTarget → Type 0
  NamesDeployment none = Unit
  NamesDeployment (some target) = target.kind ≡ "Deployment"

  reference_to-NamesDeployment :
      (convert requests : String) (r : Result Error Deployment)
      → Holds NamesDeployment (reference_to api convert requests r)
  unfolding reference_to
  reference_to-NamesDeployment convert requests (err e) = tt
  reference_to-NamesDeployment convert requests (ok d) =
      elim (Bool-cases (all_have_requests d.have_requests)) [
        | inl all ↦ rw all refl
        | inr missing ↦ rw missing tt
      ]

  render_reference-NamesDeployment :
      (u : Unstructured) → Holds NamesDeployment (render_reference api u)
  unfolding render_reference
  render_reference-NamesDeployment u =
      elim (Bool-cases (str_eq (api.gvk_string u) "apps/v1, Kind=Deployment")) [
        | inl deployment ↦
            rw deployment (reference_to-NamesDeployment _ _ (api.decode_deployment u))
        | inr other ↦
            rw other (elim (Bool-cases (str_eq (api.gvk_string u) "apps/v1, Kind=StatefulSet")) [
              | inl set ↦ rw set (reference_to-NamesDeployment _ _ (api.decode_deployment u))
              | inr unknown ↦ rw unknown tt
            ])
      ]

  cons_result-All :
      (P : Hpa → Type 0) (r : Result Error Hpa) (rest : Result Error (List Hpa))
      → Holds P r
      → Holds (All P) rest
      → Holds (All P) (cons_result r rest)
  unfolding cons_result
  cons_result-All P (err e) rest p ps = tt
  cons_result-All P (ok hpa) (err e) p ps = tt
  cons_result-All P (ok hpa) (ok hpas) p ps = (p, ps)

  own-IsForDeployment :
      (t : Trait) (target : ScaleTarget) (r : Result Error Hpa)
      → KeepsTarget api
      → target.kind ≡ "Deployment"
      → api.own t (hpa_for api t target) ≡ r
      → Holds (IsForDeployment t) r
  unfolding hpa_for
  own-IsForDeployment t target (err e) keeps names owned = tt
  own-IsForDeployment t target (ok hpa) keeps names owned =
      let (name, same) = keeps t _ hpa owned in (name, ap (λ s. s.kind) same ∙ names)

  render_one-All :
      (t : Trait) (r : Result Error (Option ScaleTarget)) (rest : Result Error (List Hpa))
      → KeepsTarget api
      → Holds NamesDeployment r
      → Holds (All (IsForDeployment t)) rest
      → Holds (All (IsForDeployment t)) (render_one api t r rest)
  unfolding render_one
  render_one-All t (err e) rest keeps names all = tt
  render_one-All t (ok none) rest keeps names all = all
  render_one-All t (ok (some target)) rest keeps names all =
      cons_result-All (IsForDeployment t) _ rest (own-IsForDeployment t target _ keeps names refl)
        all

-- Every autoscaler that is rendered has the name of the trait, so that several overwrite each
-- other, and scales a Deployment, also where the resource is a StatefulSet. The reference to the
-- owner is taken to keep the name and the target.
pub render_hpa-IsForDeployment :
    (api : Api) (t : Trait) (resources : List Unstructured)
    → KeepsTarget api
    → Holds (All (IsForDeployment t)) (render_hpa api t resources)
unfolding render_hpa
render_hpa-IsForDeployment api t [] keeps = tt
render_hpa-IsForDeployment api t (u ∷ us) keeps =
    render_one-All api t (render_reference api u) (render_hpa api t us) keeps
      (render_reference-NamesDeployment api u) (render_hpa-IsForDeployment api t us keeps)
