-- ===== src/Route/Ingress/Construct/Objects.antt =====
-- Which ingresses a route becomes: their number, and what each has whatever the provider.
use mathlib.Core.List.{map-append}
use kubevela_catalog.Base.{
  ℕ, ◌+◌, String, false, ◌≢◌, ◌⊎◌, Option-cases, str_eq_cases, contains, itoa, List, [], ◌∷◌,
  Option, none, some, ◌≡◌, refl, arith, ap, ◌∙◌, map, length, length-append, concat_assoc, ◌<>◌,
  if◌then◌else◌, Bool-cases, inl, inr,
}
use kubevela_catalog.Base.Dict.{Dict}
use kubevela_catalog.K8s.{Kube, owner_of}
use kubevela_catalog.Route.{BackendServiceRef, Backend, Rule, Tls, Route}
use kubevela_catalog.Route.Ingress.{Ingress}
use kubevela_catalog.Route.Ingress.Construct.{
  is_local, rule_name, service_of, tls_of, ingress_of, service_ingress, rule_ingress,
  ingresses_from, construct,
}

-- how many rules have a backend with a service
abbrev pub count_services : List Rule → ℕ
count_services [] = 0
count_services (rule ∷ rules) =
    elim (service_of rule) [ none ↦ 0 | some b ↦ 1 ] + count_services rules

-- the ingress with the annotations left out
abbrev pub bare : Ingress → Ingress
bare i = record i { annotations = [] }

-- The ingress is the one of the rule at this index, for this service: in the route's namespace,
-- with its labels, owned by it, and with one rule, which leads from the route's host and the rule's
-- path to the service. It is named after the route and the rule, by the index if the rule has no
-- name; with TLS, its secret is named after it, and without it has none.
pub record IsFor (route : Route) (idx : ℕ) (rule : Rule) (s : BackendServiceRef) (i : Ingress)
    : Type 0 where
  pub named : rule.name ≢ "" → i.name ≡ route.meta.name <> "-" <> rule.name
  pub numbered : rule.name ≡ "" → i.name ≡ route.meta.name <> "-" <> itoa idx
  pub same_namespace : i.namespace ≡ route.meta.namespace
  pub same_labels : i.labels ≡ route.meta.labels
  pub owned : i.owners ≡ owner_of route.meta ∷ []
  pub leads :
      i.rules
      ≡ record {
        host = route.spec.host;
        path = rule.path;
        service_name = s.service_name;
        service_port = s.port;
      }
        ∷ []
  pub no_secret : route.spec.tls ≡ none → i.tls ≡ []
  pub secret :
      (tls : Tls)
      → route.spec.tls ≡ some tls
      → i.tls ≡ record { hosts = route.spec.host ∷ []; secret_name = i.name <> "-cert" } ∷ []

abbrev pub LeadsTo : Rule → BackendServiceRef → Type 0
LeadsTo rule s = (b : Backend) × (rule.backend ≡ some b) × (b.backend_service ≡ some s)

-- The ingresses of the rules, the first of which has this index: one for each rule with a service,
-- in order.
pub data IngressesOf (route : Route) : ℕ → List Rule → List Ingress → Type 0 where
  no_rule : {idx : ℕ} → IngressesOf route idx [] []
  skips :
      {idx : ℕ} {rule : Rule} {rules : List Rule} {is : List Ingress}
      → ((s : BackendServiceRef) → ¬ LeadsTo rule s)
      → IngressesOf route (idx + 1) rules is
      → IngressesOf route idx (rule ∷ rules) is
  makes :
      {idx : ℕ} {rule : Rule} {rules : List Rule} {i : Ingress} {is : List Ingress}
      (s : BackendServiceRef)
      → LeadsTo rule s
      → IsFor route idx rule s i
      → IngressesOf route (idx + 1) rules is
      → IngressesOf route idx (rule ∷ rules) (i ∷ is)

service_of-LeadsTo :
    (rule : Rule)
    → ((service_of rule ≡ none) × ((s : BackendServiceRef) → ¬ LeadsTo rule s))
      ⊎ ((b : Backend) × (s : BackendServiceRef) × (service_of rule ≡ some (b, s)) × LeadsTo rule s)
unfolding service_of
service_of-LeadsTo rule = elim (Option-cases rule.backend) [
  | inl e ↦ inl (rw e refl, λ s (b, e', f). absurd (cc (e, e')))
  | inr (b, e) ↦ elim (Option-cases b.backend_service) [
    | inl f ↦ inl (rw (e, f) refl, λ s l. absurd (no_service e f l))
    | inr (s, f) ↦ inr (b, s, found e f, (b, e, f))
  ]
]
  where
    found :
        {b : Backend} {s : BackendServiceRef}
        → rule.backend ≡ some b
        → b.backend_service ≡ some s
        → service_of rule ≡ some (b, s)
    found e f = ground (arith, e, f)

    no_service :
        {b : Backend} {s : BackendServiceRef}
        → rule.backend ≡ some b
        → b.backend_service ≡ none
        → ¬ LeadsTo rule s
    no_service {b = b} e f (c, e', f') =
        let same : b ≡ c = cc (e, e') in cc (f, f', ap (λ (x : Backend). x.backend_service) same)

rule_name_given : (idx : ℕ) (rule : Rule) → rule.name ≢ "" → rule_name idx rule ≡ rule.name
unfolding rule_name
rule_name_given idx rule given = elim (str_eq_cases rule.name "") [
  | inl (e, same) ↦ absurd (given same)
  | inr (e, differs) ↦ rw e refl
]

rule_name_empty : (idx : ℕ) (rule : Rule) → rule.name ≡ "" → rule_name idx rule ≡ itoa idx
unfolding rule_name
rule_name_empty idx rule e = rw e refl

module _ (kube : Kube) (annotations : Route → Rule → Backend → Dict String) (route : Route) where
  length-rule_ingress :
      (idx : ℕ) (rule : Rule)
      → length (rule_ingress kube annotations route idx rule)
        ≡ (elim (service_of rule) [ none ↦ 0 | some b ↦ 1 ])
  unfolding rule_ingress service_ingress
  length-rule_ingress idx rule = ground arith

  length-ingresses_from :
      (idx : ℕ) (rules : List Rule)
      → length (ingresses_from kube annotations route idx rules) ≡ count_services rules
  unfolding ingresses_from
  length-ingresses_from idx [] = refl
  length-ingresses_from idx (rule ∷ rules) = ground (
    arith,
    length-append (rule_ingress kube annotations route idx rule)
        (ingresses_from kube annotations route (idx + 1) rules),
    length-rule_ingress idx rule,
    length-ingresses_from (idx + 1) rules,
  )

  -- A route for a local host or for none becomes no ingress; any other becomes one for each rule
  -- that has a service.
  pub length-construct :
      length (construct kube annotations route)
      ≡ (if is_local route.spec.host then 0 else count_services route.spec.rules)
  unfolding construct
  length-construct = ground (arith, length-ingresses_from 0 route.spec.rules)

  secret_names :
      (name : String)
      → route.meta.name <> "-" <> name <> "-cert" ≡ (route.meta.name <> "-" <> name) <> "-cert"
  secret_names name =
      ap (λ s. route.meta.name <> s) (concat_assoc "-" name "-cert")
      ∙ concat_assoc route.meta.name ("-" <> name) "-cert"

  ingress_of-IsFor :
      (idx : ℕ) (rule : Rule) (b : Backend) (s : BackendServiceRef)
      → IsFor route idx rule s (ingress_of kube annotations route (rule_name idx rule) rule b s)
  unfolding ingress_of
  ingress_of-IsFor idx rule b s = record {
    named = λ given. ap (λ n. route.meta.name <> "-" <> n) (rule_name_given idx rule given);
    numbered = λ empty. ap (λ n. route.meta.name <> "-" <> n) (rule_name_empty idx rule empty);
    same_namespace = refl;
    same_labels = refl;
    owned = refl;
    leads = refl;
    no_secret = λ without. rw without refl;
    secret = λ tls with_tls.
        rw with_tls (ap (tls_of (some tls) route.spec.host) (secret_names (rule_name idx rule)));
  }

  ingresses_from-IngressesOf :
      (idx : ℕ) (rules : List Rule)
      → IngressesOf route idx rules (ingresses_from kube annotations route idx rules)
  unfolding ingresses_from rule_ingress service_ingress
  ingresses_from-IngressesOf idx [] = no_rule
  ingresses_from-IngressesOf idx (rule ∷ rules) =
      let rest = ingresses_from-IngressesOf (idx + 1) rules in
      elim (service_of-LeadsTo rule) [
        | inl (e, no_service) ↦ rw e (skips no_service rest)
        | inr (b, s, e, leads) ↦ rw e (makes s leads (ingress_of-IsFor idx rule b s) rest)
      ]

  -- If the host of a route is not empty and contains neither "localhost" nor "127.0.0.1", the route
  -- becomes one ingress for each rule with a service, in the order of the rules: in the route's
  -- namespace, with its labels and it as the only owner, named after the route and the rule, and
  -- leading from the host and the rule's path to the service; with TLS, its secret is the one
  -- named after the ingress, and without it has none.
  pub construct-IngressesOf :
      route.spec.host ≢ ""
      → contains route.spec.host "localhost" ≡ false
      → contains route.spec.host "127.0.0.1" ≡ false
      → IngressesOf route 0 route.spec.rules (construct kube annotations route)
  unfolding construct is_local
  construct-IngressesOf given no_name no_number = elim (str_eq_cases route.spec.host "") [
    | inl (e, same) ↦ absurd (given same)
    | inr (e, differs) ↦ rw (e, no_name, no_number) (ingresses_from-IngressesOf 0 route.spec.rules)
  ]

module _ (kube : Kube) (f g : Route → Rule → Backend → Dict String) (route : Route) where
  bare-service_ingress :
      (idx : ℕ) (rule : Rule) (o : Option (Backend × BackendServiceRef))
      → map bare (service_ingress kube f route idx rule o)
        ≡ map bare (service_ingress kube g route idx rule o)
  unfolding service_ingress ingress_of
  bare-service_ingress idx rule none = refl
  bare-service_ingress idx rule (some (b, s)) = refl

  bare-ingresses_from :
      (idx : ℕ) (rules : List Rule)
      → map bare (ingresses_from kube f route idx rules)
        ≡ map bare (ingresses_from kube g route idx rules)
  unfolding ingresses_from rule_ingress
  bare-ingresses_from idx [] = refl
  bare-ingresses_from idx (rule ∷ rules) =
      rw
        (
          map-append bare (service_ingress kube f route idx rule (service_of rule))
              (ingresses_from kube f route (idx + 1) rules),
          map-append bare (service_ingress kube g route idx rule (service_of rule))
              (ingresses_from kube g route (idx + 1) rules),
          bare-service_ingress idx rule (service_of rule),
          bare-ingresses_from (idx + 1) rules,
        )
        refl

  -- Two providers make the same ingresses of a route, but for the annotations.
  pub bare-construct : map bare (construct kube f route) ≡ map bare (construct kube g route)
  unfolding construct
  bare-construct = elim (Bool-cases (is_local route.spec.host)) [
    | inl local ↦ rw local refl
    | inr remote ↦ rw remote (bare-ingresses_from 0 route.spec.rules)
  ]
