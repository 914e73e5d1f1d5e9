-- ===== src/Route/Backends/Filling.antt =====
-- What filling a route from a service achieves.
use kubevela_catalog.Base.{
  List, [], ◌∷◌, none, some, Bool, false, not, ◌||◌, ◌&&◌, ◌≡◌, ◌≢◌, refl, ◌∙◌, ◌⊎◌, inl, inr,
  arith, ap, Bool-cases, str_eq_iff,
}
use kubevela_catalog.Base.Int.{pos}
use kubevela_catalog.K8s.{IntOrString, Kube}
use kubevela_catalog.Route.{BackendServiceRef, Backend, Rule, Route}
use kubevela_catalog.Route.Backends.{
  ServicePort, Service, wants_backend, any_wants_backend, need_discovery, match_service, point_at,
  fill_rule, or_auto, fill_rules, fill_route_trait_with_service,
}

module _ (kube : Kube) (service : Service) where
  -- some port of the service matches the rule
  pub has_match : List ServicePort → Rule → Bool
  has_match [] rule = false
  has_match (p ∷ ps) rule = match_service kube p.target_port rule || has_match ps rule

  -- some rule wants a backend, and no port of the service matches it
  pub left_over : List Rule → Bool
  left_over [] = false
  left_over (rule ∷ rules) =
      (wants_backend rule && not (has_match service.ports rule)) || left_over rules

  wants-point_at :
      (p : ServicePort) (rule : Rule)
      → service.name ≢ ""
      → wants_backend (point_at kube service p rule) ≡ false
  unfolding wants_backend point_at
  wants-point_at p rule named = ground (arith, str_eq_iff service.name "")

  wants-fill_rule :
      (ps : List ServicePort) (rule : Rule)
      → service.name ≢ ""
      → wants_backend (fill_rule kube service ps rule)
        ≡ (wants_backend rule && not (has_match ps rule))
  unfolding fill_rule has_match
  wants-fill_rule [] rule named = ground arith
  wants-fill_rule (p ∷ ps) rule named =
      ground (arith, wants-point_at p rule named, wants-fill_rule ps rule named)

  any-fill_rules :
      (rules : List Rule)
      → service.name ≢ ""
      → any_wants_backend (fill_rules kube service rules) ≡ left_over rules
  unfolding any_wants_backend fill_rules left_over
  any-fill_rules [] named = refl
  any-fill_rules (rule ∷ rules) named =
      ground (arith, wants-fill_rule service.ports rule named, any-fill_rules rules named)

abbrev with_rules : Route → List Rule → Route
with_rules route rules = record route { spec = record route.spec { rules = rules } }

or_auto_cons : (rules : List Rule) → or_auto rules ≢ []
unfolding or_auto
or_auto_cons [] = λ e. cc
or_auto_cons (rule ∷ rules) = λ e. cc

discovery_of_filled :
    (kube : Kube) (service : Service) (route : Route) (rules : List Rule)
    → service.name ≢ ""
    → rules ≢ []
    → need_discovery (with_rules route (fill_rules kube service rules))
      ≡ left_over kube service rules
unfolding need_discovery fill_rules
discovery_of_filled kube service route [] named some_rule = absurd (some_rule refl)
discovery_of_filled kube service route (rule ∷ rules) named some_rule =
    any-fill_rules kube service (rule ∷ rules) named

-- After a route is filled from a service that has a name, the route needs discovery exactly if
-- one of its rules (or of the automatic rule, where it had none) wanted a backend and no port of
-- the service matches it.
pub need_discovery-fill :
    (kube : Kube) (service : Service) (route : Route)
    → service.name ≢ ""
    → need_discovery (fill_route_trait_with_service kube service route)
      ≡ left_over kube service (or_auto route.spec.rules)
unfolding fill_route_trait_with_service
need_discovery-fill kube service route named =
    discovery_of_filled kube service route (or_auto route.spec.rules) named (or_auto_cons _)

-- The port numbers are not 0, and stay what they are as an IntOrString.
abbrev pub AreNumbered : Kube → List ServicePort → Type 0
AreNumbered kube [] = Unit
AreNumbered kube (p ∷ ps) = (kube.int_value (kube.from_int p.port) ≢ pos 0) × AreNumbered kube ps

module _ (kube : Kube) (service : Service) where
  abbrev target_of : ServicePort → BackendServiceRef
  target_of p = record { port = kube.from_int p.port; service_name = service.name }

  -- The rule points at a service by name, at a port that is a number other than 0.
  pub record IsPointed (rule : Rule) : Type 0 where
    pub backend : Backend
    pub ref : BackendServiceRef
    pub has_backend : rule.backend ≡ some backend
    pub has_ref : backend.backend_service ≡ some ref
    pub named : ref.service_name ≢ ""
    pub numbered : kube.int_value ref.port ≢ pos 0

  match-IsPointed :
      (target : IntOrString) (rule : Rule) → IsPointed rule → match_service kube target rule ≡ false
  unfolding match_service
  match-IsPointed target rule i = ground (arith, str_eq_iff i.ref.service_name "")

  fill-IsPointed :
      (ps : List ServicePort) (rule : Rule) → IsPointed rule → fill_rule kube service ps rule ≡ rule
  unfolding fill_rule
  fill-IsPointed [] rule i = refl
  fill-IsPointed (p ∷ ps) rule i =
      ground (arith, match-IsPointed p.target_port rule i, fill-IsPointed ps rule i)

  point_at-IsPointed :
      (p : ServicePort) (rule : Rule)
      → service.name ≢ ""
      → kube.int_value (kube.from_int p.port) ≢ pos 0
      → IsPointed (point_at kube service p rule)
  unfolding point_at
  point_at-IsPointed p rule named numbered = record {
    backend = elim rule.backend [
      | none ↦ record {
        read_timeout = pos 0;
        send_timeout = pos 0;
        backend_service = some (target_of p);
      }
      | some b ↦ record b { backend_service = some (target_of p) }
    ];
    ref = target_of p;
    has_backend = ground arith;
    has_ref = ground arith;
    named = named;
    numbered = numbered;
  }

  fill_rule_cases :
      (ps : List ServicePort) (rule : Rule)
      → service.name ≢ ""
      → AreNumbered kube ps
      → (fill_rule kube service ps rule ≡ rule) ⊎ IsPointed (fill_rule kube service ps rule)
  unfolding fill_rule
  fill_rule_cases [] rule named numbered = inl refl
  fill_rule_cases (p ∷ ps) rule named (n, ns) =
      elim (Bool-cases (match_service kube p.target_port rule)) [
        | inl yes_match ↦ rw yes_match (inr (point_at-IsPointed p rule named n))
        | inr no_match ↦ rw no_match (fill_rule_cases ps rule named ns)
      ]

  fill_rule_again :
      (rule : Rule)
      → service.name ≢ ""
      → AreNumbered kube service.ports
      → fill_rule kube service service.ports (fill_rule kube service service.ports rule)
        ≡ fill_rule kube service service.ports rule
  fill_rule_again rule named numbered = elim (fill_rule_cases service.ports rule named numbered) [
    | inl same ↦ ap (fill_rule kube service service.ports) same
    | inr pointed ↦ fill-IsPointed service.ports _ pointed
  ]

  fill_rules_again :
      (rules : List Rule)
      → service.name ≢ ""
      → AreNumbered kube service.ports
      → fill_rules kube service (fill_rules kube service rules) ≡ fill_rules kube service rules
  unfolding fill_rules
  fill_rules_again [] named numbered = refl
  fill_rules_again (rule ∷ rules) named numbered =
      cc (fill_rule_again rule named numbered, fill_rules_again rules named numbered)

or_auto-fill_rules :
    (kube : Kube) (service : Service) (rules : List Rule)
    → or_auto (fill_rules kube service (or_auto rules)) ≡ fill_rules kube service (or_auto rules)
unfolding or_auto fill_rules
or_auto-fill_rules kube service [] = refl
or_auto-fill_rules kube service (rule ∷ rules) = refl

-- Filling a second time from the same service changes nothing, if the service has a name and its
-- ports have numbers other than 0, which their IntOrString keeps.
pub fill_idempotent :
    (kube : Kube) (service : Service) (route : Route)
    → service.name ≢ ""
    → AreNumbered kube service.ports
    → fill_route_trait_with_service kube service (fill_route_trait_with_service kube service route)
      ≡ fill_route_trait_with_service kube service route
unfolding fill_route_trait_with_service
fill_idempotent kube service route named numbered = ap (with_rules route) (
    ap (fill_rules kube service) (or_auto-fill_rules kube service route.spec.rules)
    ∙ fill_rules_again kube service (or_auto route.spec.rules) named numbered)

-- A rule that points at a service by a named port, whose number as an int is 0, wants no backend;
-- all the same it is pointed at the first port of any service that the route is filled from.
pub named_port_overwritten :
    (kube : Kube) (service : Service) (p : ServicePort) (ps : List ServicePort) (rule : Rule)
    (b : Backend) (s : BackendServiceRef)
    → rule.backend ≡ some b
    → b.backend_service ≡ some s
    → s.service_name ≢ ""
    → kube.int_value s.port ≡ pos 0
    → (wants_backend rule ≡ false)
      × ((fill_rule kube service (p ∷ ps) rule).backend
          ≡ some (record b {
            backend_service =
                some (record { port = kube.from_int p.port; service_name = service.name });
          }))
unfolding fill_rule match_service point_at wants_backend
named_port_overwritten kube service p ps rule b s has_backend has_ref named zero_port =
    (ground (arith, str_eq_iff s.service_name ""), ground arith)
