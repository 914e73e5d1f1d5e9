-- ===== src/Route/Backends.antt =====
-- Which rules of a route still want a backend, and filling them from a service
-- (legacy/traits/routetrait/controllers/util.go).
pub mod Filling
use kubevela_catalog.Base.{
  String, List, [], ◌∷◌, none, some, Bool, true, false, not, map, str_eq, if◌then◌else◌,
}
use kubevela_catalog.Base.Int.{ℤ, pos, eq_ℤ}
use kubevela_catalog.K8s.{IntOrString, port_eq, Kube}
use kubevela_catalog.Route.{BackendServiceRef, Rule, Route}

-- corev1.ServicePort and corev1.Service: the fields that filling reads
pub record ServicePort : Type 0 where
  pub port : ℤ
  pub target_port : IntOrString

pub record Service : Type 0 where
  pub name : String
  pub ports : List ServicePort

-- the tests on one rule, in the order of the loop of `NeedDiscovery`
unfoldable pub wants_backend : Rule → Bool
wants_backend rule = elim rule.backend [
  | none ↦ true
  | some b ↦ elim b.backend_service [ none ↦ true | some s ↦ str_eq s.service_name "" ]
]

unfoldable pub any_wants_backend : List Rule → Bool
any_wants_backend [] = false
any_wants_backend (rule ∷ rules) = if wants_backend rule then true else any_wants_backend rules

unfoldable pub need_discovery : Route → Bool
unfolding any_wants_backend wants_backend
need_discovery route = elim route.spec.rules [
  | [] ↦ true
  | rule ∷ rules ↦ any_wants_backend (rule ∷ rules)
]

unfoldable pub auto_created : Rule
auto_created = record {
  name = "auto-created";
  path = "";
  rewrite_target = "";
  custom_headers = [];
  default_backend = none;
  backend = none;
}

unfoldable pub or_auto : List Rule → List Rule
unfolding auto_created
or_auto [] = auto_created ∷ []
or_auto (rule ∷ rules) = rule ∷ rules

module _ (kube : Kube) where
  unfoldable pub match_ref : IntOrString → BackendServiceRef → Bool
  match_ref target s = if not (str_eq s.service_name "") then false else port_eq target s.port

  unfoldable pub match_service : IntOrString → Rule → Bool
  unfolding match_ref
  match_service target rule = elim rule.backend [
    | none ↦ true
    | some b ↦ elim b.backend_service [
      | none ↦ true
      | some s ↦ if eq_ℤ (kube.int_value s.port) (pos 0) then true else match_ref target s
    ]
  ]

  -- the rule with its backend pointed at a port of the service
  unfoldable pub point_at : Service → ServicePort → Rule → Rule
  point_at service p rule =
      let ref : BackendServiceRef = record {
        port = kube.from_int p.port;
        service_name = service.name;
      } in
      record rule {
        backend = elim rule.backend [
          | none ↦
              some
                (record { read_timeout = pos 0; send_timeout = pos 0; backend_service = some ref })
          | some b ↦ some (record b { backend_service = some ref })
        ];
      }

  -- the inner loop of `FillRouteTraitWithService`: the first port that matches
  unfoldable pub fill_rule : Service → List ServicePort → Rule → Rule
  fill_rule service [] rule = rule
  fill_rule service (p ∷ ps) rule =
      if match_service p.target_port rule
      then point_at service p rule
      else fill_rule service ps rule

  unfoldable pub fill_rules : Service → List Rule → List Rule
  fill_rules service rules = map (fill_rule service service.ports) rules

  unfoldable pub fill_route_trait_with_service : Service → Route → Route
  unfolding or_auto fill_rules
  fill_route_trait_with_service service route = record route {
    spec = record route.spec { rules = fill_rules service (or_auto route.spec.rules) };
  }
