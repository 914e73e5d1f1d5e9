-- ===== src/Route/Ingress/Construct.antt =====
-- The two `Construct` methods (legacy/traits/routetrait/controllers/ingress/nginx_ingress.go and
-- contour_ingress.go), which differ in the annotations only.
pub mod Annotations
pub mod Objects
use kubevela_catalog.Base.{
  ℕ, ◌+◌, String, List, [], ◌∷◌, Option, none, some, Bool, not, ◌||◌, ◌++◌, str_eq, ◌<>◌, contains,
  itoa, if◌then◌else◌,
}
use kubevela_catalog.Base.Int.{ℤ, pos, negsuc, eq_ℤ}
use kubevela_catalog.Base.Dict.{Dict, put}
use kubevela_catalog.K8s.{Kube, owner_of}
use kubevela_catalog.Route.{BackendServiceRef, Backend, Rule, Tls, is_cluster_issuer, Route}
use kubevela_catalog.Route.Ingress.{IngressTls, Ingress}

-- strconv.Itoa of an int
unfoldable pub itoa_ℤ : ℤ → String
itoa_ℤ (pos n) = itoa n
itoa_ℤ (negsuc n) = "-" <> itoa (n + 1)

-- no ingress for these hosts
unfoldable pub is_local : String → Bool
is_local host = str_eq host "" || contains host "localhost" || contains host "127.0.0.1"

-- `if b { annotations[k] = v }`
unfoldable pub put_if : Bool → String → String → Dict String → Dict String
put_if b k v m = if b then put k v m else m

unfoldable pub put_issuer : Option Tls → Dict String → Dict String
put_issuer none m = m
put_issuer (some tls) m =
    put
      (if is_cluster_issuer tls then "cert-manager.io/cluster-issuer" else "cert-manager.io/issuer")
      tls.issuer_name m

-- the loop over the custom headers
unfoldable pub header_snippet : Dict String → String
header_snippet [] = ""
header_snippet ((k, v) ∷ m) = "more_set_headers \"" <> k <> ": " <> v <> "\";\n" <> header_snippet m

-- `s != ""` and `n != 0`
unfoldable pub is_set : String → Bool
is_set s = not (str_eq s "")

unfoldable pub is_nonzero : ℤ → Bool
is_nonzero n = not (eq_ℤ n (pos 0))

-- The key of the read timeout has two non-breaking hyphens (U+2011) in the source.
unfoldable pub nginx_annotations : Route → Rule → Backend → Dict String
nginx_annotations route rule backend =
    let m0 : Dict String = put "kubernetes.io/ingress.class" route.spec.ingress_class [] in
    let m1 = put_issuer route.spec.tls m0 in
    let m2 =
      put_if (is_set rule.rewrite_target) "nginx.ingress.kubernetes.io/rewrite-target"
        rule.rewrite_target m1 in
    let snippet = header_snippet rule.custom_headers in
    let m3 =
      put_if (is_set snippet) "nginx.ingress.kubernetes.io/configuration-snippet" snippet m2 in
    let m4 =
      put_if (is_nonzero backend.send_timeout) "nginx.ingress.kubernetes.io/proxy-send-timeout"
        (itoa_ℤ backend.send_timeout) m3 in
    put_if (is_nonzero backend.read_timeout) "nginx.ingress.kubernetes.io/proxy‑read‑timeout"
      (itoa_ℤ backend.read_timeout) m4

unfoldable pub contour_annotations : Route → Rule → Backend → Dict String
contour_annotations route rule backend =
    let m0 : Dict String = put "kubernetes.io/ingress.class" "contour" [] in
    let m1 = put_issuer route.spec.tls m0 in
    put_if (is_nonzero backend.read_timeout) "projectcontour.io/response-timeout"
      (itoa_ℤ backend.read_timeout) m1

-- the suffix of the ingress: the name of the rule, or else its index
unfoldable pub rule_name : ℕ → Rule → String
rule_name idx rule = if str_eq rule.name "" then itoa idx else rule.name

-- the backend of a rule with its service, if it has both
unfoldable pub service_of : Rule → Option (Backend × BackendServiceRef)
service_of rule = elim rule.backend [
  | none ↦ none
  | some b ↦ elim b.backend_service [ none ↦ none | some s ↦ some (b, s) ]
]

abbrev pub tls_of : Option Tls → String → String → List IngressTls
tls_of none host secret = []
tls_of (some tls) host secret = record { hosts = host ∷ []; secret_name = secret } ∷ []

module _ (kube : Kube) (annotations : Route → Rule → Backend → Dict String) (route : Route) where
  -- the ingress of one rule
  unfoldable pub ingress_of : String → Rule → Backend → BackendServiceRef → Ingress
  ingress_of name rule backend service = record {
    kind = "Ingress";
    api_version = kube.networking_api_version;
    name = route.meta.name <> "-" <> name;
    namespace = route.meta.namespace;
    annotations = annotations route rule backend;
    labels = route.meta.labels;
    owners = owner_of route.meta ∷ [];
    tls = tls_of route.spec.tls route.spec.host (route.meta.name <> "-" <> name <> "-cert");
    backend = elim rule.default_backend [
      | none ↦ none
      | some d ↦ some (record { api_group = d.api_version; kind = d.kind; name = d.name })
    ];
    rules =
        record {
          host = route.spec.host;
          path = rule.path;
          service_name = service.service_name;
          service_port = service.port;
        }
        ∷ [];
  }

  unfoldable pub service_ingress : ℕ → Rule → Option (Backend × BackendServiceRef) → List Ingress
  service_ingress idx rule none = []
  service_ingress idx rule (some (b, s)) = ingress_of (rule_name idx rule) rule b s ∷ []

  -- the body of the loop: nothing for a rule without a service
  unfoldable pub rule_ingress : ℕ → Rule → List Ingress
  unfolding service_ingress
  rule_ingress idx rule = service_ingress idx rule (service_of rule)

  unfoldable pub ingresses_from : ℕ → List Rule → List Ingress
  ingresses_from idx [] = []
  ingresses_from idx (rule ∷ rules) = rule_ingress idx rule ++ ingresses_from (idx + 1) rules

  unfoldable pub construct : List Ingress
  unfolding ingresses_from rule_ingress
  construct = if is_local route.spec.host then [] else ingresses_from 0 route.spec.rules
