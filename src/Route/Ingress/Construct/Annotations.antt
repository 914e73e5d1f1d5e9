-- ===== src/Route/Ingress/Construct/Annotations.antt =====
-- What the annotations of a constructed ingress say, key by key.
use kubevela_catalog.Base.{
  String, Option, none, some, Bool, true, false, ◌≡◌, refl, arith, str_eq, str_eq_refl, ◌∙◌,
  if◌then◌else◌,
}
use kubevela_catalog.Base.Dict.{Dict, lookup, put, lookup-put}
use kubevela_catalog.Route.{Backend, Rule, Tls, is_cluster_issuer, Route}
use kubevela_catalog.Route.Ingress.Construct.{
  itoa_ℤ, put_if, put_issuer, is_set, is_nonzero, nginx_annotations, contour_annotations,
}

pub lookup-put_if :
    (b : Bool) (k j v : String) (m : Dict String)
    → lookup j (put_if b k v m)
      ≡ (if b then (if str_eq k j then some v else lookup j m) else lookup j m)
unfolding put_if
lookup-put_if true k j v m = lookup-put k j v m
lookup-put_if false k j v m = refl

-- the value that an optional annotation has
abbrev pub given : Bool → String → Option String
given b v = if b then some v else none

abbrev issuer_key : Tls → String
issuer_key tls =
    if is_cluster_issuer tls then "cert-manager.io/cluster-issuer" else "cert-manager.io/issuer"

module _ (j : String) where
  put_other :
      (k v : String) (m : Dict String) → str_eq k j ≡ false → lookup j (put k v m) ≡ lookup j m
  put_other k v m no_match = ground (arith, lookup-put k j v m)

  put_if_other :
      (b : Bool) (k v : String) (m : Dict String)
      → str_eq k j ≡ false
      → lookup j (put_if b k v m) ≡ lookup j m
  put_if_other b k v m no_match = ground (arith, lookup-put_if b k j v m)

  put_if_same :
      (b : Bool) (v : String) (m : Dict String)
      → lookup j m ≡ none
      → lookup j (put_if b j v m) ≡ given b v
  put_if_same b v m absent = ground (arith, lookup-put_if b j j v m, str_eq_refl j)

  put_issuer_other :
      (o : Option Tls) (m : Dict String)
      → str_eq "cert-manager.io/cluster-issuer" j ≡ false
      → str_eq "cert-manager.io/issuer" j ≡ false
      → lookup j (put_issuer o m) ≡ lookup j m
  unfolding put_issuer
  put_issuer_other none m p q = refl
  put_issuer_other (some tls) m p q =
      ground (arith, lookup-put (issuer_key tls) j tls.issuer_name m)

-- The key by which nginx reads the timeout, spelt in ASCII, is in no annotations that the nginx
-- provider builds, whatever read timeout the backend asks for.
pub nginx_read_timeout :
    (route : Route) (rule : Rule) (backend : Backend)
    → lookup "nginx.ingress.kubernetes.io/proxy-read-timeout" (nginx_annotations route rule backend)
      ≡ none
unfolding nginx_annotations lookup
nginx_read_timeout route rule backend =
    let key : String = "nginx.ingress.kubernetes.io/proxy-read-timeout" in
    put_if_other key _ _ _ _ refl
    ∙ put_if_other key _ _ _ _ refl
    ∙ put_if_other key _ _ _ _ refl
    ∙ put_if_other key _ _ _ _ refl
    ∙ put_issuer_other key _ _ refl refl
    ∙ put_other key _ _ _ refl

nginx_send :
    (route : Route) (rule : Rule) (backend : Backend)
    → lookup "nginx.ingress.kubernetes.io/proxy-send-timeout" (nginx_annotations route rule backend)
      ≡ given (is_nonzero backend.send_timeout) (itoa_ℤ backend.send_timeout)
unfolding nginx_annotations lookup
nginx_send route rule backend =
    let key : String = "nginx.ingress.kubernetes.io/proxy-send-timeout" in
    put_if_other key _ _ _ _ refl
    ∙ put_if_same key _ _ _ (
        put_if_other key _ _ _ _ refl
        ∙ put_if_other key _ _ _ _ refl
        ∙ put_issuer_other key _ _ refl refl
        ∙ put_other key _ _ _ refl)

nginx_rewrite :
    (route : Route) (rule : Rule) (backend : Backend)
    → lookup "nginx.ingress.kubernetes.io/rewrite-target" (nginx_annotations route rule backend)
      ≡ given (is_set rule.rewrite_target) rule.rewrite_target
unfolding nginx_annotations lookup
nginx_rewrite route rule backend =
    let key : String = "nginx.ingress.kubernetes.io/rewrite-target" in
    put_if_other key _ _ _ _ refl
    ∙ put_if_other key _ _ _ _ refl
    ∙ put_if_other key _ _ _ _ refl
    ∙ put_if_same key _ _ _ (put_issuer_other key _ _ refl refl ∙ put_other key _ _ _ refl)

-- What an nginx ingress asks of the proxy: the rewrite target and the send
-- timeout exactly where the rule and the backend give one.
pub nginx_annotations_lem :
    (route : Route) (rule : Rule) (backend : Backend)
    → (lookup "nginx.ingress.kubernetes.io/rewrite-target" (nginx_annotations route rule backend)
        ≡ given (is_set rule.rewrite_target) rule.rewrite_target)
      × (lookup "nginx.ingress.kubernetes.io/proxy-send-timeout"
            (nginx_annotations route rule backend)
          ≡ given (is_nonzero backend.send_timeout) (itoa_ℤ backend.send_timeout))
nginx_annotations_lem route rule backend =
    (nginx_rewrite route rule backend, nginx_send route rule backend)

-- A contour ingress has the class "contour", whatever class the route asks for, and a response
-- timeout exactly if the read timeout of the backend is not 0.
pub contour_annotations_lem :
    (route : Route) (rule : Rule) (backend : Backend)
    → (lookup "kubernetes.io/ingress.class" (contour_annotations route rule backend)
        ≡ some "contour")
      × (lookup "projectcontour.io/response-timeout" (contour_annotations route rule backend)
          ≡ given (is_nonzero backend.read_timeout) (itoa_ℤ backend.read_timeout))
unfolding contour_annotations lookup put
contour_annotations_lem route rule backend = (
  put_if_other "kubernetes.io/ingress.class" _ _ _ _ refl
      ∙ put_issuer_other "kubernetes.io/ingress.class" _ _ refl refl,
  put_if_same "projectcontour.io/response-timeout" _ _ _
      (put_issuer_other "projectcontour.io/response-timeout" _ _ refl refl),
)
