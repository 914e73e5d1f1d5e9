-- ===== src/Metrics/Webhook/Defaulting.antt =====
-- What the defaulting of a trait achieves for its validation.
use kubevela_catalog.Base.{
  String, List, [], Option, none, some, Bool, true, ◌≡◌, refl, ap, ◌⊎◌, inl, inr, arith, str_eq,
  str_eq_iff, str_eq_refl,
}
use kubevela_catalog.Base.Exec.{Result, ok}
use kubevela_catalog.K8s.{Error, ObjectMeta}
use kubevela_catalog.K8s.Admission.{create, allowed, judge, validating_handle}
use kubevela_catalog.Metrics.{Trait}
use kubevela_catalog.Metrics.Webhook.{
  supported_format, supported_scheme, default_metrics_path, or_default, or_enabled,
  default_scrape_service, default_metrics, Fault, validate_create, handle_validating,
}

or_default_again : (s d : String) → or_default (or_default s d) d ≡ or_default s d
unfolding or_default
or_default_again s d = ground arith

-- not given, or the only value that is supported
abbrev pub IsSupported : String → String → Type 0
IsSupported s supported = (s ≡ "") ⊎ (s ≡ supported)

or_default-IsSupported :
    (s supported : String)
    → IsSupported s supported
    → str_eq (or_default s supported) supported ≡ true
unfolding or_default
or_default-IsSupported s supported (inl empty) =
    ground (arith, str_eq_refl supported, str_eq_iff s "")
or_default-IsSupported s supported (inr same) =
    ground (arith, str_eq_refl supported, ap (λ t. str_eq t supported) same)

enabled_again : (o : Option Bool) → or_enabled (or_enabled o) ≡ or_enabled o
enabled_again none = refl
enabled_again (some b) = refl

-- Defaulting a second time changes nothing.
pub default_idempotent : (t : Trait) → default_metrics (default_metrics t) ≡ default_metrics t
unfolding default_metrics default_scrape_service
default_idempotent t =
    let s = t.spec.scrape_service in
    cc (
      or_default_again s.format supported_format,
      or_default_again s.path default_metrics_path,
      or_default_again s.scheme supported_scheme,
      enabled_again s.enabled,
    )

-- A trait that gives no format and no scheme other than the supported ones is admitted by the
-- validating webhook once the mutating webhook has filled in the defaults, if nothing is wrong
-- with its metadata.
pub defaulted_admitted :
    (validate_object_meta : ObjectMeta → List Fault) (t : Trait) (old : Result Error Trait)
    → validate_object_meta t.meta ≡ []
    → IsSupported t.spec.scrape_service.format supported_format
    → IsSupported t.spec.scrape_service.scheme supported_scheme
    → handle_validating validate_object_meta create (ok (default_metrics t)) old ≡ some allowed
unfolding handle_validating validating_handle judge validate_create default_metrics
    default_scrape_service
defaulted_admitted validate_object_meta t old sound format scheme = ground (
  arith,
  or_default-IsSupported t.spec.scrape_service.format supported_format format,
  or_default-IsSupported t.spec.scrape_service.scheme supported_scheme scheme,
)
