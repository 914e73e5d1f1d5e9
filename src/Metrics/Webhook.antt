-- ===== src/Metrics/Webhook.antt =====
-- The webhooks of the MetricsTrait (legacy/traits/metricstrait/webhook).
pub mod Defaulting
use kubevela_catalog.Base.{
  String, List, [], ◌∷◌, ◌++◌, Option, none, some, Bool, true, false, not, ◌≡◌, refl, ◌⊎◌, inl, inr,
  arith, str_eq, str_eq_iff, str_eq_refl, if◌then◌else◌,
}
use kubevela_catalog.Base.Exec.{Result}
use kubevela_catalog.K8s.{Error, ObjectMeta}
use kubevela_catalog.K8s.Admission.{Operation, Response, mutating_handle, validating_handle}
use kubevela_catalog.Metrics.{ScrapeService, Trait}

abbrev pub supported_format : String
supported_format = "prometheus"

abbrev pub supported_scheme : String
supported_scheme = "http"

abbrev pub default_metrics_path : String
default_metrics_path = "/metrics"

-- `if len(s) == 0 { s = d }`
unfoldable pub or_default : String → String → String
or_default s d = if str_eq s "" then d else s

abbrev pub or_enabled : Option Bool → Option Bool
or_enabled none = some true
or_enabled (some b) = some b

unfoldable pub default_scrape_service : ScrapeService → ScrapeService
default_scrape_service s = record s {
  format = or_default s.format supported_format;
  path = or_default s.path default_metrics_path;
  scheme = or_default s.scheme supported_scheme;
  enabled = or_enabled s.enabled;
}

unfoldable pub default_metrics : Trait → Trait
default_metrics t = record t {
  spec = record t.spec { scrape_service = default_scrape_service t.spec.scrape_service };
}

-- what is wrong: with the metadata (the library's answer), or with a value of the specification
pub data Fault : Type 0 where
  invalid_meta : String → Fault
  invalid_format : String → Fault
  invalid_scheme : String → Fault

abbrev pub fault_unless : String → String → Fault → List Fault
fault_unless s supported f = if not (str_eq s supported) then f ∷ [] else []

module _ (validate_object_meta : ObjectMeta → List Fault) where
  unfoldable pub validate_create : Trait → List Fault
  validate_create t =
      let s = t.spec.scrape_service in
      (validate_object_meta t.meta
        ++ fault_unless s.format supported_format (invalid_format s.format))
      ++ fault_unless s.scheme supported_scheme (invalid_scheme s.scheme)

  unfoldable pub validate_update : Trait → Trait → List Fault
  unfolding validate_create
  validate_update t old = validate_create t

  unfoldable pub handle_validating :
      Operation → Result Error Trait → Result Error Trait → Option (Response Fault Trait)
  unfolding validating_handle
  handle_validating operation obj old =
      validating_handle (λ t. some (validate_create t)) (λ t o. some (validate_update t o))
        operation obj old

unfoldable pub handle_mutating : (Trait → Option Error) → Result Error Trait → Response Fault Trait
unfolding mutating_handle
handle_mutating encode obj = mutating_handle default_metrics encode obj
