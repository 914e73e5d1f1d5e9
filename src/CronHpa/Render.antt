-- ===== src/CronHpa/Render.antt =====
-- The autoscaler for a resource (legacy/traits/cronhpatrait/controllers/cronhpa.go).
use kubevela_catalog.Base.{String, List, [], ◌∷◌, map, ◌<>◌}
use kubevela_catalog.Base.Exec.{Result}
use kubevela_catalog.K8s.{Error, Unstructured}
use kubevela_catalog.CronHpa.{Job, Trait, TargetJob, CronHpa, Api}

abbrev pub cron_hpa_kind : String
cron_hpa_kind = "CronHorizontalPodAutoscaler"

unfoldable pub convert_job : Job → TargetJob
convert_job j = record {
  name = j.name;
  schedule = j.schedule;
  run_once = j.run_once;
  target_size = j.target_size;
}

unfoldable pub convert_jobs : List Job → List TargetJob
convert_jobs jobs = map convert_job jobs

module _ (api : Api) where
  unfoldable pub cron_hpa_injector : Trait → Unstructured → CronHpa
  unfolding convert_jobs
  cron_hpa_injector t u = record {
    kind = cron_hpa_kind;
    api_version = api.cron_hpa_api_version;
    name = t.meta.name;
    namespace = t.meta.namespace;
    labels = ("cronhpatrait.oam.crossplane.io", t.meta.uid) ∷ [];
    exclude_dates = t.spec.exclude_dates;
    jobs = convert_jobs t.spec.jobs;
    scale_target_ref = record {
      api_version = api.group u <> "/" <> api.version u;
      kind = u.kind;
      name = u.name;
    };
  }

  unfoldable pub render_cron_hpa : Trait → Unstructured → Result Error CronHpa
  unfolding cron_hpa_injector
  render_cron_hpa t u = api.own t (cron_hpa_injector t u)
