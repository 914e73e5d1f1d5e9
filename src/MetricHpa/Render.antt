-- ===== src/MetricHpa/Render.antt =====
-- The objects that the MetricHPATrait's controller makes
-- (renderPrometheusResources of legacy/traits/metrichpatrait/controllers/helper.go, and the config
-- map and the scaled object of metrichpatrait_controller.go).
pub mod Consistent
use kubevela_catalog.Base.{String, List, [], ◌∷◌, ◌<>◌}
use kubevela_catalog.Base.Int.{ℤ, pos}
use kubevela_catalog.MetricHpa.{
  Trait, ConfigMap, config_map, empty_dir, Deployment, Service, ScaledObject, Api,
}

abbrev pub label_key : String
label_key = "extend.oam.dev/metrichpatrait"

abbrev pub default_prome_server_port : ℤ
default_prome_server_port = pos 9090

unfoldable pub prometheus_yml : String → String
prometheus_yml svc =
    "global:\n  scrape_interval: 5s\n  evaluation_interval: 5s\nscrape_configs:\n  - job_name: '"
    <> svc
    <> "'\n    kubernetes_sd_configs:\n    - role: endpoints\n    relabel_configs:\n    - source_labels: [__meta_kubernetes_endpoints_name]\n      regex: '"
    <> svc <> "'\n      action: keep"

unfoldable pub prome_config_map : Trait → ConfigMap
prome_config_map t = record {
  name = "prom-conf-" <> t.spec.workload_reference.name;
  namespace = t.meta.namespace;
  labels = (label_key, t.meta.uid) ∷ [];
  entries = ("prometheus.yml", prometheus_yml t.spec.workload_reference.name) ∷ [];
}

unfoldable pub prome_deployment : Trait → Deployment
prome_deployment t =
    let labels = ("app", "prometheus-server-" <> t.spec.workload_reference.name) ∷ [] in
    record {
      name = "prometheus-deployment-" <> t.spec.workload_reference.name;
      namespace = t.meta.namespace;
      replicas = pos 1;
      match_labels = labels;
      template_labels = labels;
      volumes =
          record {
            name = "prometheus-config-volume";
            source = config_map ("prom-conf-" <> t.spec.workload_reference.name);
          }
          ∷ record { name = "prometheus-storage-volume"; source = empty_dir }
          ∷ [];
      container = record {
        name = "prometheus";
        image = "prom/prometheus";
        args =
            "--config.file=/etc/prometheus/prometheus.yml" ∷ "--storage.tsdb.path=/prometheus/"
            ∷ [];
        container_port = default_prome_server_port;
        volume_mounts =
            record { name = "prometheus-config-volume"; mount_path = "/etc/prometheus/" }
            ∷ record { name = "prometheus-storage-volume"; mount_path = "/prometheus/" }
            ∷ [];
      };
    }

unfoldable pub prome_service : Trait → Service
prome_service t = record {
  name = "prometheus-service-" <> t.spec.workload_reference.name;
  namespace = t.meta.namespace;
  protocol = "TCP";
  port = pos 9090;
  selector = ("app", "prometheus-server-" <> t.spec.workload_reference.name) ∷ [];
}

unfoldable pub render_prometheus_resources : Trait → Deployment × Service
unfolding prome_deployment prome_service
render_prometheus_resources t = (prome_deployment t, prome_service t)

module _ (api : Api) where
  -- `"http://" + strings.Join(…, ".") + ":" + …`
  unfoldable pub server_address : String → String → String
  server_address name namespace =
      "http://"
      <> name
      <> "."
      <> namespace
      <> "."
      <> "svc.cluster.local"
      <> ":"
      <> api.show default_prome_server_port

  unfoldable pub scaled_object_of : Trait → String → ℤ → ScaledObject
  scaled_object_of t address threshold = record {
    name = t.meta.name;
    namespace = t.meta.namespace;
    deployment_name = t.spec.workload_reference.name;
    polling_interval = t.spec.polling_interval;
    cooldown_period = t.spec.cooldown_period;
    min_replica_count = t.spec.min_replica_count;
    max_replica_count = t.spec.max_replica_count;
    trigger_type = "prometheus";
    trigger_metadata =
        ("serverAddress", address)
        ∷ ("metricName", t.meta.name <> "-metric")
        ∷ ("threshold", api.show threshold)
        ∷ ("query", t.spec.prom_query)
        ∷ [];
  }
