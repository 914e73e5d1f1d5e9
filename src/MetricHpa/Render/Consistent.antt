-- ===== src/MetricHpa/Render/Consistent.antt =====
-- The Prometheus objects fit together.
use mathlib.Core.List.{Memᴰ}
use kubevela_catalog.Base.{All, map, ◌≡◌, refl}
use kubevela_catalog.MetricHpa.{
  Trait, ConfigMap, config_map, Volume, VolumeMount, Deployment, Service,
}
use kubevela_catalog.MetricHpa.Render.{
  prome_config_map, prome_deployment, prome_service, render_prometheus_resources,
}

-- The container mounts volumes that the pod declares, and one of those is the configuration.
pub record IsMounted (c : ConfigMap) (d : Deployment) : Type 0 where
  pub declared :
      All
        (λ (m : VolumeMount). Memᴰ m.name (map (λ (v : Volume). v.name) d.volumes))
        d.container.volume_mounts
  pub configured : Memᴰ (config_map c.name) (map (λ (v : Volume). v.source) d.volumes)

-- The service leads to the deployment's pods, which the deployment finds by the same labels.
pub record IsServed (d : Deployment) (s : Service) : Type 0 where
  pub selected : s.selector ≡ d.template_labels
  pub matched : d.match_labels ≡ d.template_labels
  pub port : s.port ≡ d.container.container_port
  pub near : s.namespace ≡ d.namespace

-- For every trait, the Prometheus container mounts volumes that its pod declares, one of which is
-- the config map that the controller applies, in the same namespace; the service selects the
-- pods of the deployment by their labels and leads to the port of their container.
pub render-IsServed :
    (t : Trait)
    → let (d, s) = render_prometheus_resources t in
      IsMounted (prome_config_map t) d
      × IsServed d s
      × ((prome_config_map t).namespace ≡ d.namespace)
unfolding render_prometheus_resources prome_config_map prome_deployment prome_service
render-IsServed t = (
  record {
    declared = (Memᴰ.head refl, (Memᴰ.tail (Memᴰ.head refl), tt));
    configured = Memᴰ.head refl;
  },
  record { selected = refl; matched = refl; port = refl; near = refl },
  refl,
)
