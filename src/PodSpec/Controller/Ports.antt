-- ===== src/PodSpec/Controller/Ports.antt =====
-- The ports of the service that is made for a workload.
use mathlib.Core.List.{map-append}
use kubevela_catalog.Base.{
  ℕ, ◌+◌, ◌≤◌, zero, suc, List, [], ◌∷◌, ◌++◌, some, ◌≡◌, refl, ◌≢◌, ◌∙◌, sym, ap, arith, str_eq,
  Bool-cases, inl, inr, map, ltb, length, length-append, get_elem?,
}
use kubevela_catalog.Base.Int.{ℤ, pos, add32, add32_pos}
use kubevela_catalog.K8s.{Kube}
use kubevela_catalog.PodSpec.{ContainerPort, Container, ServicePort, Workload, Api}
use kubevela_catalog.PodSpec.Controller.{
  default_protocol, default_protocols, check_container_ports_specified, service_ports_of,
  advance_port, service_ports, render_deployment,
}

-- the ports of all containers, in their order
unfoldable pub all_ports : List Container → List ContainerPort
all_ports [] = []
all_ports (c ∷ cs) = c.ports ++ all_ports cs

-- the entry of the service for a port of a container
abbrev pub entry : Kube → ℤ → ContainerPort → ServicePort
entry kube n p = record {
  name = p.name;
  protocol = p.protocol;
  port = n;
  target_port = kube.from_int p.container_port;
}

module _ (kube : Kube) where
  service_ports_of-append :
      (n : ℤ) (ps qs : List ContainerPort)
      → service_ports_of kube n (ps ++ qs)
        ≡ service_ports_of kube n ps ++ service_ports_of kube (advance_port kube n ps) qs
  unfolding service_ports_of advance_port
  service_ports_of-append n [] qs = refl
  service_ports_of-append n (p ∷ ps) qs =
      ap (λ rest. entry kube n p ∷ rest) (service_ports_of-append (add32 n (pos 1)) ps qs)

  flatten :
      (n : ℤ) (cs : List Container)
      → service_ports kube n cs ≡ service_ports_of kube n (all_ports cs)
  unfolding service_ports service_ports_of all_ports
  flatten n [] = refl
  flatten n (c ∷ cs) =
      ap (λ rest. service_ports_of kube n c.ports ++ rest)
        (flatten (advance_port kube n c.ports) cs)
      ∙ sym (service_ports_of-append n c.ports (all_ports cs))

  numbered :
      (n i : ℕ) (ps : List ContainerPort) (p : ContainerPort)
      → n + length ps ≤ 2147483648
      → get_elem? ps i ≡ some p
      → get_elem? (service_ports_of kube (pos n) ps) i ≡ some (entry kube (pos (n + i)) p)
  unfolding service_ports_of
  numbered n i [] p small at_i = cc at_i
  numbered n zero (q ∷ ps) p small at_i = ground (arith, at_i)
  numbered n (suc i) (q ∷ []) p small at_i = cc at_i
  numbered n (suc i) (q ∷ r ∷ ps) p small at_i =
      ground (arith, add32_pos n 1 (omega arith), numbered (n + 1) i (r ∷ ps) p (omega arith) at_i)

  length-service_ports_of :
      (n : ℤ) (ps : List ContainerPort) → length (service_ports_of kube n ps) ≡ length ps
  unfolding service_ports_of
  length-service_ports_of n [] = refl
  length-service_ports_of n (p ∷ ps) = ap suc (length-service_ports_of (add32 n (pos 1)) ps)

  -- The service has one port for each port of the containers, in their order: the port at index i
  -- has the number 8080 + i, and targets that port of the container. The ports must be few enough
  -- for an int32.
  pub service_ports_numbered :
      (cs : List Container) (i : ℕ) (p : ContainerPort)
      → 8080 + length (all_ports cs) ≤ 2147483648
      → get_elem? (all_ports cs) i ≡ some p
      → (length (service_ports kube (pos 8080) cs) ≡ length (all_ports cs))
        × (get_elem? (service_ports kube (pos 8080) cs) i ≡ some (entry kube (pos (8080 + i)) p))
  service_ports_numbered cs i p small at_i = (
    ap length (flatten (pos 8080) cs) ∙ length-service_ports_of (pos 8080) (all_ports cs),
    ap (λ l. get_elem? l i) (flatten (pos 8080) cs) ∙ numbered 8080 i (all_ports cs) p small at_i,
  )

  specified :
      (cs : List Container) → check_container_ports_specified cs ≡ ltb 0 (length (all_ports cs))
  unfolding check_container_ports_specified all_ports
  specified [] = refl
  specified (c ∷ cs) = ground (arith, specified cs, length-append c.ports (all_ports cs))

  -- The controller makes a service exactly if the service has a port.
  pub check-service_ports :
      (cs : List Container)
      → check_container_ports_specified cs ≡ ltb 0 (length (service_ports kube (pos 8080) cs))
  check-service_ports cs =
      specified cs
      ∙ sym (
          ap (ltb 0)
            (ap length (flatten (pos 8080) cs) ∙ length-service_ports_of (pos 8080) (all_ports cs)))

abbrev pub AllProtocols : List ServicePort → Type 0
AllProtocols [] = Unit
AllProtocols (p ∷ ps) = (p.protocol ≢ "") × AllProtocols ps

default_protocol-set : (p : ContainerPort) → (default_protocol p).protocol ≢ ""
unfolding default_protocol
default_protocol-set p = elim (Bool-cases (str_eq p.protocol "")) [
  | inl unset ↦ rw unset (λ e. cc e)
  | inr given ↦ rw given (λ e. cc (given, e))
]

all_ports-default :
    (cs : List Container) → all_ports (default_protocols cs) ≡ map default_protocol (all_ports cs)
unfolding all_ports default_protocols
all_ports-default [] = refl
all_ports-default (c ∷ cs) =
    ap (λ rest. map default_protocol c.ports ++ rest) (all_ports-default cs)
    ∙ sym (map-append default_protocol c.ports (all_ports cs))

module _ (kube : Kube) where
  service_ports_of-AllProtocols :
      (n : ℤ) (ps : List ContainerPort)
      → AllProtocols (service_ports_of kube n (map default_protocol ps))
  unfolding service_ports_of
  service_ports_of-AllProtocols n [] = tt
  service_ports_of-AllProtocols n (p ∷ ps) =
      (default_protocol-set p, service_ports_of-AllProtocols (add32 n (pos 1)) ps)

-- After a deployment was rendered, every port of the service for the same workload has a
-- protocol: the deployment shares its containers with the workload, so that the defaults that
-- are set in the one show in the other.
pub render_deployment-AllProtocols :
    (api : Api) (w : Workload) (n : ℤ)
    → AllProtocols (service_ports api.kube n (render_deployment api w).0.containers)
unfolding render_deployment
render_deployment-AllProtocols api w n =
    rw (flatten api.kube n (default_protocols w.containers), all_ports-default w.containers)
      (service_ports_of-AllProtocols api.kube n (all_ports w.containers))
