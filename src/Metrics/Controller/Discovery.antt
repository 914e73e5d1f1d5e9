-- ===== src/Metrics/Controller/Discovery.antt =====
-- Which existing service the controller finds.
use kubevela_catalog.Base.{List, [], ◌∷◌, none, false, ◌≡◌, refl, arith}
use kubevela_catalog.Base.Exec.{ok, stop, ◌>>=◌}
use kubevela_catalog.K8s.{IntOrString, port_eq, Unstructured}
use kubevela_catalog.Metrics.{Item, service_port_item, other_item, Child, Call, Api}
use kubevela_catalog.Metrics.Controller.{
  zero_port, target_of, has_target, find_service, fetch_services_label,
}

-- No element is a corev1.ServicePort, as none is that was read out of an unstructured object.
abbrev pub AllOther : List Item → Type 0
AllOther [] = Unit
AllOther (service_port_item p ∷ is) = ⊥
AllOther (other_item ∷ is) = AllOther is

abbrev pub IsUntyped : List Child → Type 0
IsUntyped [] = Unit
IsUntyped (c ∷ cs) = AllOther c.ports × IsUntyped cs

has_target-AllOther :
    (target : IntOrString) (is : List Item)
    → AllOther is
    → port_eq zero_port target ≡ false
    → has_target target is ≡ false
unfolding has_target target_of
has_target-AllOther target [] o nonzero = refl
has_target-AllOther target (service_port_item p ∷ is) o nonzero = elim o [ ]
has_target-AllOther target (other_item ∷ is) o nonzero =
    rw nonzero (has_target-AllOther target is o nonzero)

find_service-IsUntyped :
    (api : Api) (target : IntOrString) (cs : List Child)
    → IsUntyped cs
    → port_eq zero_port target ≡ false
    → find_service api target cs ≡ none
unfolding find_service
find_service-IsUntyped api target [] u nonzero = refl
find_service-IsUntyped api target (c ∷ cs) (o, u) nonzero = ground (
  arith,
  has_target-AllOther target c.ports o nonzero,
  find_service-IsUntyped api target cs u nonzero,
)

-- If the trait gives a port that is not 0, no service among the children of the workload is ever
-- found, whatever ports it has: the elements read out of an unstructured object are never a
-- corev1.ServicePort.
pub no_service_found :
    (api : Api) (workload : Unstructured) (target : IntOrString) (cs : List Child) (h : List Call)
    → api.fetch_children workload h ≡ ok cs
    → IsUntyped cs
    → port_eq zero_port target ≡ false
    → (fetch_services_label api workload target h).0 ≡ stop (ok none)
unfolding fetch_services_label ◌>>=◌
no_service_found api workload target cs h fetched untyped nonzero =
    ground (arith, find_service-IsUntyped api target cs untyped nonzero)
