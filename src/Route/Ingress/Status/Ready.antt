-- ===== src/Route/Ingress/Status/Ready.antt =====
-- What a status "Ready" stands for.
use mathlib.Core.Path.{subst}
use kubevela_catalog.Base.{
  All, String, List, [], ◌∷◌, Option, none, some, true, not, ◌||◌, ◌≡◌, refl, ◌∙◌, ap, arith,
  str_eq, str_eq_iff, ◌<>◌,
}
use kubevela_catalog.Base.Exec.{Result, ok, err, stop}
use kubevela_catalog.Base.Exec.Ends.{
  Outcome, Ends, Ends-pure, Ends-return, Ends-fault, Ends-ask, Ends-if, Ends-bind, Ends-weaken,
}
use kubevela_catalog.K8s.{Error, key}
use kubevela_catalog.Route.{Tls, is_cluster_issuer, Route}
use kubevela_catalog.Route.Ingress.{Ingress}
use kubevela_catalog.Route.Server.{CertCondition, Address, Call, Api}
use kubevela_catalog.Route.Ingress.Status.{
  RouteIngress, status_ready, Checked, construct_by, synced, ready, use_client, first_condition,
  check_issuer, check_issuer_of, check_certificate, check_certificate_of, has_address, address_of,
  check_address, check_ingress, check_ingresses, check_status,
}

module _ (api : Api) where
  -- At some time the server gave the ingress with an address.
  pub record HasAddress (i : Ingress) : Type 0 where
    pub before : List Call
    pub addresses : List Address
    pub found : api.get_ingress (key i.namespace i.name) before ≡ ok addresses
    pub served : has_address api addresses ≡ true

  -- At some time the server gave the certificate of the ingress with a true condition "ready".
  pub record HasCertificate (route : Route) (i : Ingress) : Type 0 where
    pub before : List Call
    pub condition : CertCondition
    pub others : List CertCondition
    pub found :
        api.get_certificate (key route.meta.namespace (i.name <> "-cert")) before
        ≡ ok (condition ∷ others)
    pub is_true : condition.status ≡ api.condition_true
    pub is_ready : condition.condition_type ≡ api.certificate_ready

  -- with TLS, the certificate too
  abbrev pub Certified : Route → Ingress → Option Tls → Type 0
  Certified route i none = Unit
  Certified route i (some tls) = HasCertificate route i

  abbrev pub IsServing : Route → Ingress → Type 0
  IsServing route i = HasAddress i × Certified route i route.spec.tls

  synced-ready :
      {X : Type 0} (reason message : String) → (synced api reason message).status ≡ status_ready → X
  unfolding synced
  synced-ready reason message e = cc (ap (λ s. str_eq s "Ready") e)

-- an early return is not "Ready"
abbrev NotReady : Type 0 → Checked → Type 0
NotReady X r = r.status ≡ status_ready → X

module _ (api : Api) (ri : RouteIngress) (X : Type 0) where
  use_client-Ends : Ends (NotReady X) Unit (λ u. Unit) (use_client api ri)
  unfolding use_client
  use_client-Ends =
      Ends-if _ _ _ ri.has_client _ _ (λ e. Ends-pure _ _ _ tt tt) (λ e. Ends-fault _ _ _ tt)

  first_condition-Ends :
      (r : Result Error (List CertCondition)) (pending : String)
      → Ends
          (NotReady X)
          Unit
          (λ c. (cs : List CertCondition) × (r ≡ ok (c ∷ cs)))
          (first_condition api r pending)
  unfolding first_condition
  first_condition-Ends (err e) pending = Ends-return _ _ _ _ (synced-ready api _ _)
  first_condition-Ends (ok []) pending = Ends-return _ _ _ _ (synced-ready api _ _)
  first_condition-Ends (ok (c ∷ cs)) pending = Ends-pure _ _ _ c (cs, refl)

  check_issuer_of-Ends :
      (route : Route) (o : Option Tls)
      → Ends (NotReady X) Unit (λ u. Unit) (check_issuer_of api ri route o)
  unfolding check_issuer_of check_issuer
  check_issuer_of-Ends route none = Ends-pure _ _ _ tt tt
  check_issuer_of-Ends route (some tls) =
      Ends-if _ _ _ (not (is_cluster_issuer tls)) _ _
        (λ e.
          Ends-bind _ _ (λ u. Unit) _ _ _ use_client-Ends
            (λ u n.
              Ends-bind _ _ (λ r. Unit) _ _ _ (Ends-ask _ _ _ _ _ (λ h. tt))
                (λ r n. Ends-bind _ _ _ _ _ _ (first_condition-Ends r _) (λ c n.
                  Ends-if _ _ _ (not (str_eq c.status api.condition_true)) _ _
                    (λ e. Ends-return _ _ _ _ (synced-ready api _ _))
                    (λ e. Ends-pure _ _ _ tt tt)))))
        (λ e. Ends-pure _ _ _ tt tt)

  check_certificate_of-Ends :
      (route : Route) (i : Ingress) (o : Option Tls)
      → Ends
          (NotReady X)
          Unit
          (λ u. Certified api route i o)
          (check_certificate_of api ri route i o)
  unfolding check_certificate_of check_certificate
  check_certificate_of-Ends route i none = Ends-pure _ _ _ tt tt
  check_certificate_of-Ends route i (some tls) =
      let k = key route.meta.namespace (i.name <> "-cert") in
      Ends-bind _ _ (λ u. Unit) _ _ _ use_client-Ends
        (λ u n.
          Ends-bind _ _ (λ r. (h : List Call) × (api.get_certificate k h ≡ r)) _ _ _
            (Ends-ask _ _ _ _ _ (λ h. (h, refl)))
            (λ r (h, got). Ends-bind _ _ _ _ _ _ (first_condition-Ends r _) (λ c (cs, first).
              Ends-if _ _ _
                (not (str_eq c.status api.condition_true)
                  || not (str_eq c.condition_type api.certificate_ready))
                _ _ (λ e. Ends-return _ _ _ _ (synced-ready api _ _))
                (λ e. Ends-pure _ _ _ tt (record {
                  before = h;
                  condition = c;
                  others = cs;
                  found = got ∙ first;
                  is_true = ground (arith, str_eq_iff c.status api.condition_true);
                  is_ready = ground (arith, str_eq_iff c.condition_type api.certificate_ready);
                })))))

  address_of-Ends :
      (i : Ingress) (h : List Call) (r : Result Error (List Address))
      → api.get_ingress (key i.namespace i.name) h ≡ r
      → Ends (NotReady X) Unit (λ u. HasAddress api i) (address_of api i r)
  unfolding address_of
  address_of-Ends i h (err e) got = Ends-return _ _ _ _ (synced-ready api _ _)
  address_of-Ends i h (ok addresses) got =
      Ends-if _ _ _ (has_address api addresses) _ _
        (λ e.
          Ends-pure _ _ _ tt
            (record { before = h; addresses = addresses; found = got; served = e }))
        (λ e. Ends-return _ _ _ _ (synced-ready api _ _))

  check_address-Ends :
      (i : Ingress) → Ends (NotReady X) Unit (λ u. HasAddress api i) (check_address api ri i)
  unfolding check_address
  check_address-Ends i =
      let k = key i.namespace i.name in
      Ends-bind _ _ (λ u. Unit) _ _ _ use_client-Ends
        (λ u n.
          Ends-bind _ _ (λ r. (h : List Call) × (api.get_ingress k h ≡ r)) _ _ _
            (Ends-ask _ _ _ _ _ (λ h. (h, refl))) (λ r (h, got). address_of-Ends i h r got))

  check_ingresses-Ends :
      (route : Route) (is : List Ingress)
      → Ends (NotReady X) Unit (λ u. All (IsServing api route) is) (check_ingresses api ri route is)
  unfolding check_ingresses check_ingress
  check_ingresses-Ends route [] = Ends-pure _ _ _ tt tt
  check_ingresses-Ends route (i ∷ is) =
      Ends-bind _ _ (λ u. IsServing api route i) _ _ _
        (Ends-bind _ _ _ _ _ _ (check_certificate_of-Ends route i route.spec.tls) (λ u certified.
          Ends-weaken _ _ _ _ _ (check_address-Ends i) (λ u address. (address, certified))))
        (λ u serving.
          Ends-weaken _ _ _ _ _ (check_ingresses-Ends route is) (λ u all. (serving, all)))

-- If the check of the status returns "Ready", then for every ingress of the route the server
-- gave, at some time during the check, the ingress with an address, and with TLS also its
-- certificate with a true condition that says it is ready.
pub check_status-IsServing :
    (api : Api) (ri : RouteIngress) (route : Route) (h : List Call) (r : Checked)
    → (check_status api ri route h).0 ≡ stop r
    → r.status ≡ status_ready
    → All (IsServing api route) (construct_by api ri route)
unfolding check_status
check_status-IsServing api ri route h r returned is_ready =
    let X = All (IsServing api route) (construct_by api ri route) in
    let ends =
      Ends-bind (NotReady X) Unit (λ u. Unit) (λ c. Unit) _ _
        (check_issuer_of-Ends api ri X route route.spec.tls)
        (λ u n.
          Ends-bind _ _ _ _ _ _ (check_ingresses-Ends api ri X route (construct_by api ri route))
            (λ u all. Ends-return _ _ _ (ready api) (λ e. all))) in
    subst (Outcome (NotReady X) Unit (λ c. Unit)) returned (ends.at h) is_ready
