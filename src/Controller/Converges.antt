-- ===== src/Controller/Converges.antt =====
-- reconcile where the API server answers: the Ensure functions have their effect, once.
use storebirth.Base.{
  ◌≡◌, refl, sym, ap, ◌∙◌, inl, inr, Bool, true, false, Option, none, some, Option-cases, Text,
  codes,
}
use storebirth.Platform.{WorkerAppSpec}
use storebirth.Kube.{
  answer, K, ◌>>◌, Kind, deployment, service, config_map, secret, ingress_route, Object, Stored,
  WorkerApp, View, KubeApi, IsApi, Serves, ServesApp,
}
use storebirth.Controller.{
  worker_from_unstructured, Clients, with_client, no_client, create_missing, create_or_update,
  ensure_deployment, ensure_service, ensure_config_map, ensure_secret, ensure_ingress_route,
  ensure_all, reconcile,
}
use storebirth.Controller.Ensured.{ensured, ensured_twice}
use storebirth.Controller.Reconcile.{told, reconcile_done}

module _ {C : Type 0} (api : KubeApi C) (law : IsApi api) (serves : Serves api) where
  create_serves :
      (k : Kind) (n : Text) (o : Object) (c : C)
      → api.view c k n ≡ none
      → (api.create k n o (api.get k n c).1).0 ≡ answer tt
  create_serves k n o c e =
      serves.create-answer k n o _ (ap (λ (v : View). v k n) (law.view-get k n c) ∙ e)

  create_missing_serves :
      (k : Kind) (n : Text) (o : Object) (c : C) → (create_missing api k n o c).0 ≡ answer tt
  unfolding create_missing
  create_missing_serves k n o c = elim (Option-cases (api.view c k n)) [
    | inl e ↦
        let (x, missing, b) = serves.get-not_found k n c e in
        rw (missing, b) (create_serves k n o c e)
    | inr (old, e) ↦ let (s, found) = serves.get-stored k n c old e in rw found refl
  ]

  create_or_update_serves :
      (version : Stored → Option Text) (k : Kind) (n : Text) (o : Object) (c : C)
      → ((s : Stored)
          → (api.get k n c).0 ≡ answer s
          → (api.update k n (version s) o (api.get k n c).1).0 ≡ answer tt)
      → (create_or_update api version k n o c).0 ≡ answer tt
  unfolding create_or_update
  create_or_update_serves version k n o c h = elim (Option-cases (api.view c k n)) [
    | inl e ↦
        let (x, missing, b) = serves.get-not_found k n c e in
        rw (missing, b) (create_serves k n o c e)
    | inr (old, e) ↦ let (s, found) = serves.get-stored k n c old e in rw found (h s found)
  ]

  deployment_updated :
      (k : Kind) (n : Text) (o : Object) (c : C) (s : Stored)
      → (api.get k n c).0 ≡ answer s
      → (api.update k n none o (api.get k n c).1).0 ≡ answer tt
  deployment_updated k n o c s e =
      serves.update-answer k n o s.object _
        (ap (λ (v : View). v k n) (law.view-get k n c) ∙ law.get-answer k n c s e)

  abbrev Always : K C (Unit {0}) → Type 0
  Always m = (c : C) → (m c).0 ≡ answer tt

  then-Always : (m rest : K C (Unit {0})) → Always m → Always rest → Always (m >> rest)
  then-Always m rest h h' c = rw (h c) (h' (m c).1)

  client-Always :
      (b : Bool) (what : Text) (m : K C (Unit {0}))
      → b ≡ true
      → Always m
      → Always (with_client b what m)
  client-Always true what m e h = h
  client-Always false what m e h = absurd (cc)

  module _ (clients : Clients) (w : WorkerAppSpec) where
    config_map-Always : clients.k8s_client ≡ true → Always (ensure_config_map api clients w)
    unfolding ensure_config_map
    config_map-Always e = client-Always _ no_client _ e (create_missing_serves config_map _ _)

    secret-Always : clients.k8s_client ≡ true → Always (ensure_secret api clients w)
    unfolding ensure_secret
    secret-Always e = client-Always _ no_client _ e (create_missing_serves secret _ _)

    service-Always : clients.k8s_client ≡ true → Always (ensure_service api clients w)
    unfolding ensure_service
    service-Always e = client-Always _ no_client _ e (create_missing_serves service _ _)

    deployment-Always : clients.k8s_client ≡ true → Always (ensure_deployment api clients w)
    unfolding ensure_deployment
    deployment-Always e = client-Always _ no_client _ e (λ c.
        create_or_update_serves (λ _. none) deployment _ _ c (deployment_updated deployment _ _ c))

    ingress_route-Always :
        clients.dynamic_client ≡ true → Always (ensure_ingress_route api clients w)
    unfolding ensure_ingress_route
    ingress_route-Always e = client-Always _ (codes "dynamic client not initialized") _ e (λ c.
        create_or_update_serves (λ s. some s.resource_version) ingress_route _ _ c
          (serves.update-read ingress_route _ _ c))

    ensure_all-Always :
        clients.k8s_client ≡ true
        → clients.dynamic_client ≡ true
        → Always (ensure_all api clients w)
    unfolding ensure_all
    ensure_all-Always e e' = then-Always (ensure_config_map api clients w) _ (config_map-Always e) (
        then-Always (ensure_secret api clients w) _ (secret-Always e) (
          then-Always (ensure_deployment api clients w) _ (deployment-Always e) (
            then-Always (ensure_service api clients w) (ensure_ingress_route api clients w)
              (service-Always e) (ingress_route-Always e'))))

-- While the API server answers, both clients are set and the WorkerApp stays where it is, reconcile
-- ends with the phase Running; the Deployment and the IngressRoute are those of the spec, a
-- ConfigMap, a Secret or a Service that was missing is the one of the spec, and one that was there is
-- as it was, even where it is not that of the spec; no other object changes; and to reconcile the
-- WorkerApp again changes no object.
pub reconcile-converges :
    {C : Type 0} (api : KubeApi C) (clients : Clients) (u : WorkerApp) (w : WorkerAppSpec) (c : C)
    → IsApi api
    → Serves api
    → ServesApp api u.namespace u.name
    → clients.k8s_client ≡ true
    → clients.dynamic_client ≡ true
    → worker_from_unstructured u ≡ some w
    → (api.status_of (reconcile api clients u c) u.namespace u.name ≡ some (told (answer tt)))
      × (api.view (reconcile api clients u c) ≡ ensured clients.domain w (api.view c))
      × (api.view (reconcile api clients u (reconcile api clients u c))
          ≡ api.view (reconcile api clients u c))
reconcile-converges api clients u w c law serves stays e e' spec =
    let always = ensure_all-Always api law serves clients w e e' in
    let once = reconcile_done api law clients u stays w c spec always in
    let twice = reconcile_done api law clients u stays w (reconcile api clients u c) spec always in
    (
      once.0,
      once.1,
      twice.1
          ∙ ap (ensured clients.domain w) once.1
          ∙ ensured_twice clients.domain w (api.view c)
          ∙ sym once.1,
    )
