-- ===== src/Controller/Stale.antt =====
-- Two specs of one worker after each other: the Service stays with the first one.
use storebirth.Base.{ℕ, ◌==◌, ◌≡◌, refl, ap, ◌∙◌, true, false, none, some, text_eq_iff}
use storebirth.Platform.{WorkerAppSpec}
use storebirth.Kube.{
  answer, deployment, service, a_deployment, a_service, WorkerApp, View, KubeApi, IsApi, Serves,
  ServesApp,
}
use storebirth.Controller.{
  name, deployment_of, service_of, worker_from_unstructured, Clients, reconcile,
}
use storebirth.Controller.Ensured.{ensured}
use storebirth.Controller.Reconcile.{told}
use storebirth.Controller.Converges.{reconcile-converges}
use storebirth.Controller.Events.{seen, on_add, on_update}

module _ {C : Type 0} (api : KubeApi C) (clients : Clients) where
  -- A WorkerApp is added whose worker has no Service, and then updated to another port. While the API
  -- server answers, both clients are set and the WorkerApp stays where it is, the phase ends as
  -- Running, with the Deployment of the new port and the Service of the old one.
  pub on_update-stale_port :
      (u u' : WorkerApp) (w : WorkerAppSpec) (port : ℕ) (c : C)
      → IsApi api
      → Serves api
      → ServesApp api u.namespace u.name
      → ServesApp api u'.namespace u'.name
      → clients.k8s_client ≡ true
      → clients.dynamic_client ≡ true
      → worker_from_unstructured u ≡ some w
      → worker_from_unstructured u' ≡ some (record w { port = port })
      → (u.generation == u'.generation) ≡ false
      → api.view c service (name w) ≡ none
      → let c' = on_update api clients (seen u) (seen u') (on_add api clients (seen u) c) in
        (api.status_of c' u'.namespace u'.name ≡ some (told (answer tt)))
        × (api.view c' deployment (name w)
            ≡ some (a_deployment (deployment_of (record w { port = port }))))
        × (api.view c' service (name w) ≡ some (a_service (service_of w)))
  unfolding on_update on_add
  on_update-stale_port u u' w port c law serves stays stays' e e' spec spec' newer missing =
      let w' = record w { port = port } in
      let c1 = reconcile api clients u c in
      let first = reconcile-converges api clients u w c law serves stays e e' spec in
      let second = reconcile-converges api clients u' w' c1 law serves stays' e e' spec' in
      let own = (text_eq_iff (name w) (name w)).1 refl in
      rw newer (
        second.0,
        ap (λ (v : View). v deployment (name w)) second.1 ∙ rw own refl,
        ap (λ (v : View). v service (name w)) second.1
            ∙ ap (λ (v : View). ensured clients.domain w' v service (name w)) first.1
            ∙ rw (own, missing) refl,
      )
