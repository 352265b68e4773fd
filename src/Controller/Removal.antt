-- ===== src/Controller/Removal.antt =====
-- Deletions: of a WorkerApp, with which all objects of the worker go, and of an object of a worker
-- that stays.
use storebirth.Base.{
  ◌≡◌, refl, sym, ap, ◌∙◌, true, Option, none, some, Text, text_eq, codes, ◌++◌, if◌then◌else◌,
}
use storebirth.Names.{worker_name}
use storebirth.Platform.{WorkerAppSpec}
use storebirth.Kube.{
  answer, Kind, deployment, service, config_map, secret, ingress_route, WorkerApp, View, put,
  KubeApi, IsApi, Serves, ServesApp,
}
use storebirth.Controller.{name, labels, worker_from_unstructured, Clients, delete_all, reconcile}
use storebirth.Controller.Ensured.{name_of, ensured}
use storebirth.Controller.Reconcile.{told}
use storebirth.Controller.Converges.{reconcile-converges}
use storebirth.Controller.Events.{label, seen, on_delete, on_sub_resource_delete, on_object_delete}

-- What is stored without the objects of a worker.
abbrev pub without_worker : Text → WorkerAppSpec → View → View
without_worker domain w v k n = if text_eq (name_of domain w k) n then none else v k n

abbrev pub all_deleted : Text → WorkerAppSpec → View → View
all_deleted domain w v = put ingress_route (name w) none (
    put secret (name_of domain w secret) none (
      put config_map (name_of domain w config_map) none
        (put service (name w) none (put deployment (name w) none v))))

deleted_at :
    (domain : Text) (w : WorkerAppSpec) (v : View) (k : Kind) (n : Text)
    → all_deleted domain w v k n ≡ without_worker domain w v k n
deleted_at domain w v config_map n = refl
deleted_at domain w v secret n = refl
deleted_at domain w v deployment n = refl
deleted_at domain w v service n = refl
deleted_at domain w v ingress_route n = refl

module _ {C : Type 0} (api : KubeApi C) (clients : Clients) (w : WorkerAppSpec) where
  delete_all-view :
      (c : C)
      → Serves api
      → clients.k8s_client ≡ true
      → clients.dynamic_client ≡ true
      → api.view (delete_all api clients w c) ≡ all_deleted clients.domain w (api.view c)
  unfolding delete_all
  delete_all-view c serves e e' =
      rw (e, e')
        (serves.view-delete ingress_route (name w) _
          ∙ ap (put ingress_route (name w) none) (
              serves.view-delete secret _ _
              ∙ ap (put secret _ none) (
                  serves.view-delete config_map _ _
                  ∙ ap (put config_map _ none) (
                      serves.view-delete service (name w) _
                      ∙ ap (put service (name w) none)
                          (serves.view-delete deployment (name w) c)))))

  -- While the API server answers and both clients are set, the deletion of a WorkerApp takes away the
  -- five objects of its worker and no other object.
  pub on_delete-without_worker :
      (u : WorkerApp) (c : C)
      → Serves api
      → clients.k8s_client ≡ true
      → clients.dynamic_client ≡ true
      → worker_from_unstructured u ≡ some w
      → api.view (on_delete api clients (seen u) c) ≡ without_worker clients.domain w (api.view c)
  unfolding on_delete
  on_delete-without_worker u c serves e e' spec =
      rw spec
        (delete_all-view c serves e e' ∙ λ i k n. deleted_at clients.domain w (api.view c) k n i)

  app_label : label (codes "app") (labels w) ≡ name w
  unfolding text_eq
  app_label = refl

  cached_app :
      (by_key : Text → Option WorkerApp) (u : WorkerApp) (c : C)
      → by_key (codes "worker/" ++ name w) ≡ some u
      → reconcile api clients u c ≡ on_sub_resource_delete api clients by_key (seen (labels w)) c
  unfolding on_sub_resource_delete worker_name text_eq
  cached_app by_key u c e = rw e refl

  -- What the deletion of an object of a kind leads to, from the state `c` before it and the state
  -- `deleted` after it to the state `handled`: for a kind that the controller watches, the objects
  -- are as the Ensure functions leave them, and the phase is Running; for another one, nothing happens.
  abbrev pub Handled : Kind → WorkerApp → C → C → C → Type 0
  Handled config_map u c deleted handled = handled ≡ deleted
  Handled secret u c deleted handled = handled ≡ deleted
  Handled k u c deleted handled =
      (api.view handled
        ≡ ensured clients.domain w (put k (name_of clients.domain w k) none (api.view c)))
      × (api.status_of handled u.namespace u.name ≡ some (told (answer tt)))

  remade :
      (by_key : Text → Option WorkerApp) (u : WorkerApp) (k : Kind) (c : C)
      → IsApi api
      → Serves api
      → ServesApp api u.namespace u.name
      → clients.k8s_client ≡ true
      → clients.dynamic_client ≡ true
      → worker_from_unstructured u ≡ some w
      → by_key (codes "worker/" ++ name w) ≡ some u
      → let deleted = (api.delete k (name_of clients.domain w k) c).1 in
        let handled = on_sub_resource_delete api clients by_key (seen (labels w)) deleted in
        (api.view handled
          ≡ ensured clients.domain w (put k (name_of clients.domain w k) none (api.view c)))
        × (api.status_of handled u.namespace u.name ≡ some (told (answer tt)))
  remade by_key u k c law serves stays e e' spec cached =
      let deleted = (api.delete k (name_of clients.domain w k) c).1 in
      let again = reconcile-converges api clients u w deleted law serves stays e e' spec in
      let same = cached_app by_key u deleted cached in
      (
        ap api.view (sym same) ∙ again.1 ∙ ap (ensured clients.domain w) (serves.view-delete k _ c),
        ap (λ (x : C). api.status_of x u.namespace u.name) (sym same) ∙ again.0,
      )

  -- While the API server answers and both clients are set, for a WorkerApp that stays where it is and
  -- that the cache holds under the name of its worker: when its Deployment, Service or IngressRoute is
  -- deleted, the handler of the deletion leaves the objects as the Ensure functions do, with the
  -- deleted one made again by the spec, and the phase is Running. When its ConfigMap or its Secret is
  -- deleted, nothing is done.
  pub on_object_delete-Handled :
      (by_key : Text → Option WorkerApp) (u : WorkerApp) (k : Kind) (c : C)
      → IsApi api
      → Serves api
      → ServesApp api u.namespace u.name
      → clients.k8s_client ≡ true
      → clients.dynamic_client ≡ true
      → worker_from_unstructured u ≡ some w
      → by_key (codes "worker/" ++ name w) ≡ some u
      → Handled k u c (api.delete k (name_of clients.domain w k) c).1 (
          on_object_delete api clients k by_key
            (seen (labels w))
            (api.delete k (name_of clients.domain w k) c).1)
  unfolding on_object_delete
  on_object_delete-Handled by_key u deployment c law serves stays e e' spec cached =
      remade by_key u deployment c law serves stays e e' spec cached
  on_object_delete-Handled by_key u service c law serves stays e e' spec cached =
      remade by_key u service c law serves stays e e' spec cached
  on_object_delete-Handled by_key u ingress_route c law serves stays e e' spec cached =
      remade by_key u ingress_route c law serves stays e e' spec cached
  on_object_delete-Handled by_key u config_map c law serves stays e e' spec cached = refl
  on_object_delete-Handled by_key u secret c law serves stays e e' spec cached = refl
