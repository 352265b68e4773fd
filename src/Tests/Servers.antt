-- ===== src/Tests/Servers.antt =====
-- The controller on a concrete API server.
use storebirth.Base.{◌≡◌, ◌≢◌, ◌++◌, refl, true, Option, none, some, Text, codes}
use storebirth.Names.{worker_url}
use storebirth.Platform.{WorkerAppSpec}
use storebirth.Kube.{answer, deployment, service, Object, a_service, a_deployment, put, WorkerApp}
use storebirth.Controller.{
  name, deployment_of, labels, service_of, route_host, worker_from_unstructured, Clients,
  ensure_all, reconcile,
}
use storebirth.Controller.Ensured.{name_of, ensured}
use storebirth.Controller.Converges.{reconcile-converges}
use storebirth.Controller.Events.{seen, on_add, on_update, on_delete, on_object_delete}
use storebirth.Controller.Stale.{on_update-stale_port}
use storebirth.Controller.Removal.{
  without_worker, on_delete-without_worker, Handled, on_object_delete-Handled,
}
use storebirth.Controller.Route.{worker_url-unrouted}
use storebirth.Controller.Refines.{Ends, ensure_all-Ends}
use storebirth.Controller.Reconcile.{told, Reconciled, reconcile-Reconciled}
use storebirth.Tests.Clusters.{Server, app_at, fields, api, api-IsApi, api-Serves, api-ServesApp}

abbrev spec : WorkerAppSpec
spec = record {
  worker_id = codes "1";
  owner_id = codes "ann";
  owner_sk = codes "key";
  image = codes "nginx";
  port = 8080;
}

abbrev clients : Clients
clients = record { k8s_client = true; dynamic_client = true; domain = codes "example.org" }

abbrev app : WorkerApp
app = app_at (codes "worker") (codes "w-1-ann") none

-- A Service with another port is there.
abbrev old_service : Option Object
old_service = some (a_service (service_of (record spec { port = 80 })))

abbrev server : Server
server = record {
  objects = put service (codes "w-1-ann") old_service (λ k n. none);
  statuses = λ namespace n. none;
}

abbrev cache : Text → Option WorkerApp
cache key = some app

ensure_all-Ends_example :
    Ends api api-IsApi clients spec server.objects
      (ensure_all api clients spec server).1.objects
      (ensure_all api clients spec server).0
ensure_all-Ends_example = ensure_all-Ends api api-IsApi clients spec server

reconcile-Reconciled_example :
    Reconciled api api-IsApi clients app
      (api-ServesApp (codes "worker") (codes "w-1-ann"))
      spec
      server.objects
      (reconcile api clients app server)
unfolding worker_from_unstructured
reconcile-Reconciled_example =
    reconcile-Reconciled api api-IsApi clients app
      (api-ServesApp (codes "worker") (codes "w-1-ann")) spec server refl

reconcile-converges_example :
    ((reconcile api clients app server).statuses (codes "worker") (codes "w-1-ann")
      ≡ some (told (answer tt)))
    × ((reconcile api clients app server).objects ≡ ensured clients.domain spec server.objects)
    × ((reconcile api clients app (reconcile api clients app server)).objects
        ≡ (reconcile api clients app server).objects)
unfolding worker_from_unstructured
reconcile-converges_example =
    reconcile-converges api clients app spec server api-IsApi api-Serves
      (api-ServesApp (codes "worker") (codes "w-1-ann")) refl refl refl

on_delete-without_worker_example :
    (on_delete api clients (seen app) server).objects
    ≡ without_worker clients.domain spec server.objects
unfolding worker_from_unstructured
on_delete-without_worker_example =
    on_delete-without_worker api clients spec app server api-Serves refl refl refl

on_object_delete-Handled_example :
    Handled api clients spec deployment app server
      (api.delete deployment (name_of clients.domain spec deployment) server).1
      (on_object_delete api clients deployment cache
        (seen (labels spec))
        (api.delete deployment (name_of clients.domain spec deployment) server).1)
unfolding worker_from_unstructured
on_object_delete-Handled_example =
    on_object_delete-Handled api clients spec cache app deployment server api-IsApi api-Serves
      (api-ServesApp (codes "worker") (codes "w-1-ann")) refl refl refl refl

-- The WorkerApp with a new port, and a server without objects.
abbrev new_app : WorkerApp
new_app = record app { generation = 3; spec = some (record fields { port = some 9090 }) }

abbrev empty : Server
empty = record server { objects = λ k n. none }

abbrev updated_server : Server
updated_server =
    on_update api clients (seen app) (seen new_app) (on_add api clients (seen app) empty)

on_update-stale_port_example :
    (updated_server.statuses (codes "worker") (codes "w-1-ann") ≡ some (told (answer tt)))
    × (updated_server.objects deployment (name spec)
        ≡ some (a_deployment (deployment_of (record spec { port = 9090 }))))
    × (updated_server.objects service (name spec) ≡ some (a_service (service_of spec)))
unfolding worker_from_unstructured
on_update-stale_port_example =
    on_update-stale_port api clients app new_app spec 9090 empty api-IsApi api-Serves
      (api-ServesApp (codes "worker") (codes "w-1-ann"))
      (api-ServesApp (codes "worker") (codes "w-1-ann")) refl refl refl refl refl refl

worker_url-unrouted_example :
    worker_url (codes "example.org") (codes "1") (codes "ann")
    ≢ codes "https://" ++ route_host (codes "example.org") spec
worker_url-unrouted_example = worker_url-unrouted (codes "example.org") spec
