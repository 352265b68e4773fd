-- ===== src/Controller.antt =====
-- k8s/controller/worker.go and worker.controller.go: how the controller turns a WorkerApp into the
-- objects of a worker, and what it does on the events of its informers.
pub mod Ensured
pub mod Refines
pub mod Reconcile
pub mod Converges
pub mod Events
pub mod Removal
pub mod Route
pub mod Stale
pub mod Crd
pub mod Listing
use storebirth.Base.{
  ℕ, ◌%◌, ◌==◌, List, [], ◌∷◌, ◌++◌, Bool, true, false, Option, none, some, Text, text_eq, codes,
  if◌then◌else◌,
}
use storebirth.Names.{worker_name, env_config_map_name, secret_name}
use storebirth.Jobs.{StringMap}
use storebirth.Platform.{WorkerAppSpec}
use storebirth.Kube.{
  ApiError, Answer, answer, refused, K, done, refuse, ◌>>◌, Kind, deployment, service, config_map,
  secret, ingress_route, Deployment, Service, DataMap, IngressRoute, Object, a_deployment,
  a_service, a_data_map, an_ingress_route, Stored, AppStatus, AppFields, WorkerApp, KubeApi,
}

-- WorkerAppSpec.Name
abbrev pub name : WorkerAppSpec → Text
name w = worker_name w.worker_id w.owner_id

-- WorkerAppSpec.Labels
abbrev pub labels : WorkerAppSpec → StringMap
labels w =
    (codes "app", name w) ∷ (codes "worker-id", w.worker_id) ∷ (codes "owner-id", w.owner_id) ∷ []

-- int32(port); the conversion keeps the low 32 bits, which are all that is shown of it here.
abbrev pub int32 : ℕ → ℕ
int32 port = port % 4294967296

-- WorkerAppSpec.CombinatorEndpoint
abbrev pub combinator_endpoint : Text
combinator_endpoint = codes "http://combinator.combinator.svc.cluster.local:8899"

-- The Deployment of EnsureDeployment
abbrev pub deployment_of : WorkerAppSpec → Deployment
deployment_of w = record {
  labels = labels w;
  replicas = 1;
  match_labels = (codes "app", name w) ∷ [];
  template_labels = labels w;
  near = (
    100,
    (codes "app", codes "combinator") ∷ [],
    codes "combinator",
    codes "kubernetes.io/hostname",
  );
  container_name = name w;
  image = w.image;
  container_port = int32 w.port;
  env =
      (codes "COMBINATOR_API_ENDPOINT", combinator_endpoint)
      ∷ (codes "RAYSAIL_UID", w.owner_id)
      ∷ (codes "RAYSAIL_SECRET_KEY", w.owner_sk)
      ∷ [];
  env_config_map = env_config_map_name w.worker_id w.owner_id;
  env_secret = secret_name w.worker_id w.owner_id;
}

-- The Service of EnsureService
abbrev pub service_of : WorkerAppSpec → Service
service_of w = record {
  labels = labels w;
  selector = (codes "app", name w) ∷ [];
  port = int32 w.port;
}

-- The ConfigMap of EnsureConfigMap, and the Secret of EnsureSecret
abbrev pub empty_data : WorkerAppSpec → DataMap
empty_data w = record { labels = labels w; entries = [] }

-- The host of EnsureIngressRoute
unfoldable pub route_host : Text → WorkerAppSpec → Text
route_host domain w = w.worker_id ++ (codes "-" ++ (w.owner_id ++ (codes ".worker." ++ domain)))

-- The IngressRoute of EnsureIngressRoute
unfoldable pub route_of : Text → WorkerAppSpec → IngressRoute
unfolding route_host
route_of domain w = record {
  labels = labels w;
  entry_point = codes "websecure";
  rule = codes "Host(`" ++ (route_host domain w ++ codes "`)");
  service_name = name w;
  service_port = w.port;
  tls_secret = codes "worker-tls";
}

-- fmt.Sprintf("%v", …) of a field of a spec
abbrev pub shown : Option Text → Text
shown none = codes "<nil>"
shown (some text) = text

abbrev pub port_of : Option ℕ → ℕ
port_of none = 0
port_of (some port) = port

abbrev pub spec_of_fields : Option AppFields → Option WorkerAppSpec
spec_of_fields none = none
spec_of_fields (some f) = some (record {
  worker_id = shown f.worker_id;
  owner_id = shown f.owner_id;
  owner_sk = shown f.owner_sk;
  image = shown f.image;
  port = port_of f.port;
})

-- workerFromUnstructured
unfoldable pub worker_from_unstructured : WorkerApp → Option WorkerAppSpec
worker_from_unstructured u = spec_of_fields u.spec

-- The clients of package k8s, where they are set, and its variable Domain.
pub record Clients : Type 0 where
  pub k8s_client : Bool
  pub dynamic_client : Bool
  pub domain : Text

abbrev pub no_client : Text
no_client = codes "k8s client not initialized"

module _ {C : Type 0} where
  -- `if … == nil { return … }`
  abbrev pub with_client : Bool → Text → K C (Unit {0}) → K C (Unit {0})
  with_client true what m = m
  with_client false what m = refuse (record { is_not_found = false; text = what })

module _ {C : Type 0} (api : KubeApi C) where
  -- After a Get: Create if the error says that nothing was found.
  abbrev pub if_missing : Kind → Text → Object → Answer Stored → K C (Unit {0})
  if_missing k n o (answer s) = done tt
  if_missing k n o (refused e) = if e.is_not_found then api.create k n o else refuse e

  -- After a Get: Create if the error says that nothing was found, Update if something was.
  abbrev pub or_update :
      (Stored → Option Text) → Kind → Text → Object → Answer Stored → K C (Unit {0})
  or_update version k n o (answer s) = api.update k n (version s) o
  or_update version k n o (refused e) = if e.is_not_found then api.create k n o else refuse e

  unfoldable pub create_missing : Kind → Text → Object → K C (Unit {0})
  create_missing k n o c = if_missing k n o (api.get k n c).0 (api.get k n c).1

  unfoldable pub create_or_update : (Stored → Option Text) → Kind → Text → Object → K C (Unit {0})
  create_or_update version k n o c = or_update version k n o (api.get k n c).0 (api.get k n c).1

  module _ (clients : Clients) where
    unfoldable pub ensure_deployment : WorkerAppSpec → K C (Unit {0})
    unfolding create_or_update
    ensure_deployment w =
        with_client clients.k8s_client no_client
          (create_or_update (λ _. none) deployment (name w) (a_deployment (deployment_of w)))

    unfoldable pub ensure_service : WorkerAppSpec → K C (Unit {0})
    unfolding create_missing
    ensure_service w =
        with_client clients.k8s_client no_client
          (create_missing service (name w) (a_service (service_of w)))

    unfoldable pub ensure_config_map : WorkerAppSpec → K C (Unit {0})
    unfolding create_missing
    ensure_config_map w = with_client clients.k8s_client no_client (
        create_missing config_map (env_config_map_name w.worker_id w.owner_id)
          (a_data_map (empty_data w)))

    unfoldable pub ensure_secret : WorkerAppSpec → K C (Unit {0})
    unfolding create_missing
    ensure_secret w =
        with_client clients.k8s_client no_client
          (create_missing secret (secret_name w.worker_id w.owner_id) (a_data_map (empty_data w)))

    unfoldable pub ensure_ingress_route : WorkerAppSpec → K C (Unit {0})
    unfolding create_or_update route_of
    ensure_ingress_route w =
        with_client clients.dynamic_client (codes "dynamic client not initialized") (
          create_or_update (λ s. some s.resource_version) ingress_route (name w)
            (an_ingress_route (route_of clients.domain w)))

    -- The five calls of reconcile, each after the success of the one before.
    unfoldable pub ensure_all : WorkerAppSpec → K C (Unit {0})
    unfolding ensure_config_map ensure_secret ensure_deployment ensure_service ensure_ingress_route
    ensure_all w = do
      ensure_config_map w
      ensure_secret w
      ensure_deployment w
      ensure_service w
      ensure_ingress_route w

    -- DeleteAll looks at no error.
    unfoldable pub delete_all : WorkerAppSpec → C → C
    delete_all w c =
        let n = name w in
        let c' =
          if clients.k8s_client
          then (api.delete secret (secret_name w.worker_id w.owner_id)
              (api.delete config_map (env_config_map_name w.worker_id w.owner_id)
                (api.delete service n (api.delete deployment n c).1).1).1).1
          else c in
        if clients.dynamic_client then (api.delete ingress_route n c').1 else c'

    abbrev pub status_read : AppStatus → Answer WorkerApp → C → C
    status_read st (answer latest) c = (api.update_status (record latest { status = some st }) c).1
    status_read st (refused e) c = c

    -- Controller.updateStatus logs an error, and no more.
    unfoldable pub update_status : WorkerApp → Text → Text → C → C
    update_status u phase note c =
        status_read (record { phase = phase; note = note }) (api.get_app u.namespace u.name c).0
          (api.get_app u.namespace u.name c).1

    -- The last status of reconcile: Failed with the first error, or Running.
    abbrev pub report : WorkerApp → Answer (Unit {0}) → C → C
    report u (answer _) = update_status u (codes "Running") []
    report u (refused e) = update_status u (codes "Failed") e.text

    abbrev pub reconcile_spec : WorkerApp → Option WorkerAppSpec → C → C
    reconcile_spec u none c = c
    reconcile_spec u (some w) c =
        let c' = update_status u (codes "Deploying") [] c in
        report u (ensure_all w c').0 (ensure_all w c').1

    unfoldable pub reconcile : WorkerApp → C → C
    unfolding update_status ensure_all worker_from_unstructured
    reconcile u = reconcile_spec u (worker_from_unstructured u)
