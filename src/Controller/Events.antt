-- ===== src/Controller/Events.antt =====
-- The handlers that the controller registers with its informers (worker.controller.go).
use storebirth.Base.{◌==◌, [], ◌∷◌, ◌++◌, Option, none, some, Text, text_eq, codes, if◌then◌else◌}
use storebirth.Jobs.{StringMap}
use storebirth.Platform.{WorkerAppSpec}
use storebirth.Kube.{
  Kind, deployment, service, config_map, secret, ingress_route, WorkerApp, KubeApi,
}
use storebirth.Controller.{worker_from_unstructured, Clients, delete_all, reconcile}

-- What an informer hands to a handler: an object, or something that the type assertion refuses,
-- as the DeletedFinalStateUnknown of a deletion that the informer missed.
pub data Seen (A : Type 0) : Type 0 where
  seen : A → Seen A
  not_seen : Seen A

-- GetLabels()[key]; a key that is not there gives the empty text.
abbrev pub label : Text → StringMap → Text
label key [] = []
label key ((k, v) ∷ rest) = if text_eq k key then v else label key rest

-- What a ConfigMap or a Secret shows to onConfigUpdate.
pub record Meta : Type 0 where
  pub resource_version : Text
  pub labels : StringMap

module _ {C : Type 0} (api : KubeApi C) (clients : Clients) where
  -- onAdd
  unfoldable pub on_add : Seen WorkerApp → C → C
  unfolding reconcile
  on_add not_seen c = c
  on_add (seen u) c = reconcile api clients u c

  -- onUpdate: nothing is done where the generation is the same.
  unfoldable pub on_update : Seen WorkerApp → Seen WorkerApp → C → C
  unfolding reconcile
  on_update (seen old) (seen new) c =
      if old.generation == new.generation then c else reconcile api clients new c
  on_update _ _ c = c

  abbrev pub delete_spec : Option WorkerAppSpec → C → C
  delete_spec none c = c
  delete_spec (some w) c = delete_all api clients w c

  -- onDelete
  unfoldable pub on_delete : Seen WorkerApp → C → C
  unfolding worker_from_unstructured delete_all
  on_delete not_seen c = c
  on_delete (seen u) c = delete_spec (worker_from_unstructured u) c

  abbrev pub reconcile_cached : Option WorkerApp → C → C
  reconcile_cached none c = c
  reconcile_cached (some u) c = reconcile api clients u c

  abbrev pub delete_seen : (Text → Option WorkerApp) → Text → C → C
  delete_seen by_key [] c = c
  delete_seen by_key (x ∷ app) c = reconcile_cached (by_key (codes "worker/" ++ (x ∷ app))) c

  -- onSubResourceDelete, with the labels of the object that was deleted. `by_key` is GetByKey of the
  -- store of the informer, without a value where there is an error, no item, or no WorkerApp.
  unfoldable pub on_sub_resource_delete : (Text → Option WorkerApp) → Seen StringMap → C → C
  unfolding reconcile text_eq
  on_sub_resource_delete by_key not_seen c = c
  on_sub_resource_delete by_key (seen labels) c = delete_seen by_key (label (codes "app") labels) c

  -- Start registers the handler of deletions for Deployments, Services and IngressRoutes.
  unfoldable pub on_object_delete : Kind → (Text → Option WorkerApp) → Seen StringMap → C → C
  unfolding on_sub_resource_delete
  on_object_delete deployment = on_sub_resource_delete
  on_object_delete service = on_sub_resource_delete
  on_object_delete ingress_route = on_sub_resource_delete
  on_object_delete config_map = λ by_key o c. c
  on_object_delete secret = λ by_key o c. c

  -- restartDeployment, at the Unix time `now` in decimal
  unfoldable pub restart_deployment : Text → Text → C → C
  restart_deployment now name c = if clients.k8s_client then (api.patch_restart name now c).1 else c

  abbrev pub restart_labelled : Text → Text → C → C
  restart_labelled now [] c = c
  restart_labelled now (x ∷ app) c = restart_deployment now (x ∷ app) c

  -- onConfigUpdate
  unfoldable pub on_config_update : Text → Seen Meta → Seen Meta → C → C
  unfolding restart_deployment text_eq
  on_config_update now (seen old) (seen cur) c =
      if text_eq old.resource_version cur.resource_version
      then c
      else restart_labelled now (label (codes "app") cur.labels) c
  on_config_update now _ _ c = c
