-- ===== src/Kube.antt =====
-- The Kubernetes API as the controller of k8s/controller meets it: the objects of the five kinds
-- that make up a worker, the WorkerApp resources, and what the API documents of its calls.
use storebirth.Base.{
  ℕ, ◌≡◌, ◌⊎◌, Bool, true, false, ◌&&◌, Option, none, some, Text, text_eq, if◌then◌else◌,
}
use storebirth.Jobs.{StringMap}

-- An error of the API; `is_not_found` is what errors.IsNotFound says of it.
pub record ApiError : Type 0 where
  pub is_not_found : Bool
  pub text : Text

pub data Answer (A : Type 0) : Type 0 where
  answer : A → Answer A
  refused : ApiError → Answer A

abbrev pub K : Type 0 → Type 0 → Type 0
K C A = C → Answer A × C

module _ {C A : Type 0} where
  abbrev pub done : A → K C A
  done a c = (answer a, c)

  abbrev pub refuse : ApiError → K C A
  refuse e c = (refused e, c)

module _ {C A B : Type 0} where
  abbrev pub continue : Answer A → K C B → K C B
  continue (answer a) k c = k c
  continue (refused e) k c = (refused e, c)

  -- `if err := …; err != nil { return err }`, and then the next call
  infixl 5 ◌>>◌
  abbrev pub ◌>>◌ : K C A → K C B → K C B
  ◌>>◌ m k c = continue (m c).0 k (m c).1

-- The kinds of the objects of a worker. A kind also says the namespace: ingress for IngressRoutes,
-- worker for the others.
pub data Kind : Type 0 where
  deployment service config_map secret ingress_route : Kind

abbrev pub kind_eq : Kind → Kind → Bool
kind_eq deployment deployment = true
kind_eq service service = true
kind_eq config_map config_map = true
kind_eq secret secret = true
kind_eq ingress_route ingress_route = true
kind_eq _ _ = false

pub record Deployment : Type 0 where
  pub labels : StringMap
  pub replicas : ℕ
  pub match_labels : StringMap
  pub template_labels : StringMap
  -- the preferred pod affinity: its weight, labels, namespace and topology key
  pub near : ℕ × StringMap × Text × Text
  pub container_name : Text
  pub image : Text
  pub container_port : ℕ
  pub env : StringMap
  pub env_config_map : Text
  pub env_secret : Text

pub record Service : Type 0 where
  pub labels : StringMap
  pub selector : StringMap
  pub port : ℕ

-- a ConfigMap or a Secret
pub record DataMap : Type 0 where
  pub labels : StringMap
  pub entries : StringMap

pub record IngressRoute : Type 0 where
  pub labels : StringMap
  pub entry_point : Text
  pub rule : Text
  pub service_name : Text
  pub service_port : ℕ
  pub tls_secret : Text

pub data Object : Type 0 where
  a_deployment : Deployment → Object
  a_service : Service → Object
  a_data_map : DataMap → Object
  an_ingress_route : IngressRoute → Object

pub record Stored : Type 0 where
  pub object : Object
  pub resource_version : Text

pub record AppStatus : Type 0 where
  pub phase : Text
  pub note : Text

-- The fields of the spec of a WorkerApp, by the schema of its CRD.
pub record AppFields : Type 0 where
  pub worker_id : Option Text
  pub owner_id : Option Text
  pub owner_sk : Option Text
  pub image : Option Text
  pub port : Option ℕ

-- A WorkerApp as an informer or the dynamic client returns it.
pub record WorkerApp : Type 0 where
  pub name : Text
  pub namespace : Text
  pub generation : ℕ
  pub resource_version : Text
  pub spec : Option AppFields
  pub status : Option AppStatus

-- What is stored, by kind and name.
abbrev pub View : Type 0
View = Kind → Text → Option Object

abbrev pub put : Kind → Text → Option Object → View → View
put k n o v k' n' = if kind_eq k k' && text_eq n n' then o else v k' n'

pub record KubeApi (C : Type 0) : Type 0 where
  pub get : Kind → Text → K C Stored
  pub create : Kind → Text → Object → K C (Unit {0})
  -- an Update with a resource version fails if the stored object has another one
  pub update : Kind → Text → Option Text → Object → K C (Unit {0})
  pub delete : Kind → Text → K C (Unit {0})
  -- the merge patch that sets the annotation restartedAt of a Deployment
  pub patch_restart : Text → Text → K C (Unit {0})
  -- Get and UpdateStatus of a WorkerApp, by namespace and name
  pub get_app : Text → Text → K C WorkerApp
  pub update_status : WorkerApp → K C (Unit {0})
  pub view : C → View
  pub status_of : C → Text → Text → Option AppStatus

-- What Kubernetes documents: reading stores nothing, an object that is read is the one that is
-- stored, a call that writes stores its object and nothing else, and a call that fails may
-- nevertheless have been carried out. The status of a WorkerApp is stored apart.
pub record IsApi {C : Type 0} (api : KubeApi C) : Type 0 where
  pub view-get : (k : Kind) (n : Text) (c : C) → api.view (api.get k n c).1 ≡ api.view c
  pub get-answer :
      (k : Kind) (n : Text) (c : C) (s : Stored)
      → (api.get k n c).0 ≡ answer s
      → api.view c k n ≡ some s.object
  pub get-missing :
      (k : Kind) (n : Text) (c : C) (e : ApiError)
      → (api.get k n c).0 ≡ refused e
      → e.is_not_found ≡ true
      → api.view c k n ≡ none
  pub view-create :
      (k : Kind) (n : Text) (o : Object) (c : C)
      → (api.create k n o c).0 ≡ answer tt
      → api.view (api.create k n o c).1 ≡ put k n (some o) (api.view c)
  pub create-refused :
      (k : Kind) (n : Text) (o : Object) (c : C)
      → (api.view (api.create k n o c).1 ≡ api.view c)
        ⊎ (api.view (api.create k n o c).1 ≡ put k n (some o) (api.view c))
  pub view-update :
      (k : Kind) (n : Text) (version : Option Text) (o : Object) (c : C)
      → (api.update k n version o c).0 ≡ answer tt
      → api.view (api.update k n version o c).1 ≡ put k n (some o) (api.view c)
  pub update-refused :
      (k : Kind) (n : Text) (version : Option Text) (o : Object) (c : C)
      → (api.view (api.update k n version o c).1 ≡ api.view c)
        ⊎ (api.view (api.update k n version o c).1 ≡ put k n (some o) (api.view c))
  pub view-get_app :
      (namespace n : Text) (c : C) → api.view (api.get_app namespace n c).1 ≡ api.view c
  pub view-update_status : (a : WorkerApp) (c : C) → api.view (api.update_status a c).1 ≡ api.view c
  pub get_app-answer :
      (namespace n : Text) (c : C) (a : WorkerApp)
      → (api.get_app namespace n c).0 ≡ answer a
      → (a.namespace ≡ namespace) × (a.name ≡ n)
  pub status_of-update_status :
      (a : WorkerApp) (c : C)
      → (api.update_status a c).0 ≡ answer tt
      → api.status_of (api.update_status a c).1 a.namespace a.name ≡ a.status

-- An API server that answers: an object is found exactly if it is stored, a missing one can be
-- created, a stored one updated as it was read, and any one deleted.
pub record Serves {C : Type 0} (api : KubeApi C) : Type 0 where
  pub get-stored :
      (k : Kind) (n : Text) (c : C) (o : Object)
      → api.view c k n ≡ some o
      → (s : Stored) × ((api.get k n c).0 ≡ answer s)
  pub get-not_found :
      (k : Kind) (n : Text) (c : C)
      → api.view c k n ≡ none
      → (e : ApiError) × ((api.get k n c).0 ≡ refused e) × (e.is_not_found ≡ true)
  pub create-answer :
      (k : Kind) (n : Text) (o : Object) (c : C)
      → api.view c k n ≡ none
      → (api.create k n o c).0 ≡ answer tt
  pub update-answer :
      (k : Kind) (n : Text) (o old : Object) (c : C)
      → api.view c k n ≡ some old
      → (api.update k n none o c).0 ≡ answer tt
  pub update-read :
      (k : Kind) (n : Text) (o : Object) (c : C) (s : Stored)
      → (api.get k n c).0 ≡ answer s
      → (api.update k n (some s.resource_version) o (api.get k n c).1).0 ≡ answer tt
  pub view-delete :
      (k : Kind) (n : Text) (c : C) → api.view (api.delete k n c).1 ≡ put k n none (api.view c)

-- One WorkerApp that stays where it is: it can be read, and its status written as it was read.
pub record ServesApp {C : Type 0} (api : KubeApi C) (namespace name : Text) : Type 0 where
  pub get_app-serves : (c : C) → (a : WorkerApp) × ((api.get_app namespace name c).0 ≡ answer a)
  pub update_status-serves :
      (c : C) (a : WorkerApp) (status : Option AppStatus)
      → (api.get_app namespace name c).0 ≡ answer a
      → (api.update_status (record a { status = status }) (api.get_app namespace name c).1).0
        ≡ answer tt
