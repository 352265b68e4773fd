-- ===== src/Platform.antt =====
-- The services beside the database: the task endpoint of the inner gateway, as SendTask of
-- handlers/jobs.handler.go meets it, and the Kubernetes API, which is a parameter.
use storebirth.Base.{ℕ, suc, ◌≡◌, List, [], ◌∷◌, ◌++◌, Bool, Option, some, Text, codes}
use storebirth.Uid.{print_decimal}
use storebirth.Jobs.{StringMap, Job}
use storebirth.Store.{failed, Result, ok, err}
use storebirth.Store.Sql.{World, M}

-- How one POST to the inner gateway goes: the job is accepted, the request does not arrive, the
-- job is accepted but the answer does not come back, or the answer is a status other than 200.
pub data Delivery : Type 0 where
  delivered : Delivery
  lost unanswered : Text → Delivery
  rejected : ℕ → Delivery

pub record Platform (C : Type 0) : Type 0 where
  -- what the inner gateway has submitted to its processor
  pub accepted : List Job
  pub posts : ℕ
  pub net : ℕ → Delivery
  -- whether k8s.K8sClient is set
  pub k8s_client : Bool
  pub cluster : C

-- The objects of one kind in one namespace. `view` says what is stored.
pub record ObjectApi (C P : Type 0) : Type 0 where
  pub get : Text → C → Result P × C
  pub create : Text → P → C → Result (Unit {0}) × C
  pub update : Text → P → C → Result (Unit {0}) × C
  pub delete : Text → C → Result (Unit {0}) × C
  pub view : C → Text → Option P

-- What Kubernetes documents: an object that is read is the one that is stored, reading stores
-- nothing, and an object that was created or updated is stored.
pub record IsStore {C P : Type 0} (api : ObjectApi C P) : Type 0 where
  pub view-get :
      (name : Text) (c : C) (p : P) → (api.get name c).0 ≡ ok p → api.view c name ≡ some p
  pub get-view : (name other : Text) (c : C) → api.view (api.get name c).1 other ≡ api.view c other
  pub view-create :
      (name : Text) (p : P) (c : C)
      → (api.create name p c).0 ≡ ok tt
      → api.view (api.create name p c).1 name ≡ some p
  pub view-update :
      (name : Text) (p : P) (c : C)
      → (api.update name p c).0 ≡ ok tt
      → api.view (api.update name p c).1 name ≡ some p

-- WorkerAppSpec of k8s/controller/types.go
pub record WorkerAppSpec : Type 0 where
  pub worker_id : Text
  pub owner_id : Text
  pub owner_sk : Text
  pub image : Text
  pub port : ℕ

-- The kinds that the jobs of a worker use; of a ConfigMap or a Secret, its `Data`. (An Update sends
-- back the other fields as they were read.)
pub record Cluster (C : Type 0) : Type 0 where
  pub worker_apps : ObjectApi C WorkerAppSpec
  pub config_maps : ObjectApi C StringMap
  pub secrets : ObjectApi C StringMap

module _ {C : Type 0} where
  abbrev pub accept : Job → World (Platform C) → World (Platform C)
  accept job w = record w {
    service = record w.service {
      accepted = w.service.accepted ++ job ∷ [];
      posts = suc w.service.posts;
    };
  }

  abbrev pub posted : World (Platform C) → World (Platform C)
  posted w = record w { service = record w.service { posts = suc w.service.posts } }

  -- SendTask. Marshalling a job cannot fail: its fields are texts, numbers and maps of texts.
  unfoldable pub send_task : Job → M (Platform C) (Unit {0})
  send_task job w = elim (w.service.net w.service.posts) [
    | delivered ↦ (ok tt, accept job w)
    | lost text ↦ (err (failed (codes "failed to send task: " ++ text)), posted w)
    | unanswered text ↦ (err (failed (codes "failed to send task: " ++ text)), accept job w)
    | rejected status ↦
        (err (failed (codes "task rejected with status: " ++ print_decimal status)), posted w)
  ]

  -- A call of the Kubernetes API.
  abbrev pub call : {A : Type 0} → (C → Result A × C) → M (Platform C) A
  call f w = (
    (f w.service.cluster).0,
    record w { service = record w.service { cluster = (f w.service.cluster).1 } },
  )
