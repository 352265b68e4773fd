-- ===== src/Handlers/WorkerHandler/Deploy.antt =====
-- A deployment from the request to the running worker: DeployWorker of
-- handlers/worker.handler.go and deployWorkerJob.Do of handlers/jobs/worker.jobs.go.
use storebirth.Base.{
  ℕ, suc, ◌≡◌, ◌<◌, refl, List, [], ◌∷◌, ◌++◌, true, ◌==◌, none, some, Text, text_eq, arith, All,
}
use storebirth.Jobs.{deploy_worker}
use storebirth.Store.{Db, User, Worker, WorkerDeployVersion, WorkerStatus, VersionStatus, ok}
use storebirth.Store.Sql.{World, first, update}
use storebirth.Store.Workers.{is_owned, create_deploy_version_for_owner, join, Joined}
use storebirth.Store.Workers.Deploy.{deployed, activated}
use storebirth.Store.Workers.Sound.{first-has_id}
use storebirth.Store.Workers.Keys.{IsSound, DistinctIds}
use storebirth.Platform.{Platform, Cluster, IsStore, delivered}
use storebirth.Jobs.Worker.{do_deploy_worker, spec_of}
use storebirth.Jobs.Worker.Deploy.{Quiet, app_name, cr_run, do_deploy_worker_cases}
use storebirth.Handlers.{deploy_started}
use storebirth.Handlers.WorkerHandler.{DeployRequest, deploy_is_bound, deploy_worker_handler}

module _ {C : Type 0} where
  -- For a worker that the user does not own, DeployWorker answers 500, wherever a call fails:
  -- never 404. It changes no row and submits no job.
  pub deploy_worker-not_owned :
      (r : DeployRequest) (s : World (Platform C))
      → deploy_is_bound r ≡ true
      → first (is_owned r.worker_id r.user_uid) s.db.workers.rows ≡ none
      → ((deploy_worker_handler (some r) s).0.status ≡ 500)
        × ((deploy_worker_handler (some r) s).1.db ≡ s.db)
        × ((deploy_worker_handler (some r) s).1.service.accepted ≡ s.service.accepted)
  unfolding deploy_worker_handler create_deploy_version_for_owner
  deploy_worker-not_owned r s bound missing = (ground arith, ground arith, ground arith)

  -- The world after a deployment was accepted.
  abbrev pub deploy_accepted : DeployRequest → Worker → World (Platform C) → World (Platform C)
  deploy_accepted r w s = record s {
    db = deployed r.worker_id r.user_uid r.image r.port s.now w s.db;
    calls = suc (suc (suc (suc s.calls)));
    service = record s.service {
      accepted =
          s.service.accepted ++ deploy_worker r.worker_id r.user_uid s.db.versions.next_id ∷ [];
      posts = suc s.service.posts;
    };
  }

  handler_accepts :
      (r : DeployRequest) (w : Worker) (s : World (Platform C))
      → deploy_is_bound r ≡ true
      → Quiet s
      → first (is_owned r.worker_id r.user_uid) s.db.workers.rows ≡ some w
      → s.service.net s.service.posts ≡ delivered
      → deploy_worker_handler (some r) s ≡ (
        record { status = 200; body = deploy_started r.worker_id s.db.versions.next_id },
        deploy_accepted r w s,
      )
  unfolding deploy_worker_handler create_deploy_version_for_owner
  handler_accepts r w s bound q owned net =
      ground (arith, q s.calls, q (suc s.calls), q (suc (suc s.calls)), q (suc (suc (suc s.calls))))

first_fresh :
    (n : ℕ) (rows : List WorkerDeployVersion) (v : WorkerDeployVersion)
    → v.id ≡ n
    → All (λ (x : WorkerDeployVersion). x.id < n) rows
    → first (λ (x : WorkerDeployVersion). x.id == n) (rows ++ v ∷ []) ≡ some v
unfolding first
first_fresh n [] v e h = ground arith
first_fresh n (x ∷ rows) v e h = ground (arith, first_fresh n rows v e h.1)

module _ (wid user_uid : Text) (set : Worker → Worker)
    (same : (w : Worker) → (set w).id ≡ w.id) where
  first_updated :
      (rows : List Worker) (w : Worker)
      → DistinctIds rows
      → first (is_owned wid user_uid) rows ≡ some w
      → first (λ (x : Worker). x.id == w.id) (update (is_owned wid user_uid) set rows)
        ≡ some (set w)
  unfolding first update
  first_updated [] w d h = absurd (cc)
  first_updated (x ∷ rows) w d h =
      ground (arith, first_updated rows w d.1, first-has_id wid user_uid rows w, same x)

-- What the job of a new deployment reads.
abbrev pub joined : DeployRequest → ℕ → ℕ → Worker → User → Joined
joined r id now w u = record {
  version = record {
    id = id;
    worker_id = w.id;
    image = r.image;
    port = r.port;
    status = VersionStatus.loading;
    msg = [];
    created_at = now;
  };
  worker = record w { status = WorkerStatus.loading };
  secret_key = u.secret_key;
}

join-some :
    (id : ℕ) (d : Db) (j : Joined)
    → first (λ (v : WorkerDeployVersion). v.id == id) d.versions.rows ≡ some j.version
    → first (λ (w : Worker). w.id == j.version.worker_id) d.workers.rows ≡ some j.worker
    → (u : User) → first (λ (x : User). text_eq x.uid j.worker.user_uid) d.users.rows ≡ some u
    → j.secret_key ≡ u.secret_key
    → join id d ≡ some j
unfolding join
join-some id d j e f u g h = ground arith

join-deployed :
    (r : DeployRequest) (now : ℕ) (w : Worker) (u : User) (d : Db)
    → IsSound d
    → first (is_owned r.worker_id r.user_uid) d.workers.rows ≡ some w
    → first (λ (x : User). text_eq x.uid w.user_uid) d.users.rows ≡ some u
    → join d.versions.next_id (deployed r.worker_id r.user_uid r.image r.port now w d)
      ≡ some (joined r d.versions.next_id now w u)
join-deployed r now w u d v owned user =
    let j = joined r d.versions.next_id now w u in
    let set = λ (x : Worker). record x { status = WorkerStatus.loading } in
    join-some d.versions.next_id (deployed r.worker_id r.user_uid r.image r.port now w d) j
      (first_fresh d.versions.next_id d.versions.rows j.version refl v.versions_below)
      (first_updated r.worker_id r.user_uid set (λ x. refl) d.workers.rows w v.distinct owned) u
      user refl

-- A deployment that a user asks for, of a worker of the user, reaches the cluster, if no call
-- fails: the answer is 200 with the new version; the job of that version then stores a WorkerApp
-- with the image and the port of the request and the secret key of the user, and in the database
-- the version is a success and the active one of the worker, which is active.
pub deploy_worker-runs :
    {C : Type 0} (k : Cluster C) (r : DeployRequest) (w : Worker) (u : User)
    (s : World (Platform C))
    → deploy_is_bound r ≡ true
    → IsSound s.db
    → Quiet s
    → IsStore k.worker_apps
    → first (is_owned r.worker_id r.user_uid) s.db.workers.rows ≡ some w
    → first (λ (x : User). text_eq x.uid w.user_uid) s.db.users.rows ≡ some u
    → s.service.net s.service.posts ≡ delivered
    → let id = s.db.versions.next_id in
      let j = joined r id s.now w u in
      let t = deploy_accepted r w s in
      (cr_run k j t).0 ≡ ok tt
      → (deploy_worker_handler (some r) s
          ≡ (record { status = 200; body = deploy_started r.worker_id id }, t))
        × ((do_deploy_worker k id t).0 ≡ ok tt)
        × ((do_deploy_worker k id t).1.db ≡ activated id w.id t.db)
        × (k.worker_apps.view (do_deploy_worker k id t).1.service.cluster (app_name k j)
            ≡ some (spec_of j))
deploy_worker-runs k r w u s bound sound q law owned user net created =
    let id = s.db.versions.next_id in
    let t = deploy_accepted r w s in
    let read = join-deployed r s.now w u s.db sound owned user in
    let done = ((do_deploy_worker_cases k id t q law).1 (joined r id s.now w u) read).0 created in
    (handler_accepts r w s bound q owned net, done.0, done.1, done.2)
