-- ===== src/Store/Workers/Deploy.antt =====
-- The transactions of dblayer/worker.actions.go: all of their writes are made, or none.
use storebirth.Base.{ℕ, suc, ◌≡◌, ◌≢◌, refl, [], ◌∷◌, ◌++◌, Option, none, some, Text, arith, ◌==◌}
use storebirth.Store.{
  Db, Worker, WorkerDeployVersion, WorkerStatus, VersionStatus, Error, not_found, Result, ok, err,
}
use storebirth.Store.Sql.{World, first, update}
use storebirth.Store.Workers.{is_owned, create_deploy_version_for_owner, deploy_version_success}

-- The database after a version was created for a worker: the worker is loading, and there is one
-- more version, of that worker, which is loading.
abbrev pub deployed : Text → Text → Text → ℕ → ℕ → Worker → Db → Db
deployed wid user_uid image port now w d = record d {
  workers = record d.workers {
    rows =
        update (is_owned wid user_uid) (λ w. record w { status = WorkerStatus.loading })
          d.workers.rows;
  };
  versions = record {
    rows =
        d.versions.rows
        ++ record {
          id = d.versions.next_id;
          worker_id = w.id;
          image = image;
          port = port;
          status = VersionStatus.loading;
          msg = [];
          created_at = now;
        }
          ∷ [];
    next_id = suc d.versions.next_id;
  };
}

-- The database after a successful deployment.
abbrev pub activated : ℕ → ℕ → Db → Db
activated version_id worker_id d = record d {
  versions = record d.versions {
    rows =
        update (λ (v : WorkerDeployVersion). v.id == version_id)
          (λ v. record v { status = VersionStatus.success; msg = [] }) d.versions.rows;
  };
  workers = record d.workers {
    rows =
        update (λ (w : Worker). w.id == worker_id)
          (λ w. record w { active_version_id = some version_id; status = WorkerStatus.active })
          d.workers.rows;
  };
}

module _ {S : Type 0} (wid user_uid image : Text) (port : ℕ) (s : World S) where
  ok_deploy :
      (o : Option Worker) (id : ℕ)
      → first (is_owned wid user_uid) s.db.workers.rows ≡ o
      → (create_deploy_version_for_owner wid user_uid image port s).0 ≡ ok id
      → (w : Worker) × (first (is_owned wid user_uid) s.db.workers.rows ≡ some w)
        × (id ≡ s.db.versions.next_id)
        × ((create_deploy_version_for_owner wid user_uid image port s).1.db
            ≡ deployed wid user_uid image port s.now w s.db)
  unfolding create_deploy_version_for_owner
  ok_deploy none id e h = absurd (ground arith)
  ok_deploy (some w) id e h = (w, e, ground arith, ground arith)

  err_deploy :
      (e : Error)
      → (create_deploy_version_for_owner wid user_uid image port s).0 ≡ err e
      → ((create_deploy_version_for_owner wid user_uid image port s).1.db ≡ s.db) × (e ≢ not_found)
  unfolding create_deploy_version_for_owner
  err_deploy e h = (ground arith, ground arith)

  -- How the creation of a version ends, by its result.
  abbrev pub Created : Result ℕ → Db → Type 0
  Created (ok id) d =
      (w : Worker) × (first (is_owned wid user_uid) s.db.workers.rows ≡ some w)
      × (id ≡ s.db.versions.next_id)
      × (d ≡ deployed wid user_uid image port s.now w s.db)
  Created (err e) d = (d ≡ s.db) × (e ≢ not_found)

  create_deploy_version-Created :
      (r : Result ℕ)
      → (create_deploy_version_for_owner wid user_uid image port s).0 ≡ r
      → Created r (create_deploy_version_for_owner wid user_uid image port s).1.db
  create_deploy_version-Created (ok id) h = ok_deploy _ id refl h
  create_deploy_version-Created (err e) h = err_deploy e h

  -- Creating a version for an owner is atomic, wherever a call fails. If it succeeds, the worker
  -- was the owner's, the id is the next one, and the writes are the status of the worker and the
  -- new version. If it fails, the database is as before, and the error is not ErrNotFound.
  pub create_deploy_version-atomic :
      Created
        (create_deploy_version_for_owner wid user_uid image port s).0
        (create_deploy_version_for_owner wid user_uid image port s).1.db
  create_deploy_version-atomic = create_deploy_version-Created _ refl

-- How the record of a successful deployment ends, by its result.
abbrev pub Recorded : ℕ → ℕ → Db → Result (Unit {0}) → Db → Type 0
Recorded version_id worker_id before (ok x) d = d ≡ activated version_id worker_id before
Recorded version_id worker_id before (err e) d = d ≡ before

deploy_version_success-Recorded :
    {S : Type 0} (version_id worker_id : ℕ) (s : World S) (r : Result (Unit {0}))
    → (deploy_version_success version_id worker_id s).0 ≡ r
    → Recorded version_id worker_id s.db r (deploy_version_success version_id worker_id s).1.db
unfolding deploy_version_success
deploy_version_success-Recorded version_id worker_id s (ok x) h = ground arith
deploy_version_success-Recorded version_id worker_id s (err e) h = ground arith

-- Recording a successful deployment is atomic, wherever a call fails: both rows are written if it
-- succeeds, and neither if it fails.
deploy_version_success-atomic :
    {S : Type 0} (version_id worker_id : ℕ) (s : World S)
    → Recorded version_id worker_id s.db
        (deploy_version_success version_id worker_id s).0
        (deploy_version_success version_id worker_id s).1.db
deploy_version_success-atomic version_id worker_id s =
    deploy_version_success-Recorded version_id worker_id s _ refl
