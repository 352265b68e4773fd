-- ===== src/Jobs/Worker/Deploy.antt =====
-- deployWorkerJob.Do (handlers/jobs/worker.jobs.go) when the database answers.
use storebirth.Base.{
  ℕ, suc, ◌≡◌, ◌≢◌, refl, ap, ◌∙◌, Option, none, some, Text, text_eq, ◌==◌, arith,
}
use storebirth.Names.{worker_name}
use storebirth.Store.{
  Db, Worker, WorkerDeployVersion, WorkerStatus, VersionStatus, Error, no_rows, message, Result, ok,
  err,
}
use storebirth.Store.Sql.{World, exec, update}
use storebirth.Store.Workers.{
  Joined, join, set_workers, set_versions, get_deploy_version_with_worker,
  update_deploy_version_status, update_worker_status, deploy_version_success,
}
use storebirth.Store.Workers.Deploy.{activated}
use storebirth.Platform.{Platform, IsStore, Cluster, WorkerAppSpec, call}
use storebirth.Jobs.Worker.{
  spec_of, create_worker_app_cr, create_or_update, do_deploy_worker, after_create,
}

-- No call of the database fails.
abbrev pub Quiet : {S : Type 0} → World S → Type 0
Quiet s = (n : ℕ) → s.fault n ≡ none

-- The database after a failed deployment.
abbrev pub deploy_failed : ℕ → Text → Text → Db → Db
deploy_failed version_id wid msg d =
    set_workers
      (update (λ (w : Worker). text_eq w.wid wid) (λ w. record w { status = WorkerStatus.error })
        d.workers.rows)
      (set_versions
        (update (λ (v : WorkerDeployVersion). v.id == version_id)
          (λ v. record v { status = VersionStatus.error; msg = msg }) d.versions.rows)
        d)

abbrev pub version_failed : ℕ → Text → Db → Db
version_failed version_id msg d =
    set_versions
      (update (λ (v : WorkerDeployVersion). v.id == version_id)
        (λ v. record v { status = VersionStatus.error; msg = msg }) d.versions.rows)
      d

module _ {C : Type 0} (k : Cluster C) where
  -- The calls of the cluster leave the database, and what decides its calls, alone.
  abbrev SameBase : World (Platform C) → World (Platform C) → Type 0
  SameBase s t = (t.db ≡ s.db) × (t.calls ≡ s.calls) × (t.fault ≡ s.fault)

  create_or_update_base :
      (name : Text) (spec : WorkerAppSpec) (r : Result WorkerAppSpec) (s : World (Platform C))
      → SameBase s (create_or_update k name spec r s).1
  unfolding create_or_update
  create_or_update_base name spec (err e) s = (refl, refl, refl)
  create_or_update_base name spec (ok old) s = (refl, refl, refl)

  create_cr_base :
      (name : Text) (spec : WorkerAppSpec) (s : World (Platform C))
      → SameBase s (create_worker_app_cr k name spec s).1
  unfolding create_worker_app_cr
  create_cr_base name spec s =
      create_or_update_base name spec (k.worker_apps.get name s.service.cluster).0
        (call (k.worker_apps.get name) s).1

  create_or_update_stores :
      (name : Text) (spec : WorkerAppSpec) (r : Result WorkerAppSpec) (s : World (Platform C))
      → IsStore k.worker_apps
      → (create_or_update k name spec r s).0 ≡ ok tt
      → k.worker_apps.view (create_or_update k name spec r s).1.service.cluster name ≡ some spec
  unfolding create_or_update
  create_or_update_stores name spec (err e) s law h = law.view-create name spec _ h
  create_or_update_stores name spec (ok old) s law h = law.view-update name spec _ h

  -- A created or updated WorkerApp is stored under its name.
  pub create_cr_stores :
      (name : Text) (spec : WorkerAppSpec) (s : World (Platform C))
      → IsStore k.worker_apps
      → (create_worker_app_cr k name spec s).0 ≡ ok tt
      → k.worker_apps.view (create_worker_app_cr k name spec s).1.service.cluster name ≡ some spec
  unfolding create_worker_app_cr
  create_cr_stores name spec s law h =
      create_or_update_stores name spec (k.worker_apps.get name s.service.cluster).0
        (call (k.worker_apps.get name) s).1 law h

  -- What is left to do once the WorkerApp was created, or was not.
  after_create_settled :
      (version_id : ℕ) (j : Joined) (r : Result (Unit {0})) (s : World (Platform C))
      → Quiet s
      → (r ≡ ok tt
          → ((after_create k version_id j r s).0 ≡ ok tt)
            × ((after_create k version_id j r s).1.db ≡ activated version_id j.worker.id s.db)
            × ((after_create k version_id j r s).1.service ≡ s.service))
        × ((e : Error)
            → r ≡ err e
            → (after_create k version_id j r s).1.db
              ≡ deploy_failed version_id j.worker.wid (message e) s.db)
  unfolding after_create deploy_version_success update_deploy_version_status update_worker_status
  after_create_settled version_id j (ok x) s q = (
    (λ h. (
      refl,
      ground
          (arith, q s.calls, q (suc s.calls), q (suc (suc s.calls)), q (suc (suc (suc s.calls)))),
      ground
          (arith, q s.calls, q (suc s.calls), q (suc (suc s.calls)), q (suc (suc (suc s.calls)))),
    )),
    λ e h. absurd (cc),
  )
  after_create_settled version_id j (err x) s q =
      ((λ h. absurd (cc)), λ e h. ground (arith, q s.calls, q (suc s.calls)))

  -- The name of the WorkerApp of a version, and the world after CreateWorkerAppCR.
  abbrev pub app_name : Joined → Text
  app_name j = worker_name j.worker.wid j.worker.user_uid

  abbrev pub cr_run : Joined → World (Platform C) → Result (Unit {0}) × World (Platform C)
  cr_run j s = create_worker_app_cr k (app_name j) (spec_of j) (record s { calls = suc s.calls })

  do_deploy_found :
      (version_id : ℕ) (j : Joined) (s : World (Platform C))
      → Quiet s
      → join version_id s.db ≡ some j
      → do_deploy_worker k version_id s ≡ after_create k version_id j (cr_run j s).0 (cr_run j s).1
  unfolding do_deploy_worker get_deploy_version_with_worker
  do_deploy_found version_id j s q e = rw (q s.calls, e, exec) refl

  do_deploy_missing :
      (version_id : ℕ) (s : World (Platform C))
      → Quiet s
      → join version_id s.db ≡ none
      → ((do_deploy_worker k version_id s).0 ≢ ok tt)
        × ((do_deploy_worker k version_id s).1.db
            ≡ version_failed version_id (message no_rows) s.db)
  unfolding do_deploy_worker get_deploy_version_with_worker update_deploy_version_status
  do_deploy_missing version_id s q e =
      (ground (arith, q s.calls, q (suc s.calls)), ground (arith, q s.calls, q (suc s.calls)))

  pub do_deploy_worker_cases :
      (version_id : ℕ) (s : World (Platform C))
      → Quiet s
      → IsStore k.worker_apps
      → (join version_id s.db ≡ none
          → ((do_deploy_worker k version_id s).0 ≢ ok tt)
            × ((do_deploy_worker k version_id s).1.db
                ≡ version_failed version_id (message no_rows) s.db))
        × ((j : Joined)
            → join version_id s.db ≡ some j
            → ((cr_run j s).0 ≡ ok tt
                → ((do_deploy_worker k version_id s).0 ≡ ok tt)
                  × ((do_deploy_worker k version_id s).1.db ≡ activated version_id j.worker.id s.db)
                  × (k.worker_apps.view
                        (do_deploy_worker k version_id s).1.service.cluster
                        (app_name j)
                      ≡ some (spec_of j)))
              × ((e : Error)
                  → (cr_run j s).0 ≡ err e
                  → (do_deploy_worker k version_id s).1.db
                    ≡ deploy_failed version_id j.worker.wid (message e) s.db))
  do_deploy_worker_cases version_id s q law = (
    do_deploy_missing version_id s q,
    λ j e.
        let (same_db, same_calls, same_fault) =
          create_cr_base (app_name j) (spec_of j) (record s { calls = suc s.calls }) in
        let quiet : Quiet (cr_run j s).1 = λ n. ap (λ f. f n) same_fault ∙ q n in
        let after = after_create_settled version_id j (cr_run j s).0 (cr_run j s).1 quiet in
        rw (do_deploy_found version_id j s q e) (
          (λ h. (
            (after.0 h).0,
            (after.0 h).1 ∙ ap (activated version_id j.worker.id) same_db,
            ap (λ (p : Platform C). k.worker_apps.view p.cluster (app_name j)) (after.0 h).2
                ∙ create_cr_stores (app_name j) (spec_of j) (record s { calls = suc s.calls }) law
                    h,
          )),
          λ x h. after.1 x h ∙ ap (deploy_failed version_id j.worker.wid (message x)) same_db,
        ),
  )

  -- How the job of a version ends, by what CreateWorkerAppCR returns.
  abbrev pub CrEnds : ℕ → Joined → World (Platform C) → Result (Unit {0}) → Type 0
  CrEnds version_id j s (ok x) =
      ((do_deploy_worker k version_id s).0 ≡ ok tt)
      × ((do_deploy_worker k version_id s).1.db ≡ activated version_id j.worker.id s.db)
      × (k.worker_apps.view (do_deploy_worker k version_id s).1.service.cluster (app_name j)
          ≡ some (spec_of j))
  CrEnds version_id j s (err e) =
      (do_deploy_worker k version_id s).1.db
      ≡ deploy_failed version_id j.worker.wid (message e) s.db

  -- How it ends, by the rows that it reads.
  abbrev pub DeployEnds : ℕ → World (Platform C) → Option Joined → Type 0
  DeployEnds version_id s none =
      ((do_deploy_worker k version_id s).0 ≢ ok tt)
      × ((do_deploy_worker k version_id s).1.db ≡ version_failed version_id (message no_rows) s.db)
  DeployEnds version_id s (some j) = CrEnds version_id j s (cr_run j s).0

  deploy-CrEnds :
      (version_id : ℕ) (j : Joined) (s : World (Platform C)) (r : Result (Unit {0}))
      → Quiet s
      → IsStore k.worker_apps
      → join version_id s.db ≡ some j
      → (cr_run j s).0 ≡ r
      → CrEnds version_id j s r
  deploy-CrEnds version_id j s (ok x) q law e h =
      ((do_deploy_worker_cases version_id s q law).1 j e).0 h
  deploy-CrEnds version_id j s (err x) q law e h =
      ((do_deploy_worker_cases version_id s q law).1 j e).1 x h

  deploy-DeployEnds :
      (version_id : ℕ) (s : World (Platform C)) (o : Option Joined)
      → Quiet s
      → IsStore k.worker_apps
      → join version_id s.db ≡ o
      → DeployEnds version_id s o
  deploy-DeployEnds version_id s none q law e = (do_deploy_worker_cases version_id s q law).0 e
  deploy-DeployEnds version_id s (some j) q law e = deploy-CrEnds version_id j s _ q law e refl

  -- The job of a version, while the database answers. Without a row for the version, its worker and
  -- its user there is an error, and the version, if it is there, says so. If the WorkerApp could be
  -- stored, it is stored with the ids, the key, the image and the port of those rows, the version
  -- is a success and the active one of the worker, which is active. If not, the version and the
  -- worker have the status error, and the version has the message.
  pub do_deploy_worker_outcome :
      (version_id : ℕ) (s : World (Platform C))
      → Quiet s
      → IsStore k.worker_apps
      → DeployEnds version_id s (join version_id s.db)
  do_deploy_worker_outcome version_id s q law = deploy-DeployEnds version_id s _ q law refl
