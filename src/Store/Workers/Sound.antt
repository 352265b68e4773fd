-- ===== src/Store/Workers/Sound.antt =====
-- The keys of the tables `workers` and `worker_deploy_versions`: what the writes of
-- dblayer/worker.actions.go keep.
use storebirth.Base.{
  ℕ, suc, ◌<◌, ◌≡◌, refl, subst, ◌∙◌, List, [], ◌∷◌, true, some, Text, text_eq, arith, All-append,
  Bool-cases, inl, inr,
}
use storebirth.Store.{Db, Worker, WorkerDeployVersion, WorkerStatus, Result, ok, err}
use storebirth.Store.Sql.Rows.{All-weaken, All-delete}
use storebirth.Store.Sql.{World, first, exists}
use storebirth.Store.Workers.{
  is_owned, new_worker, orphaned, insert_worker, update_owned, delete_owned, create_worker,
  set_worker_env_by_owner, set_worker_secrets_by_owner, delete_worker_by_owner,
  create_deploy_version_for_owner,
}
use storebirth.Store.Sql.Keeps.{exec-keeps}
use storebirth.Store.Workers.Deploy.{deployed, Created, create_deploy_version-atomic}
use storebirth.Store.Workers.Owner.{
  Write, creates, sets_env, sets_secrets, deploys, deletes, written,
}
use storebirth.Store.Workers.Keys.{
  has_id, IsSound, has_id-update, references_mono, update-IsSound, has_id-append, distinct-append,
  distinct-delete, references-delete,
}

module _ (wid user_uid : Text) where
  insert-IsSound :
      (now : ℕ) (worker_name : Text) (d : Db)
      → IsSound d
      → IsSound (insert_worker now wid user_uid worker_name d).1
  unfolding insert_worker
  insert-IsSound now worker_name d v =
      elim (Bool-cases (exists (λ (w : Worker). text_eq w.wid wid) d.workers.rows)) [
        | inl e ↦ rw (e, insert_worker) v
        | inr e ↦
            let w = new_worker d.workers.next_id now wid user_uid worker_name in
            rw (e, insert_worker)
              (record {
                distinct =
                    distinct-append d.workers.next_id d.workers.rows w refl v.workers_below
                      v.distinct;
                workers_below =
                    All-append (λ (x : Worker). x.id < suc d.workers.next_id) d.workers.rows
                      (w ∷ [])
                      (All-weaken (λ (x : Worker). x.id < d.workers.next_id) _ d.workers.rows
                        (λ x h. omega arith) v.workers_below)
                      (omega arith);
                versions_below = v.versions_below;
                references =
                    references_mono d.workers.rows _ d.versions.rows
                      (λ id h. has_id-append d.workers.rows w id ∙ (rw h)) v.references;
              })
      ]

  delete-IsSound : (d : Db) → IsSound d → IsSound (delete_owned wid user_uid d).1
  unfolding delete_owned
  delete-IsSound d v = record {
    distinct = distinct-delete (is_owned wid user_uid) d.workers.rows v.distinct;
    workers_below = All-delete _ (is_owned wid user_uid) d.workers.rows v.workers_below;
    versions_below =
        All-delete _ (orphaned wid user_uid d.workers.rows) d.versions.rows v.versions_below;
    references = references-delete wid user_uid d.workers.rows d.versions.rows v.references;
  }

  pub first-has_id :
      (rows : List Worker) (w : Worker)
      → first (is_owned wid user_uid) rows ≡ some w
      → has_id rows w.id ≡ true
  unfolding first exists
  first-has_id [] w h = absurd (cc)
  first-has_id (x ∷ rows) w h = ground (arith, first-has_id rows w)

  deployed-IsSound :
      (image : Text) (port now : ℕ) (w : Worker) (d : Db)
      → first (is_owned wid user_uid) d.workers.rows ≡ some w
      → IsSound d
      → IsSound (deployed wid user_uid image port now w d)
  deployed-IsSound image port now w d e v =
      let u =
        update-IsSound d (is_owned wid user_uid) (λ w. record w { status = WorkerStatus.loading })
          (λ w. refl) v in
      let n = d.versions.next_id in
      record {
        distinct = u.distinct;
        workers_below = u.workers_below;
        versions_below =
            All-append (λ (x : WorkerDeployVersion). x.id < suc n) d.versions.rows (_ ∷ [])
              (All-weaken (λ (x : WorkerDeployVersion). x.id < n) _ d.versions.rows
                (λ x h. omega arith) v.versions_below)
              (omega arith);
        references = All-append _ d.versions.rows (_ ∷ []) u.references (
          has_id-update (is_owned wid user_uid) _ (λ w. refl) d.workers.rows w.id
              ∙ first-has_id d.workers.rows w e,
          tt,
        );
      }

  deploy_end :
      {S : Type 0} (image : Text) (port : ℕ) (s : World S) (r : Result ℕ)
      → (create_deploy_version_for_owner wid user_uid image port s).0 ≡ r
      → Created wid user_uid image port s r
          (create_deploy_version_for_owner wid user_uid image port s).1.db
  deploy_end image port s r e =
      subst
        (λ r.
          Created wid user_uid image port s r
            (create_deploy_version_for_owner wid user_uid image port s).1.db)
        e (create_deploy_version-atomic wid user_uid image port s)

  deploys-IsSound :
      {S : Type 0} (image : Text) (port : ℕ) (s : World S) (r : Result ℕ)
      → (create_deploy_version_for_owner wid user_uid image port s).0 ≡ r
      → IsSound s.db
      → IsSound (create_deploy_version_for_owner wid user_uid image port s).1.db
  deploys-IsSound image port s (ok id) e v =
      let (w, found, _, d) = deploy_end image port s (ok id) e in
      rw d (deployed-IsSound image port s.now w s.db found v)
  deploys-IsSound image port s (err x) e v = rw ((deploy_end image port s (err x) e).0) v

  -- Whatever a user asks to write, and wherever a call fails, from a sound database: the ids of
  -- workers stay distinct, the ids of workers and of versions stay below the next one, and each
  -- version belongs to a worker that exists.
  pub written-IsSound :
      {S : Type 0} (r : Write) (s : World S) → IsSound s.db → IsSound (written r wid user_uid s).db
  unfolding create_worker set_worker_env_by_owner set_worker_secrets_by_owner delete_worker_by_owner
  written-IsSound (creates worker_name) s v =
      exec-keeps IsSound (insert_worker s.now wid user_uid worker_name) s v
        (insert-IsSound s.now worker_name s.db v)
  written-IsSound (sets_env env_json) s v =
      let set = λ (w : Worker). record w { env_json = env_json; status = WorkerStatus.loading } in
      exec-keeps IsSound (update_owned wid user_uid set) s v
        (unfold update_owned in update-IsSound s.db (is_owned wid user_uid) set (λ w. refl) v)
  written-IsSound (sets_secrets secrets_json) s v =
      let set =
        λ (w : Worker). record w { secrets_json = secrets_json; status = WorkerStatus.loading } in
      exec-keeps IsSound (update_owned wid user_uid set) s v
        (unfold update_owned in update-IsSound s.db (is_owned wid user_uid) set (λ w. refl) v)
  written-IsSound (deploys image port) s v = deploys-IsSound image port s _ refl v
  written-IsSound deletes s v =
      exec-keeps IsSound (delete_owned wid user_uid) s v (delete-IsSound s.db v)
