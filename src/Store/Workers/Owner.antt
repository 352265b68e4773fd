-- ===== src/Store/Workers/Owner.antt =====
-- The writes of dblayer/worker.actions.go for an owner touch that owner's rows alone. Who asks for
-- them is not looked at here: DeployWorker takes the owner from the body of its request.
use storebirth.Base.{
  ℕ, ◌≡◌, refl, List, [], ◌∷◌, ◌++◌, Bool, true, false, not, ◌&&◌, Option, none, some, Text,
  text_eq, text_eq_iff, ◌==◌, arith,
}
use storebirth.Store.{Db, Worker, WorkerDeployVersion, WorkerStatus, VersionStatus}
use storebirth.Store.Sql.{World, select, update, delete, first, exists}
use storebirth.Store.Workers.{
  is_owned, new_worker, orphaned, create_worker, set_worker_env_by_owner,
  set_worker_secrets_by_owner, delete_worker_by_owner, create_deploy_version_for_owner,
}

-- What dblayer writes about a worker of an owner.
pub data Write : Type 0 where
  creates : Text → Write
  sets_env sets_secrets : Text → Write
  deploys : Text → ℕ → Write
  deletes : Write

abbrev pub written : {S : Type 0} → Write → Text → Text → World S → World S
written (creates worker_name) wid user_uid s = (create_worker wid user_uid worker_name s).1
written (sets_env env_json) wid user_uid s = (set_worker_env_by_owner wid user_uid env_json s).1
written (sets_secrets secrets_json) wid user_uid s =
    (set_worker_secrets_by_owner wid user_uid secrets_json s).1
written (deploys image port) wid user_uid s =
    (create_deploy_version_for_owner wid user_uid image port s).1
written deletes wid user_uid s = (delete_worker_by_owner wid user_uid s).1

-- The workers of the other users.
abbrev pub others : Text → List Worker → List Worker
others user_uid = select (λ (w : Worker). not (text_eq w.user_uid user_uid))

-- The versions of no worker of the user.
abbrev pub foreign : Text → List Worker → WorkerDeployVersion → Bool
foreign user_uid workers v =
    not (exists (λ (w : Worker). text_eq w.user_uid user_uid && (w.id == v.worker_id)) workers)

others-update :
    (wid user_uid : Text) (set : Worker → Worker) (rows : List Worker)
    → ((w : Worker) → (set w).user_uid ≡ w.user_uid)
    → others user_uid (update (is_owned wid user_uid) set rows) ≡ others user_uid rows
unfolding select update
others-update wid user_uid set [] h = refl
others-update wid user_uid set (w ∷ rows) h =
    ground (arith, others-update wid user_uid set rows h, h w)

others-delete :
    (wid user_uid : Text) (rows : List Worker)
    → others user_uid (delete (is_owned wid user_uid) rows) ≡ others user_uid rows
unfolding select delete
others-delete wid user_uid [] = refl
others-delete wid user_uid (w ∷ rows) = ground (arith, others-delete wid user_uid rows)

others-append :
    (user_uid : Text) (w : Worker) (rows : List Worker)
    → w.user_uid ≡ user_uid
    → others user_uid (rows ++ w ∷ []) ≡ others user_uid rows
unfolding select
others-append user_uid w [] h = ground (arith, text_eq_iff w.user_uid user_uid)
others-append user_uid w (x ∷ rows) h = ground (arith, others-append user_uid w rows h)

orphaned-foreign :
    (wid user_uid : Text) (rows : List Worker) (v : WorkerDeployVersion)
    → foreign user_uid rows v ≡ true
    → orphaned wid user_uid rows v ≡ false
unfolding orphaned exists
orphaned-foreign wid user_uid [] v h = refl
orphaned-foreign wid user_uid (w ∷ rows) v h = ground (arith, orphaned-foreign wid user_uid rows v)

select-delete :
    {R : Type 0} (keep drop : R → Bool) (rows : List R)
    → ((r : R) → keep r ≡ true → drop r ≡ false)
    → select keep (delete drop rows) ≡ select keep rows
unfolding select delete
select-delete keep drop [] h = refl
select-delete keep drop (r ∷ rows) h = ground (arith, select-delete keep drop rows h, h r)

-- A version of the worker that a lookup by owner finds is not a foreign one.
first-foreign :
    (wid user_uid : Text) (rows : List Worker) (w : Worker) (v : WorkerDeployVersion)
    → first (is_owned wid user_uid) rows ≡ some w
    → v.worker_id ≡ w.id
    → foreign user_uid rows v ≡ false
unfolding first exists
first-foreign wid user_uid [] w v h e = absurd (cc)
first-foreign wid user_uid (x ∷ rows) w v h e = ground (arith, first-foreign wid user_uid rows w v)

select-append :
    {R : Type 0} (keep : R → Bool) (rows : List R) (r : R)
    → keep r ≡ false
    → select keep (rows ++ r ∷ []) ≡ select keep rows
unfolding select
select-append keep [] r h = rw h
select-append keep (x ∷ rows) r h = ground (arith, select-append keep rows r h)

-- What a write leaves of the rows that are not the user's.
abbrev pub SameForOthers : Text → Db → Db → Type 0
SameForOthers user_uid d d' =
    (others user_uid d'.workers.rows ≡ others user_uid d.workers.rows)
    × (select (foreign user_uid d.workers.rows) d'.versions.rows
        ≡ select (foreign user_uid d.workers.rows) d.versions.rows)

deploys-foreign :
    {S : Type 0} (wid user_uid image : Text) (port : ℕ) (s : World S) (o : Option Worker)
    → first (is_owned wid user_uid) s.db.workers.rows ≡ o
    → select
        (foreign user_uid s.db.workers.rows)
        (written (deploys image port) wid user_uid s).db.versions.rows
      ≡ select (foreign user_uid s.db.workers.rows) s.db.versions.rows
unfolding create_deploy_version_for_owner
deploys-foreign wid user_uid image port s none e = ground arith
deploys-foreign wid user_uid image port s (some w) e =
    let v : WorkerDeployVersion = record {
      id = s.db.versions.next_id;
      worker_id = w.id;
      image = image;
      port = port;
      status = VersionStatus.loading;
      msg = [];
      created_at = s.now;
    } in
    ground (
      arith,
      select-append (foreign user_uid s.db.workers.rows) s.db.versions.rows v
          (first-foreign wid user_uid s.db.workers.rows w v e refl),
    )

written-others :
    {S : Type 0} (r : Write) (wid user_uid : Text) (s : World S)
    → others user_uid (written r wid user_uid s).db.workers.rows ≡ others user_uid s.db.workers.rows
unfolding create_worker set_worker_env_by_owner set_worker_secrets_by_owner delete_worker_by_owner
    create_deploy_version_for_owner
written-others (creates worker_name) wid user_uid s = ground (
  arith,
  others-append user_uid (new_worker s.db.workers.next_id s.now wid user_uid worker_name)
      s.db.workers.rows refl,
)
written-others (sets_env env_json) wid user_uid s = ground (
  arith,
  others-update wid user_uid (λ w. record w { env_json = env_json; status = WorkerStatus.loading })
      s.db.workers.rows (λ w. refl),
)
written-others (sets_secrets secrets_json) wid user_uid s = ground (
  arith,
  others-update wid user_uid
      (λ w. record w { secrets_json = secrets_json; status = WorkerStatus.loading })
      s.db.workers.rows (λ w. refl),
)
written-others (deploys image port) wid user_uid s = ground (
  arith,
  others-update wid user_uid (λ w. record w { status = WorkerStatus.loading }) s.db.workers.rows
      (λ w. refl),
)
written-others deletes wid user_uid s = ground (arith, others-delete wid user_uid s.db.workers.rows)

written-foreign :
    {S : Type 0} (r : Write) (wid user_uid : Text) (s : World S)
    → select (foreign user_uid s.db.workers.rows) (written r wid user_uid s).db.versions.rows
      ≡ select (foreign user_uid s.db.workers.rows) s.db.versions.rows
unfolding create_worker set_worker_env_by_owner set_worker_secrets_by_owner delete_worker_by_owner
written-foreign (creates worker_name) wid user_uid s = ground arith
written-foreign (sets_env env_json) wid user_uid s = ground arith
written-foreign (sets_secrets secrets_json) wid user_uid s = ground arith
written-foreign (deploys image port) wid user_uid s =
    deploys-foreign wid user_uid image port s _ refl
written-foreign deletes wid user_uid s = ground (
  arith,
  select-delete (foreign user_uid s.db.workers.rows) (orphaned wid user_uid s.db.workers.rows)
      s.db.versions.rows (orphaned-foreign wid user_uid s.db.workers.rows),
)

-- Each write of dblayer/worker.actions.go for an owner `user_uid`, whether it fails or not, leaves the
-- rows of the workers of all other users, and the versions of those workers, as they are.
pub written-SameForOthers :
    {S : Type 0} (r : Write) (wid user_uid : Text) (s : World S)
    → SameForOthers user_uid s.db (written r wid user_uid s).db
written-SameForOthers r wid user_uid s =
    (written-others r wid user_uid s, written-foreign r wid user_uid s)
