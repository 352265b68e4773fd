-- ===== src/Store/Workers/Keys.antt =====
-- The keys of the tables `workers` and `worker_deploy_versions`, under the statements of
-- dblayer/worker.actions.go.
use storebirth.Base.{
  ℕ, ◌<◌, ◌≡◌, refl, ◌∙◌, List, [], ◌∷◌, ◌++◌, Bool, true, false, ◌&&◌, Text, ◌==◌, arith, All,
  if◌then◌else◌,
}
use storebirth.Store.{Db, Worker, WorkerDeployVersion}
use storebirth.Store.Sql.{update, delete, exists}
use storebirth.Store.Workers.{is_owned, orphaned}

abbrev pub has_id : List Worker → ℕ → Bool
has_id rows id = exists (λ (w : Worker). w.id == id) rows

-- No two workers have one id.
abbrev pub DistinctIds : List Worker → Type 0
DistinctIds [] = Unit
DistinctIds (w ∷ rows) = (has_id rows w.id ≡ false) × DistinctIds rows

pub record IsSound (d : Db) : Type 0 where
  pub distinct : DistinctIds d.workers.rows
  pub workers_below : All (λ (w : Worker). w.id < d.workers.next_id) d.workers.rows
  pub versions_below : All (λ (v : WorkerDeployVersion). v.id < d.versions.next_id) d.versions.rows
  -- each version belongs to a worker that is there
  pub references :
      All (λ (v : WorkerDeployVersion). has_id d.workers.rows v.worker_id ≡ true) d.versions.rows

module _ (test : Worker → Bool) (set : Worker → Worker)
    (same_id : (w : Worker) → (set w).id ≡ w.id) where
  pub has_id-update :
      (rows : List Worker) (id : ℕ) → has_id (update test set rows) id ≡ has_id rows id
  unfolding exists update
  has_id-update [] id = refl
  has_id-update (w ∷ rows) id = ground (arith, has_id-update rows id, same_id w)

  distinct-update : (rows : List Worker) → DistinctIds rows → DistinctIds (update test set rows)
  unfolding update
  distinct-update [] h = tt
  distinct-update (w ∷ rows) h =
      ground (arith, has_id-update rows w.id, same_id w, distinct-update rows h.1)

  below-update :
      (n : ℕ) (rows : List Worker)
      → All (λ (w : Worker). w.id < n) rows
      → All (λ (w : Worker). w.id < n) (update test set rows)
  unfolding update
  below-update n [] h = tt
  below-update n (w ∷ rows) h = ground (arith, same_id w, below-update n rows h.1)

pub references_mono :
    (rows rows' : List Worker) (vs : List WorkerDeployVersion)
    → ((id : ℕ) → has_id rows id ≡ true → has_id rows' id ≡ true)
    → All (λ (v : WorkerDeployVersion). has_id rows v.worker_id ≡ true) vs
    → All (λ (v : WorkerDeployVersion). has_id rows' v.worker_id ≡ true) vs
references_mono rows rows' [] f h = tt
references_mono rows rows' (v ∷ vs) f h = (f v.worker_id h.0, references_mono rows rows' vs f h.1)

pub update-IsSound :
    (d : Db) (test : Worker → Bool) (set : Worker → Worker)
    → ((w : Worker) → (set w).id ≡ w.id)
    → IsSound d
    → IsSound (record d { workers = record d.workers { rows = update test set d.workers.rows } })
update-IsSound d test set same v = record {
  distinct = distinct-update test set same d.workers.rows v.distinct;
  workers_below = below-update test set same d.workers.next_id d.workers.rows v.workers_below;
  versions_below = v.versions_below;
  references =
      references_mono d.workers.rows _ d.versions.rows
        (λ id h. has_id-update test set same d.workers.rows id ∙ h) v.references;
}

pub has_id-append :
    (rows : List Worker) (w : Worker) (id : ℕ)
    → has_id (rows ++ w ∷ []) id ≡ (if has_id rows id then true else w.id == id)
unfolding exists
has_id-append [] w id = ground arith
has_id-append (x ∷ rows) w id = ground (arith, has_id-append rows w id)

has_id_above :
    (n : ℕ) (rows : List Worker) → All (λ (w : Worker). w.id < n) rows → has_id rows n ≡ false
unfolding exists
has_id_above n [] h = refl
has_id_above n (w ∷ rows) h = ground (arith, has_id_above n rows h.1)

pub distinct-append :
    (n : ℕ) (rows : List Worker) (w : Worker)
    → w.id ≡ n
    → All (λ (w : Worker). w.id < n) rows
    → DistinctIds rows
    → DistinctIds (rows ++ w ∷ [])
unfolding exists
distinct-append n [] w e b h = (refl, tt)
distinct-append n (x ∷ rows) w e b h =
    ground (arith, has_id-append rows w x.id, distinct-append n rows w e b.1 h.1)

has_id-delete :
    (test : Worker → Bool) (rows : List Worker) (id : ℕ)
    → has_id rows id ≡ false
    → has_id (delete test rows) id ≡ false
unfolding exists delete
has_id-delete test [] id h = refl
has_id-delete test (w ∷ rows) id h = ground (arith, has_id-delete test rows id)

pub distinct-delete :
    (test : Worker → Bool) (rows : List Worker) → DistinctIds rows → DistinctIds (delete test rows)
unfolding delete
distinct-delete test [] h = tt
distinct-delete test (w ∷ rows) h =
    ground (arith, has_id-delete test rows w.id, distinct-delete test rows h.1)

-- A worker that no owned worker shares its id with outlives the deletion.
has_id_kept :
    (wid user_uid : Text) (rows : List Worker) (id : ℕ)
    → has_id rows id ≡ true
    → exists (λ (w : Worker). is_owned wid user_uid w && (w.id == id)) rows ≡ false
    → has_id (delete (is_owned wid user_uid) rows) id ≡ true
unfolding exists delete
has_id_kept wid user_uid [] id h e = h
has_id_kept wid user_uid (w ∷ rows) id h e = ground (arith, has_id_kept wid user_uid rows id)

pub references-delete :
    (wid user_uid : Text) (rows : List Worker) (vs : List WorkerDeployVersion)
    → All (λ (v : WorkerDeployVersion). has_id rows v.worker_id ≡ true) vs
    → All
        (λ (v : WorkerDeployVersion).
          has_id (delete (is_owned wid user_uid) rows) v.worker_id ≡ true)
        (delete (orphaned wid user_uid rows) vs)
unfolding delete orphaned
references-delete wid user_uid rows [] h = tt
references-delete wid user_uid rows (v ∷ vs) h = ground (
  arith,
  references-delete wid user_uid rows vs h.1,
  has_id_kept wid user_uid rows v.worker_id h.0,
)
