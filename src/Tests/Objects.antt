-- ===== src/Tests/Objects.antt =====
-- A concrete cluster: association lists of the objects of each kind, the last write first.
use storebirth.Base.{
  ◌≡◌, refl, List, [], ◌∷◌, Option, none, some, Text, text_eq, text_eq_iff, codes, arith,
  if◌then◌else◌,
}
use storebirth.Jobs.{StringMap}
use storebirth.Store.{Error, failed, Result, ok, err}
use storebirth.Store.Sql.{row_or}
use storebirth.Platform.{ObjectApi, IsStore, WorkerAppSpec, Cluster}

pub record Objects : Type 0 where
  pub apps : List (Text × WorkerAppSpec)
  pub maps : List (Text × StringMap)
  pub secrets : List (Text × StringMap)

abbrev pub find : {P : Type 0} → Text → List (Text × P) → Option P
find name [] = none
find name ((n, p) ∷ rest) = if text_eq n name then some p else find name rest

abbrev pub remove : {P : Type 0} → Text → List (Text × P) → List (Text × P)
remove name [] = []
remove name ((n, p) ∷ rest) = if text_eq n name then remove name rest else (n, p) ∷ remove name rest

abbrev pub not_there : Error
not_there = failed (codes "not found")

module _ {P : Type 0} (read : Objects → List (Text × P))
    (write : List (Text × P) → Objects → Objects) where
  abbrev stored : Option P → Text → P → Objects → Result (Unit {0}) × Objects
  stored none name p c = (err not_there, c)
  stored (some old) name p c = (ok tt, write ((name, p) ∷ read c) c)

  abbrev fresh : Option P → Text → P → Objects → Result (Unit {0}) × Objects
  fresh none name p c = (ok tt, write ((name, p) ∷ read c) c)
  fresh (some old) name p c = (err (failed (codes "already exists")), c)

  abbrev pub listed : ObjectApi Objects P
  listed = record {
    get = λ name c. (row_or (find name (read c)) not_there, c);
    create = λ name p c. fresh (find name (read c)) name p c;
    update = λ name p c. stored (find name (read c)) name p c;
    delete = λ name c. (ok tt, write (remove name (read c)) c);
    view = λ c name. find name (read c);
  }

  module _ (read-write : (l : List (Text × P)) (c : Objects) → read (write l c) ≡ l) where
    view-fresh :
        (o : Option P) (name : Text) (p : P) (c : Objects)
        → (fresh o name p c).0 ≡ ok tt
        → find name (read (fresh o name p c).1) ≡ some p
    view-fresh none name p c h = rw read-write (ground (arith, text_eq_iff name name))
    view-fresh (some old) name p c h = absurd (cc)

    view-stored :
        (o : Option P) (name : Text) (p : P) (c : Objects)
        → (stored o name p c).0 ≡ ok tt
        → find name (read (stored o name p c).1) ≡ some p
    view-stored none name p c h = absurd (cc)
    view-stored (some old) name p c h = rw read-write (ground (arith, text_eq_iff name name))

    view-found : (o : Option P) (p : P) → row_or o not_there ≡ ok p → o ≡ some p
    view-found none p h = absurd (cc)
    view-found (some q) p h = cc

    pub listed-IsStore : IsStore listed
    listed-IsStore = record {
      view-get = λ name c p h. view-found (find name (read c)) p h;
      get-view = λ name other c. refl;
      view-create = λ name p c h. view-fresh (find name (read c)) name p c h;
      view-update = λ name p c h. view-stored (find name (read c)) name p c h;
    }

abbrev pub cluster : Cluster Objects
cluster = record {
  worker_apps = listed (λ c. c.apps) (λ l c. record c { apps = l });
  config_maps = listed (λ c. c.maps) (λ l c. record c { maps = l });
  secrets = listed (λ c. c.secrets) (λ l c. record c { secrets = l });
}

pub worker_apps-IsStore : IsStore cluster.worker_apps
worker_apps-IsStore = listed-IsStore (λ c. c.apps) (λ l c. record c { apps = l }) (λ l c. refl)

pub config_maps-IsStore : IsStore cluster.config_maps
config_maps-IsStore = listed-IsStore (λ c. c.maps) (λ l c. record c { maps = l }) (λ l c. refl)

pub secrets-IsStore : IsStore cluster.secrets
secrets-IsStore = listed-IsStore (λ c. c.secrets) (λ l c. record c { secrets = l }) (λ l c. refl)
