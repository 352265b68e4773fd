-- ===== src/Rdb.antt =====
-- k8s/rdb.go: the administrator's connection to CockroachDB, and what is done with it, also by the
-- job of handlers/jobs/auth.jobs.go. The statements write names
-- without quotes, and the server has its own way to read them (`reads`).
pub mod Root
pub mod Pool
use storebirth.Base.{
  ℕ, suc, zero, List, [], ◌∷◌, ◌++◌, Bool, true, false, not, ◌&&◌, Option, none, some, Text,
  text_eq, ◌==◌, if◌then◌else◌, codes,
}
use storebirth.Names.{database, username}
use storebirth.Store.{Error, message, failed, Result, ok, err}
use storebirth.Store.Sql.{World, M, ◌>>◌, pure, raise, attempt, select}

-- What CockroachDB holds.
pub record Catalog : Type 0 where
  pub databases : List Text
  pub sql_users : List Text
  -- GRANT ALL ON DATABASE … TO …
  pub grants : List (Text × Text)
  -- the name that an unquoted name in a statement stands for, as CockroachDB folds its letters, or
  -- the error of a text that is no name
  pub reads : Text → Result Text

-- `root_fault` decides how the calls of the administrator's connection go. The WorkerApps are a
-- list of their names and owners; an owner is missing where the object has no such text.
pub record Services : Type 0 where
  pub catalog : Catalog
  pub root_calls : ℕ
  pub root_fault : ℕ → Option Text
  -- whether rootDB is set
  pub root_db : Bool
  pub worker_apps : List (Text × Option Text)
  pub api_calls : ℕ
  pub api_fault : ℕ → Option Text
  -- whether the two clients, and the manager of the databases, are set
  pub clients : Bool
  pub rdb_manager : Bool

abbrev pub contains : Text → List Text → Bool
contains name [] = false
contains name (n ∷ names) = if text_eq n name then true else contains name names

abbrev pub remove : Text → List Text → List Text
remove name [] = []
remove name (n ∷ names) = if text_eq n name then remove name names else n ∷ remove name names

abbrev pub add : Text → List Text → List Text
add name names = if contains name names then names else names ++ name ∷ []

-- One statement on the administrator's connection.
unfoldable pub root_exec : {A : Type 0} → (Catalog → Result A × Catalog) → M Services A
root_exec f w = elim (w.service.root_fault w.service.root_calls) [
  | some text ↦ (
    err (failed text),
    record w { service = record w.service { root_calls = suc w.service.root_calls } },
  )
  | none ↦ (
    (f w.service.catalog).0,
    record w {
      service = record w.service {
        root_calls = suc w.service.root_calls;
        catalog = (f w.service.catalog).1;
      };
    },
  )
]

-- db.PingContext, and sql.Open
ping : M Services (Unit {0})
unfolding root_exec
ping = root_exec λ c. (ok tt, c)

set_root_db : Bool → M Services (Unit {0})
set_root_db connected w = (ok tt, record w { service = record w.service { root_db = connected } })

-- The loop of three attempts: a ping that fails leads to the next one, an error of sql.Open does not.
pinged : M Services (Unit {0}) → Result (Unit {0}) → M Services (Unit {0})
unfolding set_root_db
pinged again (ok _) = set_root_db true
pinged again (err e) = again

opened : M Services (Unit {0}) → Result (Unit {0}) → M Services (Unit {0})
unfolding ping pinged
opened again (ok _) = attempt ping (pinged again)
opened again (err e) = raise (failed (codes "sql.Open failed: " ++ message e))

reconnect : ℕ → M Services (Unit {0})
unfolding ping opened
reconnect zero = raise (failed (codes "cockroachdb root unreachable after 3 attempts"))
reconnect (suc attempts) = attempt ping (opened (reconnect attempts))

-- The second check, under the write lock; a connection that is lost is closed.
checked_again : Result (Unit {0}) → M Services (Unit {0})
unfolding set_root_db reconnect
checked_again (ok _) = pure tt
checked_again (err e) = set_root_db false >> reconnect 3

slow_path : M Services (Unit {0})
unfolding ping checked_again reconnect
slow_path w = if w.service.root_db then attempt ping checked_again w else reconnect 3 w

checked : Result (Unit {0}) → M Services (Unit {0})
unfolding slow_path
checked (ok _) = pure tt
checked (err e) = slow_path

-- tryGetRootDB, without another goroutine between its two locks.
pub try_get_root_db : M Services (Unit {0})
unfolding ping checked slow_path
try_get_root_db w = if w.service.root_db then attempt ping checked w else slow_path w

-- LIKE 'db_%', where `_` is any character
unfoldable pub like_db : Text → Bool
like_db (c ∷ d ∷ e ∷ rest) = (c == b'd') && (d == b'b')
like_db _ = false

-- What the statements do.
abbrev pub user_databases : Catalog → Result (List Text) × Catalog
user_databases c = (ok (select like_db c.databases), c)

-- A statement with an unquoted name.
abbrev pub named :
    Result Text
    → (Text → Catalog → Result (Unit {0}) × Catalog)
    → Catalog
    → Result (Unit {0}) × Catalog
named (err e) f c = (err e, c)
named (ok name) f c = f name c

abbrev pub without_database : Text → Catalog → Result (Unit {0}) × Catalog
without_database name c =
    named (c.reads name) (λ n c. (ok tt, record c { databases = remove n c.databases })) c

abbrev pub with_database : Text → Catalog → Result (Unit {0}) × Catalog
with_database name c =
    named (c.reads name) (λ n c. (ok tt, record c { databases = add n c.databases })) c

abbrev pub with_user : Text → Catalog → Result (Unit {0}) × Catalog
with_user name c =
    named (c.reads name) (λ n c. (ok tt, record c { sql_users = add n c.sql_users })) c

abbrev pub without_user : Text → Catalog → Result (Unit {0}) × Catalog
without_user name c =
    named (c.reads name) (λ n c. (ok tt, record c { sql_users = remove n c.sql_users })) c

abbrev pub with_grant : Text → Text → Catalog → Result (Unit {0}) × Catalog
with_grant name user c =
    named (c.reads name)
      (λ n. named (c.reads user) (λ u c. (ok tt, record c { grants = (n, u) ∷ c.grants }))) c

-- RootListUserDatabases
unfoldable pub root_list_user_databases : M Services (List Text)
unfolding root_exec
root_list_user_databases = try_get_root_db >> root_exec user_databases

-- DropDatabase
unfoldable pub drop_database : Text → M Services (Unit {0})
unfolding root_exec
drop_database name = try_get_root_db >> root_exec (without_database name)

module _ (unicode_lower : ℕ → ℕ) where
  -- InitUserRDB
  unfoldable pub init_user_rdb : Text → M Services (Unit {0})
  unfolding root_exec database username
  init_user_rdb uid = do
    try_get_root_db
    root_exec (with_database (database unicode_lower uid))
    root_exec (with_user (username unicode_lower uid))
    root_exec (with_grant (database unicode_lower uid) (username unicode_lower uid))

  -- DeleteUserRDB: the errors of the two statements are not looked at.
  unfoldable pub delete_user_rdb : Text → M Services (Unit {0})
  unfolding root_exec database username
  delete_user_rdb uid = try_get_root_db >> dropped uid
    where
      dropped : Text → M Services (Unit {0})
      dropped uid w = (
        ok tt,
        (root_exec (without_user (username unicode_lower uid))
            (root_exec (without_database (database unicode_lower uid)) w).1).1,
      )

  -- registerUserJob.Do: an error is logged only.
  unfoldable pub do_register_user : Text → M Services (Unit {0})
  unfolding init_user_rdb
  do_register_user uid w =
      if w.service.rdb_manager then (ok tt, (init_user_rdb uid w).1) else (ok tt, w)
