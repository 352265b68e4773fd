-- ===== src/Audit/Kept.antt =====
-- What each query of the audit of handlers/jobs/auth.cron.go keeps of the databases.
use storebirth.Base.{
  ℕ, ◌≡◌, ◌≢◌, sym, ◌∙◌, All, refl, ap, List, [], ◌∷◌, ◌++◌, Bool, true, Option, none, some, Text,
  text_eq, text_eq_iff, arith, Bool-cases, inl, inr, if◌then◌else◌,
}
use mathlib.Core.Bool.{false≢true}
use storebirth.Names.{database, username}
use storebirth.Store.{Result, ok, err}
use storebirth.Store.Sql.{World, M, ◌>>◌, continue}
use storebirth.Audit.{each, api_exec, check_user, valid_dbs, clean_rdb, clean_worker}
use storebirth.Rdb.Root.{contains-remove, connected-keeps, root_exec-keeps}
use storebirth.Rdb.{
  without_database, with_database, with_user, with_grant, Catalog, Services, contains, add,
  root_exec, named, remove, drop_database, init_user_rdb,
}

contains-append :
    (name n : Text) (names : List Text)
    → contains name (names ++ n ∷ []) ≡ (if contains name names then true else text_eq n name)
contains-append name n [] = ground arith
contains-append name n (x ∷ names) = ground (arith, contains-append name n names)

pub contains-add :
    (name n : Text) (names : List Text)
    → contains name (add n names) ≡ (if contains name names then true else text_eq n name)
contains-add name n names = ground (arith, contains-append name n names, text_eq_iff n name)

-- Whether a database is there.
abbrev pub has_database : Text → World Services → Bool
has_database name w = contains name w.service.catalog.databases

-- A database is there, and the server reads names as `reads` does.
abbrev pub Holds : (Text → Result Text) → Text → Catalog → Type 0
Holds reads name c = (contains name c.databases ≡ true) × (c.reads ≡ reads)

abbrev pub Has : (Text → Result Text) → Text → World Services → Type 0
Has reads name w = Holds reads name w.service.catalog

removed-Holds :
    (reads : Text → Result Text) (name : Text) (r : Result Text) (c : Catalog)
    → r ≢ ok name
    → Holds reads name c
    → Holds reads name (named r (λ n c. (ok tt, record c { databases = remove n c.databases })) c).1
removed-Holds reads name (err e) c other h = h
removed-Holds reads name (ok n) c other (h, same) = elim (Bool-cases (text_eq n name)) [
  | inl e ↦ absurd (other (ap ok ((text_eq_iff n name).0 e)))
  | inr e ↦ (ground (arith, contains-remove name n c.databases), same)
]

added-Holds :
    (reads : Text → Result Text) (name : Text) (r : Result Text) (c : Catalog)
    → Holds reads name c
    → Holds reads name (named r (λ n c. (ok tt, record c { databases = add n c.databases })) c).1
added-Holds reads name (err e) c h = h
added-Holds reads name (ok n) c (h, same) = (ground (arith, contains-add name n c.databases), same)

user-Holds :
    (reads : Text → Result Text) (name : Text) (r : Result Text) (c : Catalog)
    → Holds reads name c
    → Holds reads name (named r (λ n c. (ok tt, record c { sql_users = add n c.sql_users })) c).1
user-Holds reads name (err e) c h = h
user-Holds reads name (ok n) c h = h

grant-Holds :
    (reads : Text → Result Text) (name : Text) (r q : Result Text) (c : Catalog)
    → Holds reads name c
    → Holds reads name
        (named r (λ n. named q (λ u c. (ok tt, record c { grants = (n, u) ∷ c.grants }))) c).1
grant-Holds reads name (err e) q c h = h
grant-Holds reads name (ok n) (err e) c h = h
grant-Holds reads name (ok n) (ok u) c h = h

drop-keeps :
    (reads : Text → Result Text) (name n : Text) (w : World Services)
    → reads n ≢ ok name
    → Has reads name w
    → Has reads name (drop_database n w).1
unfolding drop_database
drop-keeps reads name n w other h = connected-keeps _ (Holds reads name) w h λ v k.
    root_exec-keeps (Holds reads name) (without_database n) v k (
      removed-Holds reads name (v.service.catalog.reads n) v.service.catalog
        (λ e. other (sym (ap (λ (f : Text → Result Text). f n) k.1) ∙ e)) k)

module _ (unicode_lower : ℕ → ℕ) where
  then-keeps :
      (P : Catalog → Type 0) (f : Catalog → Result (Unit {0}) × Catalog) (k : M Services (Unit {0}))
      (w : World Services)
      → P w.service.catalog
      → ((c : Catalog) → P c → P (f c).1)
      → ((v : World Services) → P v.service.catalog → P (k v).1.service.catalog)
      → P ((root_exec f >> k) w).1.service.catalog
  then-keeps P f k w h step keep =
      go (root_exec f w).0 (root_exec f w).1 (root_exec-keeps P f w h (step _ h))
    where
      go :
          (r : Result (Unit {0})) (v : World Services)
          → P v.service.catalog
          → P (continue r (λ _. k) v).1.service.catalog
      go (ok x) v h = keep v h
      go (err e) v h = h

  init-keeps :
      (reads : Text → Result Text) (name uid : Text) (w : World Services)
      → Has reads name w
      → Has reads name (init_user_rdb unicode_lower uid w).1
  unfolding init_user_rdb
  init-keeps reads name uid w h =
      let P = Holds reads name in
      let db = database unicode_lower uid in
      let user = username unicode_lower uid in
      connected-keeps _ P w h λ v k.
        then-keeps P (with_database db) _ v k (λ c p. added-Holds reads name (c.reads db) c p)
          λ v k.
            then-keeps P (with_user user) _ v k (λ c p. user-Holds reads name (c.reads user) c p)
              λ v k. root_exec-keeps P (with_grant db user) v k (
                grant-Holds reads name (v.service.catalog.reads db) (v.service.catalog.reads user)
                  v.service.catalog k)

  pub check-keeps :
      (reads : Text → Result Text) (name uid : Text) (existing : List Text) (w : World Services)
      → Has reads name w
      → Has reads name (check_user unicode_lower existing uid w).1
  unfolding check_user
  check-keeps reads name uid existing w h =
      elim (Bool-cases (contains (database unicode_lower uid) existing)) [
        | inl e ↦ rw (e, check_user) h
        | inr e ↦ rw (e, check_user) (init-keeps reads name uid w h)
      ]

  pub clean-keeps :
      (reads : Text → Result Text) (name n : Text) (user_set : List Text) (w : World Services)
      → contains name (valid_dbs unicode_lower user_set) ≡ true
      → (reads n ≡ ok name → n ≡ name)
      → Has reads name w
      → Has reads name (clean_rdb unicode_lower user_set n w).1
  unfolding clean_rdb
  clean-keeps reads name n user_set w v no_other h =
      elim (Bool-cases (contains n (valid_dbs unicode_lower user_set))) [
        | inl e ↦ rw (e, clean_rdb) h
        | inr e ↦
            rw (e, clean_rdb)
              (drop-keeps reads name n w
                (λ f. absurd (
                  false≢true (
                    sym e
                    ∙ ap (λ t. contains t (valid_dbs unicode_lower user_set)) (no_other f)
                    ∙ v)))
                h)
      ]

  pub contains-valid_dbs :
      (uid : Text) (user_set : List Text)
      → contains uid user_set ≡ true
      → contains (database unicode_lower uid) (valid_dbs unicode_lower user_set) ≡ true
  contains-valid_dbs uid [] h = absurd (cc)
  contains-valid_dbs uid (u ∷ us) h = elim (Bool-cases (text_eq u uid)) [
    | inl e ↦
        let same =
          (text_eq_iff (database unicode_lower u) (database unicode_lower uid)).1
            (ap (database unicode_lower) ((text_eq_iff u uid).0 e)) in
        rw same refl
    | inr e ↦ ground (arith, contains-valid_dbs uid us)
  ]

pub each-keeps :
    {A : Type 0} (P : World Services → Type 0)
    (f : A → World Services → Result (Unit {0}) × World Services) (xs : List A) (w : World Services)
    → ((x : A) (v : World Services) → P v → P (f x v).1)
    → P w
    → P (each f xs w)
each-keeps P f [] w keep h = h
each-keeps P f (x ∷ xs) w keep h = each-keeps P f xs (f x w).1 keep (keep x w h)

pub each-keeps_all :
    {A : Type 0} (Q : A → Type 0) (P : World Services → Type 0)
    (f : A → World Services → Result (Unit {0}) × World Services) (xs : List A) (w : World Services)
    → All Q xs
    → ((x : A) (v : World Services) → Q x → P v → P (f x v).1)
    → P w
    → P (each f xs w)
each-keeps_all Q P f [] w all keep h = h
each-keeps_all Q P f (x ∷ xs) w (q, all) keep h =
    each-keeps_all Q P f xs (f x w).1 all keep (keep x w q h)

pub clean_worker-catalog :
    (user_set : List Text) (app : Text × Option Text) (w : World Services)
    → (clean_worker user_set app w).1.service.catalog ≡ w.service.catalog
unfolding clean_worker api_exec
clean_worker-catalog user_set (name, none) w = refl
clean_worker-catalog user_set (name, some owner) w = ground arith
