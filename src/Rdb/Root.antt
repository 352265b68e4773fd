-- ===== src/Rdb/Root.antt =====
-- What a call on the administrator's connection of k8s/rdb.go keeps, and how it goes while
-- CockroachDB answers.
use storebirth.Base.{
  Text, List, [], ◌∷◌, text_eq, text_eq_iff, arith, ℕ, zero, suc, ◌≡◌, refl, sym, subst, ap, ◌∙◌,
  Bool, true, false, Option, none, Option-cases, inl, inr, if◌then◌else◌,
}
use storebirth.Store.{Db, Result, ok, err}
use storebirth.Names.{database, username}
use storebirth.Store.Sql.{World, M, ◌>>=◌, ◌>>◌, continue}
use storebirth.Rdb.{
  contains, remove, Catalog, Services, root_exec, ping, set_root_db, pinged, opened, reconnect,
  checked_again, slow_path, checked, try_get_root_db, with_database, with_user, with_grant,
  init_user_rdb,
}

pub contains-remove :
    (name n : Text) (names : List Text)
    → contains name (remove n names) ≡ (if text_eq n name then false else contains name names)
contains-remove name n [] = ground arith
contains-remove name n (x ∷ names) =
    ground
      (arith, contains-remove name n names, text_eq_iff x n, text_eq_iff n name, text_eq_iff x name)

-- No call of CockroachDB fails.
abbrev pub RootQuiet : World Services → Type 0
RootQuiet w = (n : ℕ) → w.service.root_fault n ≡ none

pub root_exec-keeps :
    {A : Type 0} (P : Catalog → Type 0) (f : Catalog → Result A × Catalog) (w : World Services)
    → P w.service.catalog
    → P (f w.service.catalog).1
    → P (root_exec f w).1.service.catalog
unfolding root_exec
root_exec-keeps P f w before after =
    elim (Option-cases (w.service.root_fault w.service.root_calls)) [
      | inl e ↦ rw (e, root_exec) after
      | inr (text, e) ↦ rw (e, root_exec) before
    ]

-- What no connection changes: what CockroachDB holds, the other database, and its faults.
abbrev pub held : World Services → Catalog × Db × (ℕ → Option Text)
held w = (w.service.catalog, w.db, w.fault)

abbrev pub HeldSame : World Services → World Services → Type 0
HeldSame w v = held v ≡ held w

ping-HeldSame : (w : World Services) → HeldSame w (ping w).1
unfolding ping
ping-HeldSame w = elim (Option-cases (w.service.root_fault w.service.root_calls)) [
  | inl e ↦ rw (e, root_exec) refl
  | inr (text, e) ↦ rw (e, root_exec) refl
]

pinged-HeldSame :
    (again : M Services (Unit {0})) (r : Result (Unit {0})) (w : World Services)
    → ((v : World Services) → HeldSame v (again v).1)
    → HeldSame w (pinged again r w).1
unfolding pinged set_root_db
pinged-HeldSame again (ok x) w same = refl
pinged-HeldSame again (err e) w same = same w

opened-HeldSame :
    (again : M Services (Unit {0})) (r : Result (Unit {0})) (w : World Services)
    → ((v : World Services) → HeldSame v (again v).1)
    → HeldSame w (opened again r w).1
unfolding opened
opened-HeldSame again (ok x) w same =
    pinged-HeldSame again (ping w).0 (ping w).1 same ∙ ping-HeldSame w
opened-HeldSame again (err e) w same = refl

reconnect-HeldSame : (n : ℕ) (w : World Services) → HeldSame w (reconnect n w).1
unfolding reconnect
reconnect-HeldSame zero w = refl
reconnect-HeldSame (suc n) w =
    opened-HeldSame (reconnect n) (ping w).0 (ping w).1 (reconnect-HeldSame n) ∙ ping-HeldSame w

checked_again-HeldSame :
    (r : Result (Unit {0})) (w : World Services) → HeldSame w (checked_again r w).1
unfolding checked_again set_root_db
checked_again-HeldSame (ok x) w = refl
checked_again-HeldSame (err e) w = reconnect-HeldSame 3 (set_root_db false w).1

if-HeldSame :
    (b : Bool) (x y : Result (Unit {0}) × World Services) (w : World Services)
    → HeldSame w x.1
    → HeldSame w y.1
    → HeldSame w (if b then x else y).1
if-HeldSame true x y w h k = h
if-HeldSame false x y w h k = k

slow_path-HeldSame : (w : World Services) → HeldSame w (slow_path w).1
unfolding slow_path
slow_path-HeldSame w =
    if-HeldSame w.service.root_db _ _ w
      (checked_again-HeldSame (ping w).0 (ping w).1 ∙ ping-HeldSame w) (reconnect-HeldSame 3 w)

checked-HeldSame : (r : Result (Unit {0})) (w : World Services) → HeldSame w (checked r w).1
unfolding checked
checked-HeldSame (ok x) w = refl
checked-HeldSame (err e) w = slow_path-HeldSame w

try_get_root_db-HeldSame : (w : World Services) → HeldSame w (try_get_root_db w).1
unfolding try_get_root_db
try_get_root_db-HeldSame w =
    if-HeldSame w.service.root_db _ _ w (checked-HeldSame (ping w).0 (ping w).1 ∙ ping-HeldSame w)
      (slow_path-HeldSame w)

-- A connection leaves what CockroachDB holds.
abbrev pub Same : World Services → World Services → Type 0
Same w v = v.service.catalog ≡ w.service.catalog

pub try_get_root_db-Same : (w : World Services) → Same w (try_get_root_db w).1
try_get_root_db-Same w = ap (λ x. x.0) (try_get_root_db-HeldSame w)

module _ {A : Type 0} (k : M Services A) where
  -- What a connection and then `k` keep.
  pub connected-keeps :
      (P : Catalog → Type 0) (w : World Services)
      → P w.service.catalog
      → ((v : World Services) → P v.service.catalog → P (k v).1.service.catalog)
      → P ((try_get_root_db >> k) w).1.service.catalog
  connected-keeps P w h keep =
      go (try_get_root_db w).0 (try_get_root_db w).1
        (subst P (sym (ap (λ x. x.0) (try_get_root_db-HeldSame w))) h)
    where
      go :
          (r : Result (Unit {0})) (v : World Services)
          → P v.service.catalog
          → P (continue r (λ _. k) v).1.service.catalog
      go (ok x) v h = keep v h
      go (err e) v h = h

-- A connection that is had.
abbrev pub Ready : World Services → Result (Unit {0}) × World Services → Type 0
Ready w t = (t.0 ≡ ok tt) × HeldSame w t.1 × (t.1.service.root_fault ≡ w.service.root_fault)

if-Ready :
    (b : Bool) (x y : Result (Unit {0}) × World Services) (w : World Services)
    → Ready w x
    → Ready w y
    → Ready w (if b then x else y)
if-Ready true x y w h k = h
if-Ready false x y w h k = k

module _ (w : World Services) (q : RootQuiet w) where
  reconnect-Ready : Ready w (reconnect 3 w)
  unfolding reconnect opened pinged set_root_db ping root_exec
  reconnect-Ready =
      rw (q w.service.root_calls, q (suc w.service.root_calls), root_exec) (refl, refl, refl)

  slow_path-Ready : Ready w (slow_path w)
  unfolding slow_path checked_again ping root_exec
  slow_path-Ready =
      if-Ready w.service.root_db _ _ w (rw (q w.service.root_calls, root_exec) (refl, refl, refl))
        reconnect-Ready

  -- While CockroachDB answers, there is a connection.
  try_get_root_db-Ready : Ready w (try_get_root_db w)
  unfolding try_get_root_db checked ping root_exec
  try_get_root_db-Ready =
      if-Ready w.service.root_db _ _ w (rw (q w.service.root_calls, root_exec) (refl, refl, refl))
        slow_path-Ready

  pub connected-quiet :
      {A : Type 0} (k : M Services A)
      → (v : World Services) × ((try_get_root_db >> k) w ≡ k v)
        × (v.service.catalog ≡ w.service.catalog)
        × RootQuiet v
  connected-quiet k =
      let (ready, same, fault) = try_get_root_db-Ready in
      ((try_get_root_db w).1, rw ready refl, ap (λ x. x.0) same, λ n. ap (λ f. f n) fault ∙ q n)

-- The administrator's connection and the database of the control plane are apart.
abbrev pub DbSame : World Services → World Services → Type 0
DbSame w v = (v.db ≡ w.db) × (v.fault ≡ w.fault)

root_exec-DbSame :
    {A : Type 0} (f : Catalog → Result A × Catalog) (w : World Services)
    → DbSame w (root_exec f w).1
unfolding root_exec
root_exec-DbSame f w = elim (Option-cases (w.service.root_fault w.service.root_calls)) [
  | inl e ↦ rw (e, root_exec) (refl, refl)
  | inr (text, e) ↦ rw (e, root_exec) (refl, refl)
]

DbSame-trans : (w v u : World Services) → DbSame w v → DbSame v u → DbSame w u
DbSame-trans w v u h k = (k.0 ∙ h.0, k.1 ∙ h.1)

continue-DbSame :
    {A B : Type 0} (m : M Services A) (k : A → M Services B) (w : World Services)
    → DbSame w (m w).1
    → ((a : A) (v : World Services) → DbSame v (k a v).1)
    → DbSame w ((m >>= k) w).1
continue-DbSame m k w h h' = go (m w).0 (m w).1 h
  where
    go : (r : Result _) (v : World Services) → DbSame w v → DbSame w (continue r k v).1
    go (ok a) v h = DbSame-trans w v (k a v).1 h (h' a v)
    go (err e) v h = h

pub init_user_rdb-DbSame :
    (unicode_lower : ℕ → ℕ) (uid : Text) (w : World Services)
    → DbSame w (init_user_rdb unicode_lower uid w).1
unfolding init_user_rdb
init_user_rdb-DbSame f uid w =
    let same = try_get_root_db-HeldSame w in
    continue-DbSame try_get_root_db _ w (ap (λ x. x.1) same, ap (λ x. x.2) same)
      (λ a v.
        continue-DbSame (root_exec (with_database (database f uid))) _ v
          (root_exec-DbSame (with_database (database f uid)) v)
          (λ a v.
            continue-DbSame (root_exec (with_user (username f uid))) _ v
              (root_exec-DbSame (with_user (username f uid)) v)
              (λ a v. root_exec-DbSame (with_grant (database f uid) (username f uid)) v)))
