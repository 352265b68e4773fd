-- ===== src/Rdb/Pool/Closing.antt =====
-- The pool of k8s/rdb.go loses no connection.
use storebirth.Base.{
  ℕ, zero, suc, ◌≡◌, ◌≢◌, refl, List, [], ◌∷◌, Bool, true, false, Option, none, some, Text, text_eq,
  text_eq_iff, arith, ltb, ◌==◌, if◌then◌else◌, length, Bool-cases, inl, inr,
}
use storebirth.Rdb.Pool.{
  UserDbManager, user_db_pool_size, find, remove_key, close_db, back, called, close_entry,
  move_to_front, clean_up, evict_entry, evict_oldest, evict, push, try_connect, connect, slow_entry,
  slow_path, fast_entry, get_or_create_user_db, close_entries, close_all,
}

abbrev pub is_open : ℕ → List ℕ → Bool
is_open d [] = false
is_open d (x ∷ xs) = if x == d then true else is_open d xs

-- Every open connection is the one of an entry.
abbrev pub IsOwned : UserDbManager → Type 0
IsOwned p =
    (d : ℕ) → is_open d p.connections ≡ true → (u : Text) × (find u p.user_dbs ≡ some (some d))

is_open-close_db :
    (d db : ℕ) (xs : List ℕ)
    → is_open d (close_db db xs) ≡ (if d == db then false else is_open d xs)
is_open-close_db d db [] = ground arith
is_open-close_db d db (x ∷ xs) = ground (arith, is_open-close_db d db xs)

find-remove_key :
    (u uid : Text) (m : List (Text × Option ℕ))
    → find u (remove_key uid m) ≡ (if text_eq uid u then none else find u m)
find-remove_key u uid [] = ground arith
find-remove_key u uid (e ∷ m) =
    ground
      (arith, find-remove_key u uid m, text_eq_iff e.0 uid, text_eq_iff uid u, text_eq_iff e.0 u)

clean_up-IsOwned :
    (uid : Text) (db : Option ℕ) (p : UserDbManager)
    → find uid p.user_dbs ≡ some db
    → IsOwned p
    → IsOwned (clean_up uid db p)
unfolding clean_up close_entry
clean_up-IsOwned uid none p e own d h =
    let (u, f) = own d h in
    (u, ground (arith, find-remove_key u uid p.user_dbs, text_eq_iff uid u, e, f))
clean_up-IsOwned uid (some db) p e own d h =
    let (u, f) = own d (ground (arith, h, is_open-close_db d db p.connections)) in
    (
      u,
      ground (
        arith,
        find-remove_key u uid p.user_dbs,
        text_eq_iff uid u,
        e,
        f,
        h,
        is_open-close_db d db p.connections,
      ),
    )

-- The map has no entry of a user.
abbrev Absent : Text → UserDbManager → Type 0
Absent uid p = find uid p.user_dbs ≡ none

clean_up-Absent :
    (v uid : Text) (db : Option ℕ) (p : UserDbManager) → Absent v p → Absent v (clean_up uid db p)
unfolding clean_up close_entry
clean_up-Absent v uid none p e = ground (arith, find-remove_key v uid p.user_dbs, e)
clean_up-Absent v uid (some db) p e = ground (arith, find-remove_key v uid p.user_dbs, e)

cleaned-Absent : (uid : Text) (db : Option ℕ) (p : UserDbManager) → Absent uid (clean_up uid db p)
unfolding clean_up close_entry
cleaned-Absent uid none p = ground (arith, find-remove_key uid uid p.user_dbs, text_eq_iff uid uid)
cleaned-Absent uid (some db) p =
    ground (arith, find-remove_key uid uid p.user_dbs, text_eq_iff uid uid)

-- What the opening of a connection for a user needs.
abbrev Free : Text → UserDbManager → Type 0
Free uid p = IsOwned p × Absent uid p

evict_entry-Free :
    (v uid : Text) (o : Option (Option ℕ)) (p : UserDbManager)
    → find uid p.user_dbs ≡ o
    → Free v p
    → Free v (evict_entry uid o p)
unfolding evict_entry
evict_entry-Free v uid none p e h = h
evict_entry-Free v uid (some db) p e h =
    (clean_up-IsOwned uid db p e h.0, clean_up-Absent v uid db p h.1)

evict_oldest-Free :
    (v : Text) (o : Option Text) (p : UserDbManager) → Free v p → Free v (evict_oldest o p)
unfolding evict_oldest
evict_oldest-Free v none p h = h
evict_oldest-Free v (some uid) p h = evict_entry-Free v uid (find uid p.user_dbs) p refl h

evict-Free : (v : Text) (p : UserDbManager) → Free v p → Free v (evict p)
unfolding evict
evict-Free v p h = elim (Bool-cases (ltb (length p.user_dbs) user_db_pool_size)) [
  | inl e ↦ rw (e, evict) h
  | inr e ↦ rw (e, evict) (evict_oldest-Free v (back p.lru_list) p h)
]

push-IsOwned : (uid : Text) (p : UserDbManager) → Free uid p → IsOwned (push uid p)
unfolding push
push-IsOwned uid p (own, e) d h = elim (Bool-cases (p.next_db == d)) [
  | inl same ↦ (uid, ground (arith, same, text_eq_iff uid uid))
  | inr other ↦
      let (u, f) = own d (ground (arith, h, other)) in
      (u, ground (arith, find-remove_key u uid p.user_dbs, text_eq_iff uid u, e, f))
]

if-IsOwned :
    {A : Type 0} (b : Bool) (x y : A × UserDbManager)
    → IsOwned x.1
    → IsOwned y.1
    → IsOwned (if b then x else y).1
if-IsOwned true x y h k = h
if-IsOwned false x y h k = k

try_connect-IsOwned :
    (attempts : ℕ) (uid : Text) (p : UserDbManager)
    → Free uid p
    → IsOwned (try_connect attempts uid p).1
unfolding try_connect called
try_connect-IsOwned zero uid p h = h.0
try_connect-IsOwned (suc attempts) uid p h =
    if-IsOwned (p.answers p.calls) _ _
      (if-IsOwned (p.answers (suc p.calls)) _ _ (push-IsOwned uid (called (called p)) h) (
        try_connect-IsOwned attempts uid (record (called (called p)) { next_db = suc p.next_db })
          h))
      h.0

connect-IsOwned : (uid : Text) (p : UserDbManager) → Free uid p → IsOwned (connect uid p).1
unfolding connect
connect-IsOwned uid p h = try_connect-IsOwned 3 uid (evict p) (evict-Free uid p h)

slow_entry-IsOwned :
    (uid : Text) (o : Option (Option ℕ)) (p : UserDbManager)
    → find uid p.user_dbs ≡ o
    → IsOwned p
    → IsOwned (slow_entry uid o p).1
unfolding slow_entry called move_to_front
slow_entry-IsOwned uid none p e h = connect-IsOwned uid p (h, e)
slow_entry-IsOwned uid (some none) p e h =
    connect-IsOwned uid (clean_up uid none p)
      (clean_up-IsOwned uid none p e h, cleaned-Absent uid none p)
slow_entry-IsOwned uid (some (some db)) p e h = if-IsOwned (p.answers p.calls) _ _ h (
    connect-IsOwned uid (clean_up uid (some db) (called p))
      (clean_up-IsOwned uid (some db) (called p) e h, cleaned-Absent uid (some db) (called p)))

fast_entry-IsOwned :
    (uid : Text) (o : Option (Option ℕ)) (p : UserDbManager)
    → find uid p.user_dbs ≡ o
    → IsOwned p
    → IsOwned (fast_entry uid o p).1
unfolding fast_entry slow_path called move_to_front
fast_entry-IsOwned uid none p e h = slow_entry-IsOwned uid _ p refl h
fast_entry-IsOwned uid (some none) p e h = slow_entry-IsOwned uid _ p refl h
fast_entry-IsOwned uid (some (some db)) p e h =
    if-IsOwned (p.answers p.calls) _ _ h (slow_entry-IsOwned uid _ (called p) refl h)

-- The pool after requests of users.
unfoldable pub served_all : List Text → UserDbManager → UserDbManager
unfolding get_or_create_user_db
served_all [] p = p
served_all (uid ∷ uids) p = served_all uids (get_or_create_user_db uid p).1

served_all-IsOwned :
    (uids : List Text) (p : UserDbManager) → IsOwned p → IsOwned (served_all uids p)
unfolding served_all get_or_create_user_db
served_all-IsOwned [] p h = h
served_all-IsOwned (uid ∷ uids) p h =
    served_all-IsOwned uids (get_or_create_user_db uid p).1 (fast_entry-IsOwned uid _ p refl h)

-- A connection that is still open was open, and no entry had it.
still_open :
    (d : ℕ) (u : Text) (m : List (Text × Option ℕ)) (p : UserDbManager)
    → is_open d (close_entries m p).connections ≡ true
    → (is_open d p.connections ≡ true) × (find u m ≢ some (some d))
unfolding close_entries close_entry
still_open d u [] p h = (h, λ e. absurd (cc e))
still_open d u ((v, none) ∷ m) p h =
    let (before, other) = still_open d u m p h in (before, λ e. other (ground (arith, e)))
still_open d u ((v, some db) ∷ m) p h =
    let (before, other) = still_open d u m (close_entry (some db) p) h in
    (
      ground (arith, before, is_open-close_db d db p.connections),
      λ e. other (ground (arith, e, before, is_open-close_db d db p.connections)),
    )

none_open : (xs : List ℕ) → ((d : ℕ) → is_open d xs ≡ false) → xs ≡ []
none_open [] h = refl
none_open (x ∷ xs) h = absurd (ground (arith, h x))

-- After any requests of users, however the calls of the server went, closeAll leaves no connection
-- open, if every open one was that of an entry before, as in a new pool.
pub close_all-served_all :
    (uids : List Text) (p : UserDbManager)
    → IsOwned p
    → (close_all (served_all uids p)).connections ≡ []
unfolding close_all
close_all-served_all uids p own =
    let q = served_all uids p in
    none_open (close_all q).connections λ d.
      elim (Bool-cases (is_open d (close_all q).connections)) [
        | inl h ↦
            let (u, e) = served_all-IsOwned uids p own d (still_open d [] q.user_dbs q h).0 in
            absurd ((still_open d u q.user_dbs q h).1 e)
        | inr h ↦ h
      ]
