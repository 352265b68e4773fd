-- ===== src/Rdb/Pool/Bounds.antt =====
-- The bound and the order of the pool of k8s/rdb.go.
use storebirth.Base.{
  ℕ, zero, suc, ◌≤◌, ◌<◌, ◌≡◌, refl, sym, ap, ◌∙◌, List, [], ◌∷◌, Bool, true, false, Option, none,
  some, Text, text_eq, text_eq_iff, arith, ltb, ltb→lt, if◌then◌else◌, length, Bool-cases, inl, inr,
}
use storebirth.Store.{Result, ok, err}
use storebirth.Rdb.{contains, remove}
use storebirth.Rdb.Root.{contains-remove}
use storebirth.Rdb.Pool.{
  UserDbManager, user_db_pool_size, find, remove_key, back, called, close_entry, move_to_front,
  clean_up, evict_entry, evict_oldest, evict, push, try_connect, connect, slow_entry, slow_path,
  fast_entry, get_or_create_user_db,
}

abbrev pub has_key : Text → List (Text × Option ℕ) → Bool
has_key uid [] = false
has_key uid (entry ∷ entries) = if text_eq entry.0 uid then true else has_key uid entries

-- The list has the users of the map, and there are not too many.
pub record IsBounded (p : UserDbManager) : Type 0 where
  pub bound : length p.user_dbs ≤ user_db_pool_size
  pub same_users : (uid : Text) → contains uid p.lru_list ≡ has_key uid p.user_dbs

has_key-remove_key :
    (k uid : Text) (m : List (Text × Option ℕ))
    → has_key k (remove_key uid m) ≡ (if text_eq uid k then false else has_key k m)
has_key-remove_key k uid [] = ground arith
has_key-remove_key k uid (e ∷ m) =
    ground
      (arith, has_key-remove_key k uid m, text_eq_iff e.0 uid, text_eq_iff uid k, text_eq_iff e.0 k)

length-remove_key : (uid : Text) (m : List (Text × Option ℕ)) → length (remove_key uid m) ≤ length m
length-remove_key uid [] = omega arith
length-remove_key uid (e ∷ m) = ground (arith, length-remove_key uid m)

length-remove_key_less :
    (uid : Text) (m : List (Text × Option ℕ))
    → has_key uid m ≡ true
    → length (remove_key uid m) < length m
length-remove_key_less uid [] h = absurd (cc)
length-remove_key_less uid (e ∷ m) h =
    ground (arith, length-remove_key uid m, length-remove_key_less uid m)

back-contains : (uids : List Text) (uid : Text) → back uids ≡ some uid → contains uid uids ≡ true
unfolding back
back-contains [] uid h = absurd (cc)
back-contains (u ∷ []) uid h = ground (arith, text_eq_iff u uid)
back-contains (u ∷ v ∷ uids) uid h = ground (arith, back-contains (v ∷ uids) uid h)

back-none : (uids : List Text) → back uids ≡ none → uids ≡ []
unfolding back
back-none [] h = refl
back-none (u ∷ []) h = absurd (cc)
back-none (u ∷ v ∷ uids) h = absurd (let p : v ∷ uids ≡ [] = back-none (v ∷ uids) h in cc p)

no_keys : (m : List (Text × Option ℕ)) → ((uid : Text) → has_key uid m ≡ false) → m ≡ []
no_keys [] h = refl
no_keys (e ∷ m) h = absurd (ground (arith, h e.0, text_eq_iff e.0 e.0))

find-has_key : (uid : Text) (m : List (Text × Option ℕ)) → find uid m ≡ none → has_key uid m ≡ false
find-has_key uid [] h = refl
find-has_key uid (e ∷ m) h = ground (arith, find-has_key uid m)

clean_up-IsBounded :
    (uid : Text) (db : Option ℕ) (p : UserDbManager) → IsBounded p → IsBounded (clean_up uid db p)
unfolding clean_up close_entry
clean_up-IsBounded uid none p v = record {
  bound = omega (arith, v.bound, length-remove_key uid p.user_dbs);
  same_users = λ k. ground (
    arith,
    contains-remove k uid p.lru_list,
    has_key-remove_key k uid p.user_dbs,
    v.same_users k,
  );
}
clean_up-IsBounded uid (some db) p v = record {
  bound = omega (arith, v.bound, length-remove_key uid p.user_dbs);
  same_users = λ k. ground (
    arith,
    contains-remove k uid p.lru_list,
    has_key-remove_key k uid p.user_dbs,
    v.same_users k,
  );
}

-- There is room for one more.
abbrev Room : UserDbManager → Type 0
Room p = length p.user_dbs < user_db_pool_size

evict_entry-Room :
    (uid : Text) (o : Option (Option ℕ)) (p : UserDbManager)
    → find uid p.user_dbs ≡ o
    → contains uid p.lru_list ≡ true
    → IsBounded p
    → IsBounded (evict_entry uid o p) × Room (evict_entry uid o p)
unfolding evict_entry clean_up close_entry
evict_entry-Room uid none p e member v =
    absurd (ground (arith, v.same_users uid, find-has_key uid p.user_dbs e))
evict_entry-Room uid (some none) p e member v = (
  clean_up-IsBounded uid none p v,
  omega (arith, v.bound, length-remove_key_less uid p.user_dbs (sym (v.same_users uid) ∙ member)),
)
evict_entry-Room uid (some (some db)) p e member v = (
  clean_up-IsBounded uid (some db) p v,
  omega (arith, v.bound, length-remove_key_less uid p.user_dbs (sym (v.same_users uid) ∙ member)),
)

evict_oldest-Room :
    (o : Option Text) (p : UserDbManager)
    → back p.lru_list ≡ o
    → IsBounded p
    → IsBounded (evict_oldest o p) × Room (evict_oldest o p)
unfolding evict_oldest
evict_oldest-Room none p e v =
    let empty =
      no_keys p.user_dbs
        (λ uid. sym (v.same_users uid) ∙ ap (contains uid) (back-none p.lru_list e)) in
    (v, omega (arith, ap length empty))
evict_oldest-Room (some uid) p e v =
    evict_entry-Room uid (find uid p.user_dbs) p refl (back-contains p.lru_list uid e) v

evict-Room : (p : UserDbManager) → IsBounded p → IsBounded (evict p) × Room (evict p)
unfolding evict
evict-Room p v = elim (Bool-cases (ltb (length p.user_dbs) user_db_pool_size)) [
  | inl e ↦ rw (e, evict) (v, ltb→lt _ _ e)
  | inr e ↦ rw (e, evict) (evict_oldest-Room (back p.lru_list) p refl v)
]

-- What a user is served with: a connection that the entry of the user has, and the user is in
-- front.
abbrev pub Served : Text → Result ℕ × UserDbManager → Type 0
Served uid (ok db, p) =
    IsBounded p
    × (find uid p.user_dbs ≡ some (some db))
    × ((rest : List Text) × (p.lru_list ≡ uid ∷ rest))
Served uid (err e, p) = IsBounded p

if-Served :
    (uid : Text) (b : Bool) (x y : Result ℕ × UserDbManager)
    → Served uid x
    → Served uid y
    → Served uid (if b then x else y)
if-Served uid true x y h k = h
if-Served uid false x y h k = k

push-Served :
    (uid : Text) (p : UserDbManager) → IsBounded p → Room p → Served uid (ok p.next_db, push uid p)
unfolding push
push-Served uid p v room = (
  record {
    bound = omega (arith, length-remove_key uid p.user_dbs);
    same_users = λ k. ground (arith, has_key-remove_key k uid p.user_dbs, v.same_users k);
  },
  ground (arith, text_eq_iff uid uid),
  (p.lru_list, refl),
)

try_connect-Served :
    (attempts : ℕ) (uid : Text) (p : UserDbManager)
    → IsBounded p
    → Room p
    → Served uid (try_connect attempts uid p)
unfolding try_connect called
try_connect-Served zero uid p v room = v
try_connect-Served (suc attempts) uid p v room =
    if-Served uid (p.answers p.calls) _ _
      (if-Served uid (p.answers (suc p.calls)) _ _
        (push-Served uid (called (called p)) (record { bound = v.bound; same_users = v.same_users })
          room)
        (try_connect-Served attempts uid (record (called (called p)) { next_db = suc p.next_db })
          (record { bound = v.bound; same_users = v.same_users }) room))
      (record { bound = v.bound; same_users = v.same_users })

connect-Served : (uid : Text) (p : UserDbManager) → IsBounded p → Served uid (connect uid p)
unfolding connect
connect-Served uid p v = let (w, room) = evict-Room p v in try_connect-Served 3 uid (evict p) w room

move-Served :
    (uid : Text) (db : ℕ) (p : UserDbManager)
    → find uid p.user_dbs ≡ some (some db)
    → has_key uid p.user_dbs ≡ true
    → IsBounded p
    → Served uid (ok db, move_to_front uid (called p))
unfolding move_to_front called
move-Served uid db p e key v = (
  record {
    bound = v.bound;
    same_users =
        λ k. ground (arith, contains-remove k uid p.lru_list, v.same_users k, text_eq_iff uid k);
  },
  e,
  (remove uid p.lru_list, refl),
)

found-has_key :
    (uid : Text) (o : Option ℕ) (m : List (Text × Option ℕ))
    → find uid m ≡ some o
    → has_key uid m ≡ true
found-has_key uid o [] h = absurd (cc)
found-has_key uid o (e ∷ m) h = ground (arith, found-has_key uid o m)

slow_entry-Served :
    (uid : Text) (o : Option (Option ℕ)) (p : UserDbManager)
    → find uid p.user_dbs ≡ o
    → IsBounded p
    → Served uid (slow_entry uid o p)
unfolding slow_entry called
slow_entry-Served uid none p e v = connect-Served uid p v
slow_entry-Served uid (some none) p e v =
    connect-Served uid (clean_up uid none p) (clean_up-IsBounded uid none p v)
slow_entry-Served uid (some (some db)) p e v =
    if-Served uid (p.answers p.calls) _ _
      (move-Served uid db p e (found-has_key uid _ p.user_dbs e) v)
      (connect-Served uid (clean_up uid (some db) (called p)) (
        clean_up-IsBounded uid (some db) (called p)
          (record { bound = v.bound; same_users = v.same_users })))

fast_entry-Served :
    (uid : Text) (o : Option (Option ℕ)) (p : UserDbManager)
    → find uid p.user_dbs ≡ o
    → IsBounded p
    → Served uid (fast_entry uid o p)
unfolding fast_entry slow_path called
fast_entry-Served uid none p e v = slow_entry-Served uid _ p refl v
fast_entry-Served uid (some none) p e v = slow_entry-Served uid _ p refl v
fast_entry-Served uid (some (some db)) p e v =
    if-Served uid (p.answers p.calls) _ _
      (move-Served uid db p e (found-has_key uid _ p.user_dbs e) v)
      (slow_entry-Served uid _ (called p) refl
        (record { bound = v.bound; same_users = v.same_users }))

-- However its calls go, the pool stays within its size, with one list and one map of the same
-- users; and a connection that it returns is the one of the entry of the user, who is in front.
pub get_or_create_user_db-Served :
    (uid : Text) (p : UserDbManager) → IsBounded p → Served uid (get_or_create_user_db uid p)
unfolding get_or_create_user_db
get_or_create_user_db-Served uid p v = fast_entry-Served uid _ p refl v
