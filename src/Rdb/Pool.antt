-- ===== src/Rdb/Pool.antt =====
-- k8s/rdb.go, userDBManager: the connections of the users, of which the least recently used one is
-- closed when there are too many. A call runs without another one in between.
pub mod Bounds
pub mod Closing
use storebirth.Base.{
  ℕ, zero, suc, List, [], ◌∷◌, ◌++◌, Bool, true, false, Option, none, some, Text, text_eq, ◌==◌,
  ltb, if◌then◌else◌, length, codes, map,
}
use storebirth.Store.{failed, Result, ok, err}
use storebirth.Rdb.{remove}

abbrev pub user_db_pool_size : ℕ
user_db_pool_size = 64

-- A connection is a number; `answers` decides how the calls of sql.Open and of Ping go. The front
-- of `lru_list` is the user that was served last, and an element of it is its user.
pub record UserDbManager : Type 0 where
  -- the connection of an entry is missing once the entry was closed
  pub user_dbs : List (Text × Option ℕ)
  pub lru_list : List Text
  -- the connections that are open
  pub connections : List ℕ
  pub next_db : ℕ
  pub calls : ℕ
  pub answers : ℕ → Bool

abbrev pub find : Text → List (Text × Option ℕ) → Option (Option ℕ)
find uid [] = none
find uid (entry ∷ entries) = if text_eq entry.0 uid then some entry.1 else find uid entries

abbrev pub remove_key : Text → List (Text × Option ℕ) → List (Text × Option ℕ)
remove_key uid [] = []
remove_key uid (entry ∷ entries) =
    if text_eq entry.0 uid then remove_key uid entries else entry ∷ remove_key uid entries

abbrev close_db : ℕ → List ℕ → List ℕ
close_db db [] = []
close_db db (d ∷ dbs) = if d == db then close_db db dbs else d ∷ close_db db dbs

-- lruList.Back()
back : List Text → Option Text
back [] = none
back (uid ∷ []) = some uid
back (uid ∷ v ∷ uids) = back (v ∷ uids)

called : UserDbManager → UserDbManager
called p = record p { calls = suc p.calls }

-- userDBEntry.close
close_entry : Option ℕ → UserDbManager → UserDbManager
close_entry none p = p
close_entry (some db) p = record p { connections = close_db db p.connections }

move_to_front : Text → UserDbManager → UserDbManager
move_to_front uid p = record p { lru_list = uid ∷ remove uid p.lru_list }

-- An entry is closed, and leaves the list and the map.
clean_up : Text → Option ℕ → UserDbManager → UserDbManager
unfolding close_entry
clean_up uid db p =
    let q = close_entry db p in
    record q { user_dbs = remove_key uid q.user_dbs; lru_list = remove uid q.lru_list }

evict_entry : Text → Option (Option ℕ) → UserDbManager → UserDbManager
unfolding clean_up
evict_entry uid none p = record p { lru_list = remove uid p.lru_list }
evict_entry uid (some db) p = clean_up uid db p

evict_oldest : Option Text → UserDbManager → UserDbManager
unfolding evict_entry
evict_oldest none p = p
evict_oldest (some uid) p = evict_entry uid (find uid p.user_dbs) p

evict : UserDbManager → UserDbManager
unfolding evict_oldest back
evict p = if ltb (length p.user_dbs) user_db_pool_size then p else evict_oldest (back p.lru_list) p

-- The connection is open, and its entry is put into the map and the list.
push : Text → UserDbManager → UserDbManager
push uid p = record p {
  user_dbs = (uid, some p.next_db) ∷ remove_key uid p.user_dbs;
  lru_list = uid ∷ p.lru_list;
  connections = p.next_db ∷ p.connections;
  next_db = suc p.next_db;
}

-- The loop of three attempts.
try_connect : ℕ → Text → UserDbManager → Result ℕ × UserDbManager
unfolding called push
try_connect zero uid p = (err (failed (codes "user db unreachable after 3 attempts")), p)
try_connect (suc attempts) uid p =
    let rest = try_connect attempts uid (record (called (called p)) { next_db = suc p.next_db }) in
    if p.answers p.calls
    then (if p.answers (suc p.calls) then (ok p.next_db, push uid (called (called p))) else rest)
    else (err (failed (codes "sql.Open failed")), called p)

connect : Text → UserDbManager → Result ℕ × UserDbManager
unfolding try_connect evict
connect uid p = try_connect 3 uid (evict p)

-- The second check, under the write lock.
slow_entry : Text → Option (Option ℕ) → UserDbManager → Result ℕ × UserDbManager
unfolding connect clean_up called move_to_front
slow_entry uid none p = connect uid p
slow_entry uid (some none) p = connect uid (clean_up uid none p)
slow_entry uid (some (some db)) p =
    if p.answers p.calls
    then (ok db, move_to_front uid (called p))
    else connect uid (clean_up uid (some db) (called p))

slow_path : Text → UserDbManager → Result ℕ × UserDbManager
unfolding slow_entry
slow_path uid p = slow_entry uid (find uid p.user_dbs) p

fast_entry : Text → Option (Option ℕ) → UserDbManager → Result ℕ × UserDbManager
unfolding slow_path called move_to_front
fast_entry uid none p = slow_path uid p
fast_entry uid (some none) p = slow_path uid p
fast_entry uid (some (some db)) p =
    if p.answers p.calls then (ok db, move_to_front uid (called p)) else slow_path uid (called p)

-- getOrCreateUserDB, tryGetUserDB
pub get_or_create_user_db : Text → UserDbManager → Result ℕ × UserDbManager
unfolding fast_entry
get_or_create_user_db uid p = fast_entry uid (find uid p.user_dbs) p

close_entries : List (Text × Option ℕ) → UserDbManager → UserDbManager
unfolding close_entry
close_entries [] p = p
close_entries (entry ∷ entries) p = close_entries entries (close_entry entry.1 p)

-- closeAll: the entries stay in the map, without a connection.
unfoldable pub close_all : UserDbManager → UserDbManager
unfolding close_entries
close_all p = record (close_entries p.user_dbs p) {
  user_dbs = map (λ entry. (entry.0, none)) p.user_dbs;
}
