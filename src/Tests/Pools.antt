-- ===== src/Tests/Pools.antt =====
-- The pool of connections on a concrete state.
use storebirth.Base.{ap, text_eq, ◌≡◌, [], ◌∷◌, some, none, codes, arith, ltb}
use storebirth.Rdb.Pool.{UserDbManager, get_or_create_user_db, close_all}
use storebirth.Rdb.Pool.Bounds.{IsBounded, Served, get_or_create_user_db-Served}
use storebirth.Rdb.Pool.Closing.{IsOwned, served_all, close_all-served_all}

-- Two users, and a server whose first two answers are missing.
abbrev pool : UserDbManager
pool = record {
  user_dbs = (codes "ann", some 4) ∷ (codes "bob", none) ∷ [];
  lru_list = codes "bob" ∷ codes "ann" ∷ [];
  connections = 4 ∷ [];
  next_db = 5;
  calls = 0;
  answers = λ n. ltb 1 n;
}

pool-IsBounded : IsBounded pool
pool-IsBounded = record { bound = omega arith; same_users = λ uid. ground arith }

get_or_create_user_db-Served_example :
    Served (codes "ann") (get_or_create_user_db (codes "ann") pool)
get_or_create_user_db-Served_example =
    get_or_create_user_db-Served (codes "ann") pool pool-IsBounded

pool-IsOwned : IsOwned pool
unfolding text_eq
pool-IsOwned d h =
    (codes "ann", let same : 4 ≡ d = ground (arith, h) in ap (λ n. some (some n)) same)

close_all-served_all_example :
    (close_all (served_all (codes "bob" ∷ codes "ann" ∷ []) pool)).connections ≡ []
close_all-served_all_example =
    close_all-served_all (codes "bob" ∷ codes "ann" ∷ []) pool pool-IsOwned
