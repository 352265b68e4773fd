-- ===== src/Tests/Resources.antt =====
-- The resources of the combinator on a concrete database and fleet.
use storebirth.Base.{◌≡◌, ◌≢◌, refl, [], ◌∷◌, true, none, codes, arith, Text, text_eq}
use storebirth.Store.{ok}
use storebirth.Store.Resources.{new_resource}
use storebirth.Store.Sql.{World}
use storebirth.Rdb.Pool.{UserDbManager}
use storebirth.Combinator.{Fleet, rdb, do_create_rdb}
use storebirth.Combinator.Created.{CreateEnds, do_create_rdb-CreateEnds}
use storebirth.Handlers.CombinatorHandler.Owner.{drop_rdb, of_user, served, served-of_user}
use storebirth.Tests.Rows.{ann, bob, db, world}
use storebirth.Tests.Audits.{services, same_char}

abbrev users : UserDbManager
users = record {
  user_dbs = [];
  lru_list = [];
  connections = [];
  next_db = 1;
  calls = 0;
  answers = λ n. true;
}

abbrev fleet : Fleet
fleet = record {
  rdb = services;
  users = users;
  schemas = [];
  schema_grants = [];
  user_calls = 0;
  user_fault = λ n. none;
  k8s_client = true;
  pods = ok (record { running = true; ip = codes "10.0.0.7" } ∷ []);
  notices = [];
}

abbrev id : Text
id = codes "0a0b0c0d0e0f0102"

abbrev fleet_world : World Fleet
fleet_world = record {
  db = record db {
    combinator_resources = record { rows = new_resource 1 bob rdb id 5 ∷ []; next_id = 2 };
  };
  now = 9;
  calls = 0;
  fault = λ n. none;
  service = fleet;
}

do_create_rdb-CreateEnds_example :
    CreateEnds same_char bob id
      (new_resource 1 bob rdb id 5 ∷ [])
      (do_create_rdb same_char bob id fleet_world)
do_create_rdb-CreateEnds_example = do_create_rdb-CreateEnds same_char bob id fleet_world (λ n. refl)

ann_is_not_bob : ann ≢ bob
unfolding text_eq
ann_is_not_bob e = ground (arith, e)

served-of_user_example :
    of_user bob (served (drop_rdb id) ann world).1.db.combinator_resources.rows
    ≡ of_user bob world.db.combinator_resources.rows
served-of_user_example = served-of_user (drop_rdb id) ann bob world ann_is_not_bob
