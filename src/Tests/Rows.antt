-- ===== src/Tests/Rows.antt =====
-- A concrete database, and the writes of dblayer on it.
use storebirth.Base.{false, refl, [], ◌∷◌, none, Text, codes, arith, true}
use storebirth.Store.{Db, User, Worker, WorkerDeployVersion, WorkerStatus, VersionStatus}
use storebirth.Store.Sql.{exec, World, exists}
use storebirth.Store.Workers.{create_deploy_version_for_owner}
use storebirth.Store.Workers.Owner.{deploys, deletes, written, SameForOthers, written-SameForOthers}
use storebirth.Store.Workers.Deploy.{Created, create_deploy_version-atomic}
use storebirth.Store.Workers.Sound.{written-IsSound}
use storebirth.Store.Workers.Keys.{IsSound}
use storebirth.Store.Users.{get_verification_code, mark_code_used}
use storebirth.Store.Users.Once.{NotThis, mark_code_used-once}
use storebirth.Platform.{Platform, delivered}
use storebirth.Tests.Objects.{Objects}

abbrev pub ann : Text
ann = codes "annann123456"

abbrev pub bob : Text
bob = codes "bobbob123456"

abbrev pub shop : Text
shop = codes "1764150000000"

abbrev pub user : User
user = record {
  id = 1;
  uid = ann;
  email = codes "ann@x.org";
  password_hash = codes "h";
  secret_key = codes "key";
}

abbrev pub worker : Worker
worker = record {
  id = 1;
  wid = shop;
  user_uid = ann;
  worker_name = codes "shop";
  status = WorkerStatus.unloaded;
  active_version_id = none;
  env_json = [];
  secrets_json = [];
  created_at = 3;
}

abbrev version : WorkerDeployVersion
version = record {
  id = 1;
  worker_id = 2;
  image = codes "nginx";
  port = 80;
  status = VersionStatus.success;
  msg = [];
  created_at = 4;
}

abbrev pub db : Db
db = record {
  users = record { rows = user ∷ []; next_id = 2 };
  verification_codes = record { rows = []; next_id = 1 };
  workers = record {
    rows = worker ∷ record worker { id = 2; wid = codes "1764150000001"; user_uid = bob } ∷ [];
    next_id = 3;
  };
  versions = record { rows = version ∷ []; next_id = 2 };
  custom_domains = record { rows = []; next_id = 1 };
  combinator_resources = record { rows = []; next_id = 1 };
  resource_reports = record { rows = []; next_id = 1 };
  console_tasks = record { rows = []; next_id = 1 };
}

abbrev pub world : World (Platform Objects)
world = record {
  db = db;
  now = 1764150009;
  calls = 0;
  fault = λ n. none;
  service = record {
    accepted = [];
    posts = 0;
    net = λ n. delivered;
    k8s_client = true;
    cluster = record { apps = []; maps = []; secrets = [] };
  };
}

pub db-IsSound : IsSound db
unfolding exists
db-IsSound = record {
  distinct = (refl, (refl, tt));
  workers_below = ground arith;
  versions_below = ground arith;
  references = (refl, tt);
}

written-SameForOthers_example :
    SameForOthers ann db (written (deploys (codes "redis") 6379) shop ann world).db
written-SameForOthers_example = written-SameForOthers (deploys (codes "redis") 6379) shop ann world

written-IsSound_example : IsSound (written deletes shop ann world).db
written-IsSound_example = written-IsSound shop ann deletes world db-IsSound

create_deploy_version-atomic_example :
    Created shop ann
      (codes "redis")
      6379
      world
      (create_deploy_version_for_owner shop ann (codes "redis") 6379 world).0
      (create_deploy_version_for_owner shop ann (codes "redis") 6379 world).1.db
create_deploy_version-atomic_example =
    create_deploy_version-atomic shop ann (codes "redis") 6379 world

-- The same database with a code of ann.
abbrev code_world : World (Platform Objects)
code_world = record world {
  db = record db {
    verification_codes = record {
      rows =
          record {
            id = 1;
            email = codes "ann@x.org";
            code = codes "123456";
            expires_at = 99;
            used = false;
          }
          ∷ [];
      next_id = 2;
    };
  };
}

mark_code_used-once_example :
    NotThis 1
      (get_verification_code (codes "ann@x.org") (codes "123456") (mark_code_used 1 code_world).1).0
unfolding mark_code_used exec
mark_code_used-once_example =
    mark_code_used-once (codes "ann@x.org") (codes "123456") 1 code_world refl
