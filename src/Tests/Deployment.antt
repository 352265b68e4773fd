-- ===== src/Tests/Deployment.antt =====
-- The deployment of a worker on a concrete database and cluster.
use storebirth.Base.{◌≡◌, refl, text_eq, [], some, codes, true}
use storebirth.Store.{ok}
use storebirth.Store.Sql.{World, first}
use storebirth.Store.Workers.{join}
use storebirth.Store.Workers.Deploy.{activated}
use storebirth.Platform.{Platform}
use storebirth.Jobs.Worker.{do_deploy_worker, spec_of, create_worker_app_cr}
use storebirth.Jobs.Worker.Deploy.{app_name, cr_run, DeployEnds, do_deploy_worker_outcome}
use storebirth.Handlers.{deploy_started}
use storebirth.Handlers.WorkerHandler.{DeployRequest, deploy_is_bound, deploy_worker_handler}
use storebirth.Handlers.WorkerHandler.Deploy.{
  deploy_accepted, joined, deploy_worker-runs, deploy_worker-not_owned,
}
use storebirth.Tests.Objects.{Objects, cluster, worker_apps-IsStore}
use storebirth.Tests.Rows.{ann, shop, user, worker, db, world, db-IsSound}

abbrev request : DeployRequest
request = record { user_uid = ann; worker_id = shop; image = codes "redis"; port = 6379 }

abbrev accepted : World (Platform Objects)
accepted = deploy_accepted request worker world

bound : deploy_is_bound request ≡ true
unfolding text_eq
bound = refl

cr_is_run : (cr_run cluster (joined request 2 world.now worker user) accepted).0 ≡ ok tt
unfolding create_worker_app_cr
cr_is_run = refl

deploy_worker-runs_example :
    (deploy_worker_handler (some request) world
      ≡ (record { status = 200; body = deploy_started shop 2 }, accepted))
    × ((do_deploy_worker cluster 2 accepted).0 ≡ ok tt)
    × ((do_deploy_worker cluster 2 accepted).1.db ≡ activated 2 1 accepted.db)
    × (cluster.worker_apps.view
          (do_deploy_worker cluster 2 accepted).1.service.cluster
          (app_name cluster (joined request 2 world.now worker user))
        ≡ some (spec_of (joined request 2 world.now worker user)))
unfolding first text_eq
deploy_worker-runs_example =
    deploy_worker-runs cluster request worker user world bound db-IsSound (λ n. refl)
      worker_apps-IsStore refl refl refl cr_is_run

do_deploy_worker_outcome_example : DeployEnds cluster 1 world (join 1 db)
do_deploy_worker_outcome_example =
    do_deploy_worker_outcome cluster 1 world (λ n. refl) worker_apps-IsStore

abbrev foreign_request : DeployRequest
foreign_request = record request { worker_id = codes "1764150000001" }

foreign_bound : deploy_is_bound foreign_request ≡ true
unfolding text_eq
foreign_bound = refl

deploy_worker-not_owned_example :
    ((deploy_worker_handler (some foreign_request) world).0.status ≡ 500)
    × ((deploy_worker_handler (some foreign_request) world).1.db ≡ db)
    × ((deploy_worker_handler (some foreign_request) world).1.service.accepted ≡ [])
unfolding first text_eq
deploy_worker-not_owned_example = deploy_worker-not_owned foreign_request world foreign_bound refl
