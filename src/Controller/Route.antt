-- ===== src/Controller/Route.antt =====
-- The address that a user is shown (workerURL of handlers/worker.handler.go) and the host that the
-- IngressRoute of the worker matches (EnsureIngressRoute of k8s/controller/worker.go).
use storebirth.Base.{◌≡◌, ◌≢◌, ap, Text, codes, ◌++◌, length, length-append, arith}
use storebirth.Names.{worker_name, worker_url}
use storebirth.Platform.{WorkerAppSpec}
use storebirth.Controller.{route_host}

-- The host in the address that a user is shown for a worker is never the host that the
-- IngressRoute of this worker matches, whatever the ids and the domain are.
pub worker_url-unrouted :
    (domain : Text) (w : WorkerAppSpec)
    → worker_url domain w.worker_id w.owner_id ≢ codes "https://" ++ route_host domain w
unfolding worker_url worker_name route_host
worker_url-unrouted domain w e =
    let tail = codes ".worker." ++ domain in
    let h : length (worker_url domain w.worker_id w.owner_id)
        ≡ length (codes "https://" ++ route_host domain w) =
      ap length e in
    omega (
      arith,
      h,
      length-append (w.worker_id ++ (codes "-" ++ w.owner_id)) tail,
      length-append w.worker_id (codes "-" ++ w.owner_id),
      length-append w.worker_id (codes "-" ++ (w.owner_id ++ tail)),
      length-append w.owner_id tail,
    )
