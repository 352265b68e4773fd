-- ===== src/Controller/Listing.antt =====
-- ListWorkers of k8s/controller/worker.go.
use storebirth.Base.{◌≡◌, refl, List, [], ◌∷◌, ◌++◌, Bool, true, false, Text, text_eq, codes, map}
use storebirth.Platform.{WorkerAppSpec}
use storebirth.Kube.{Answer, answer, refused, refuse, K, Deployment}
use storebirth.Controller.{no_client, deployment_of}
use storebirth.Controller.Events.{label}

abbrev pub listed : Deployment → WorkerAppSpec
listed d = record {
  worker_id = label (codes "worker-id") d.labels;
  owner_id = label (codes "owner-id") d.labels;
  owner_sk = [];
  image = d.image;
  port = 0;
}

-- `worker-id=…` and `owner-id=…`, for the ids that are given, joined by a comma
abbrev pub selector : Text → Text → Text
selector [] [] = []
selector [] (c ∷ cs) = codes "owner-id=" ++ (c ∷ cs)
selector (c ∷ cs) [] = codes "worker-id=" ++ (c ∷ cs)
selector (c ∷ cs) (d ∷ ds) =
    codes "worker-id=" ++ ((c ∷ cs) ++ (codes "," ++ (codes "owner-id=" ++ (d ∷ ds))))

module _ {C : Type 0} (list : Text → K C (List Deployment)) where
  abbrev pub listed_all : Answer (List Deployment) → Answer (List WorkerAppSpec)
  listed_all (answer ds) = answer (map listed ds)
  listed_all (refused e) = refused e

  -- ListWorkers; `list` lists the Deployments of the namespace by a selector of labels
  unfoldable pub list_workers : Bool → Text → Text → K C (List WorkerAppSpec)
  list_workers false worker_id owner_id c =
      refuse (record { is_not_found = false; text = no_client }) c
  list_workers true worker_id owner_id c =
      let s = selector worker_id owner_id in (listed_all (list s c).0, (list s c).1)

-- What ListWorkers shows of the Deployment that EnsureDeployment makes: the ids and the image.
listed-deployment_of :
    (w : WorkerAppSpec) → listed (deployment_of w) ≡ record w { owner_sk = []; port = 0 }
unfolding text_eq
listed-deployment_of w = refl
