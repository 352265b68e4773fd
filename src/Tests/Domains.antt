-- ===== src/Tests/Domains.antt =====
-- A custom domain on a concrete database, DNS and cluster.
use storebirth.Base.{◌≡◌, refl, List, [], ◌∷◌, true, none, some, Text, codes, text_eq}
use storebirth.Store.{CustomDomain, DomainStatus, ok}
use storebirth.Store.Sql.{World, exec, exists, update}
use storebirth.Credentials.{hex}
use storebirth.Domains.{EdgeApi, Edge, wake}
use storebirth.Handlers.DomainHandler.{DomainRequest, add_domain_handler}
use storebirth.Handlers.DomainHandler.Proof.{IsProved}
use storebirth.Handlers.DomainHandler.Runs.{adds, wakes, none_left, and_then, Steps-IsProved}
use storebirth.Handlers.DomainHandler.Checks.{seen}
use storebirth.Tests.Rows.{ann, db}

-- The cluster is the list of the names that were created.
abbrev api : EdgeApi (List Text)
api = record { create = λ k name o c. (ok tt, name ∷ c); delete = λ k name c. (ok tt, c) }

abbrev shown : Text
shown = codes "combinator-verify=0a0b"

abbrev edge : Edge (List Text)
edge = record {
  dns_calls = 0;
  dns = λ n name. some (codes "v=spf1" ∷ shown ∷ []);
  verifying = [];
  k8s_client = true;
  dynamic_client = true;
  cluster = [];
}

abbrev world : World (Edge (List Text))
world = record { db = db; now = 9; calls = 0; fault = λ n. none; service = edge }

abbrev request : DomainRequest
request = record { domain = codes "ann.org"; target = codes "w.example.org" }

abbrev added : World (Edge (List Text))
added = (add_domain_handler (1 ∷ 2 ∷ 3 ∷ 4 ∷ []) (10 ∷ 11 ∷ []) ann (some request) world).1

Steps-IsProved_example : IsProved (seen (wake api 0 added))
Steps-IsProved_example =
    Steps-IsProved api world (wake api 0 added)
      (and_then (adds (1 ∷ 2 ∷ 3 ∷ 4 ∷ []) (10 ∷ 11 ∷ []) ann request world tt)
        (and_then (wakes 0 added) (none_left (wake api 0 added))))
      (tt, tt)

abbrev proved_row : CustomDomain
proved_row = record {
  id = 1;
  cdid = codes "01020304";
  user_uid = ann;
  domain = codes "ann.org";
  target = codes "w.example.org";
  txt_name = codes "_combinator-verify.ann.org";
  txt_value = shown;
  status = DomainStatus.success;
  created_at = 9;
}

abbrev after : World (Edge (List Text))
after = wake api 0 added

-- The run above ends with the status success.
success_after : after.db.custom_domains.rows ≡ proved_row ∷ []
unfolding wake add_domain_handler exec text_eq hex exists update
success_after = refl
