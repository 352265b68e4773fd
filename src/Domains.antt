-- ===== src/Domains.antt =====
-- k8s/customdomain.go and handlers/jobs/customdomain.jobs.go: the verification of the domains that
-- users bring. DNS and the Kubernetes API are parameters.
use storebirth.Base.{
  ℕ, zero, suc, List, [], ◌∷◌, ◌++◌, Bool, true, false, ◌&&◌, Option, none, some, Text, text_eq,
  codes, take, if◌then◌else◌,
}
use storebirth.Credentials.{hex}
use storebirth.Jobs.{StringMap}
use storebirth.Store.{CustomDomain, DomainStatus, failed, message, Result, ok, err}
use storebirth.Store.Sql.{World, M, ◌>>◌, ◌>>=◌, pure, raise, attempt}
use storebirth.Store.Domains.{
  get_custom_domain, list_custom_domains, create_custom_domain, update_custom_domain_status,
  delete_custom_domain, list_all_success_domains,
}

-- What CreateIngressRoute makes: an ExternalName Service, a Certificate and an IngressRoute.
pub data EdgeKind : Type 0 where
  external_service certificate ingress_route : EdgeKind

pub data EdgeObject : Type 0 where
  external_name : (labels : StringMap) (target : Text) → EdgeObject
  certificate_for : (labels : StringMap) (secret_name dns_name : Text) → EdgeObject
  route_for :
      (labels : StringMap) (rule service_name : Text) (port : ℕ) (tls_secret : Text) → EdgeObject

-- Create and Delete, in the namespace ingress
pub record EdgeApi (C : Type 0) : Type 0 where
  pub create : EdgeKind → Text → EdgeObject → C → Result (Unit {0}) × C
  pub delete : EdgeKind → Text → C → Result (Unit {0}) × C

-- `dns n` answers the n-th look-up of a TXT record, without a value for an error. `verifying` has the
-- goroutines of StartVerification, each with the rounds that it has left.
pub record Edge (C : Type 0) : Type 0 where
  pub dns_calls : ℕ
  pub dns : ℕ → Text → Option (List Text)
  pub verifying : List (CustomDomain × ℕ)
  pub k8s_client : Bool
  pub dynamic_client : Bool
  pub cluster : C

abbrev pub lists : Text → Option (List Text) → Bool
lists value none = false
lists value (some []) = false
lists value (some (r ∷ rs)) = if text_eq r value then true else lists value (some rs)

-- generateVerifyToken, of sixteen random bytes
abbrev pub generate_verify_token : List ℕ → Text
generate_verify_token bytes = hex bytes

-- The record that NewCustomDomain returns: it has no ID.
abbrev pub new_domain : List ℕ → List ℕ → ℕ → Text → Text → Text → CustomDomain
new_domain id_bytes token_bytes now user_uid domain target = record {
  id = 0;
  cdid = take 8 (generate_verify_token id_bytes);
  user_uid = user_uid;
  domain = domain;
  target = target;
  txt_name = codes "_combinator-verify." ++ domain;
  txt_value = codes "combinator-verify=" ++ generate_verify_token token_bytes;
  status = DomainStatus.pending;
  created_at = now;
}

abbrev pub nth : ℕ → List (CustomDomain × ℕ) → Option (CustomDomain × ℕ)
nth n [] = none
nth zero (g ∷ gs) = some g
nth (suc n) (g ∷ gs) = nth n gs

-- The goroutine at a position goes on with other rounds left, or has ended.
abbrev pub put_rounds : ℕ → Option ℕ → List (CustomDomain × ℕ) → List (CustomDomain × ℕ)
put_rounds n o [] = []
put_rounds zero none (g ∷ gs) = gs
put_rounds zero (some left) ((cd, k) ∷ gs) = (cd, left) ∷ gs
put_rounds (suc n) o (g ∷ gs) = g ∷ put_rounds n o gs

abbrev is_found : Result Bool → Bool
is_found (ok found) = found
is_found (err e) = false

module _ {C : Type 0} where
  -- NewCustomDomain
  unfoldable pub new_custom_domain : List ℕ → List ℕ → Text → Text → Text → M (Edge C) CustomDomain
  unfolding create_custom_domain
  new_custom_domain id_bytes token_bytes user_uid domain target w =
      let cd = new_domain id_bytes token_bytes w.now user_uid domain target in
      (do
        create_custom_domain cd.cdid user_uid domain target cd.txt_name cd.txt_value
            DomainStatus.pending
        pure cd)
        w

  -- VerifyTXT
  abbrev pub verify_txt : CustomDomain → M (Edge C) Bool
  verify_txt cd w = (
    ok (lists cd.txt_value (w.service.dns w.service.dns_calls cd.txt_name)),
    record w { service = record w.service { dns_calls = suc w.service.dns_calls } },
  )

  -- StartVerification
  abbrev pub start_verification : CustomDomain → World (Edge C) → World (Edge C)
  start_verification cd w = record w {
    service = record w.service { verifying = w.service.verifying ++ (cd, 12) ∷ [] };
  }

  abbrev pub left_with : ℕ → Option ℕ × World (Edge C) → World (Edge C)
  left_with i (o, w) = record w {
    service = record w.service { verifying = put_rounds i o w.service.verifying };
  }

  -- The world after a call whose error is not looked at.
  abbrev pub after : {A : Type 0} → M (Edge C) A → World (Edge C) → World (Edge C)
  after m w = (m w).1

  abbrev on_cluster : (C → Result (Unit {0}) × C) → M (Edge C) (Unit {0})
  on_cluster f w = (
    (f w.service.cluster).0,
    record w { service = record w.service { cluster = (f w.service.cluster).1 } },
  )

  abbrev wrapped : Text → Result (Unit {0}) → M (Edge C) (Unit {0})
  wrapped what (err e) = raise (failed (what ++ message e))
  wrapped what (ok _) = pure tt

abbrev pub edge_name : Text → Text
edge_name cdid = codes "custom-domain-" ++ cdid

abbrev pub edge_labels : CustomDomain → StringMap
edge_labels cd = (codes "app", codes "custom-domain") ∷ (codes "user-uid", cd.user_uid) ∷ []

module _ {C : Type 0} (api : EdgeApi C) where
  -- CreateIngressRoute, with both clients set
  create_objects : CustomDomain → M (Edge C) (Unit {0})
  create_objects cd =
      let name = edge_name cd.cdid in
      let tls = codes "custom-domain-tls-" ++ cd.cdid in
      do
        attempt
            (on_cluster
              (api.create external_service name (external_name (edge_labels cd) cd.target)))
            (wrapped (codes "create service failed: "))
        attempt
            (on_cluster
              (api.create certificate name (certificate_for (edge_labels cd) tls cd.domain)))
            (wrapped (codes "create certificate failed: "))
        on_cluster (
            api.create ingress_route name (
              route_for (edge_labels cd) (codes "Host(`" ++ (cd.domain ++ codes "`)")) name 443
                tls))

  -- CreateIngressRoute
  unfoldable pub create_ingress_route : CustomDomain → M (Edge C) (Unit {0})
  unfolding create_objects
  create_ingress_route cd w =
      if w.service.k8s_client && w.service.dynamic_client
      then create_objects cd w
      else raise (failed (codes "k8s client not initialized")) w

  -- The end of the goroutine: the last status, and the objects.
  unfoldable pub verified : CustomDomain → World (Edge C) → World (Edge C)
  unfolding create_ingress_route update_custom_domain_status
  verified cd w =
      after (create_ingress_route cd)
        (after (update_custom_domain_status cd.cdid DomainStatus.success) w)

  -- One round of the goroutine, with the rounds that it has left then; without a value it has ended.
  unfoldable pub after_lookup : CustomDomain → ℕ → Bool → World (Edge C) → Option ℕ × World (Edge C)
  unfolding verified update_custom_domain_status
  after_lookup cd left true w = (none, verified cd w)
  after_lookup cd zero false w =
      (none, after (update_custom_domain_status cd.cdid DomainStatus.error) w)
  after_lookup cd (suc left) false w = (some (suc left), w)

  unfoldable pub verify_round : CustomDomain → ℕ → World (Edge C) → Option ℕ × World (Edge C)
  unfolding after_lookup
  verify_round cd zero w = (none, w)
  verify_round cd (suc left) w =
      after_lookup cd left (is_found (verify_txt cd w).0) (verify_txt cd w).1

  abbrev removed_from_cluster : EdgeKind → Text → World (Edge C) → World (Edge C)
  removed_from_cluster k name = after (on_cluster (api.delete k name))

  -- What DeleteCustomDomain does to the cluster, where it looks at no error.
  unfoldable pub delete_objects : Text → World (Edge C) → World (Edge C)
  delete_objects name w =
      let w' = if w.service.k8s_client then removed_from_cluster external_service name w else w in
      if w'.service.dynamic_client
      then removed_from_cluster certificate name (removed_from_cluster ingress_route name w')
      else w'

  -- DeleteCustomDomain
  unfoldable pub delete_domain : Text → M (Edge C) (Unit {0})
  unfolding delete_custom_domain delete_objects
  delete_domain cdid = do delete_custom_domain cdid; λ w. (ok tt, delete_objects (edge_name cdid) w)

  abbrev pub wake_found : ℕ → Option (CustomDomain × ℕ) → World (Edge C) → World (Edge C)
  wake_found i none w = w
  wake_found i (some (cd, k)) w = left_with i (verify_round cd k w)

  -- The goroutine at a position wakes up.
  unfoldable pub wake : ℕ → World (Edge C) → World (Edge C)
  unfolding verify_round
  wake i w = wake_found i (nth i w.service.verifying) w

abbrev pub or_nil : Result CustomDomain → Option CustomDomain
or_nil (ok cd) = some cd
or_nil (err e) = none

abbrev pub or_none : Result (List CustomDomain) → List CustomDomain
or_none (ok cds) = cds
or_none (err e) = []

module _ {C : Type 0} where
  -- domainCheckJob.Do for one domain: the status is error where the look-up fails or the value is not
  -- among the records.
  abbrev pub recheck : CustomDomain → Result Bool → M (Edge C) (Unit {0})
  recheck cd (ok true) w = (ok tt, w)
  recheck cd (ok false) w = (ok tt, (update_custom_domain_status cd.cdid DomainStatus.error w).1)
  recheck cd (err e) w = (ok tt, (update_custom_domain_status cd.cdid DomainStatus.error w).1)

  unfoldable pub check_domains : List CustomDomain → M (Edge C) (Unit {0})
  unfolding update_custom_domain_status
  check_domains [] = pure tt
  check_domains (cd ∷ cds) = do attempt (verify_txt cd) (recheck cd); check_domains cds

  -- domainCheckJob.Do
  unfoldable pub do_domain_check : M (Edge C) (Unit {0})
  unfolding check_domains list_all_success_domains
  do_domain_check = list_all_success_domains >>= check_domains

  -- GetCustomDomain: nil where there is an error. The fields are copied one by one.
  unfoldable pub find_domain : Text → World (Edge C) → Option CustomDomain × World (Edge C)
  unfolding get_custom_domain
  find_domain cdid w = (or_nil (get_custom_domain cdid w).0, (get_custom_domain cdid w).1)

  -- ListCustomDomains: nil where there is an error
  unfoldable pub find_domains : Text → World (Edge C) → List CustomDomain × World (Edge C)
  unfolding list_custom_domains
  find_domains user_uid w =
      (or_none (list_custom_domains user_uid w).0, (list_custom_domains user_uid w).1)
