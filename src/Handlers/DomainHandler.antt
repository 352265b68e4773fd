-- ===== src/Handlers/DomainHandler.antt =====
-- handlers/customdomain.handler.go, with GetCustomDomain and ListCustomDomains of
-- k8s/customdomain.go.
pub mod Proof
pub mod Checks
pub mod Runs
use storebirth.Base.{ℕ, List, [], Bool, not, ◌&&◌, Option, none, some, Text, text_eq, codes}
use storebirth.Store.{CustomDomain, message, Result, ok, err}
use storebirth.Store.Sql.{World}
use storebirth.Domains.{
  EdgeApi, Edge, new_custom_domain, start_verification, delete_domain, find_domain, find_domains,
}
use storebirth.Handlers.{
  Body, error, domain_added, domain_list, domain_detail, HandlerOn, json, try, bind,
}

pub record DomainRequest : Type 0 where
  pub domain : Text
  pub target : Text

abbrev pub domain_is_bound : DomainRequest → Bool
domain_is_bound r = not (text_eq r.domain []) && not (text_eq r.target [])

module _ {C : Type 0} where
  -- AddCustomDomain, with the random bytes of the two tokens
  unfoldable pub add_domain_handler :
      List ℕ → List ℕ → Text → Option DomainRequest → HandlerOn (Edge C)
  unfolding new_custom_domain text_eq
  add_domain_handler id_bytes token_bytes user_uid request = bind request domain_is_bound λ r.
      try (new_custom_domain id_bytes token_bytes user_uid r.domain r.target)
        (λ e. json 500 (error (message e)))
        (λ cd w. json 200 (domain_added cd) (start_verification cd w))

  -- ListCustomDomains
  unfoldable pub list_domains_handler : Text → HandlerOn (Edge C)
  unfolding find_domains
  list_domains_handler user_uid w =
      json 200 (domain_list (find_domains user_uid w).0) (find_domains user_uid w).1

  abbrev pub show_domain : Option CustomDomain → HandlerOn (Edge C)
  show_domain none = json 404 (error (codes "domain not found"))
  show_domain (some cd) = json 200 (domain_detail cd)

  -- GetCustomDomain, of any user
  unfoldable pub get_domain_handler : Text → HandlerOn (Edge C)
  unfolding find_domain
  get_domain_handler cdid w = show_domain (find_domain cdid w).0 (find_domain cdid w).1

  -- DeleteCustomDomain, of any user
  unfoldable pub delete_domain_handler : EdgeApi C → Text → HandlerOn (Edge C)
  unfolding delete_domain
  delete_domain_handler api cdid =
      try (delete_domain api cdid) (λ e. json 404 (error (message e)))
        (λ _. json 200 (Body.message (codes "deleted")))
