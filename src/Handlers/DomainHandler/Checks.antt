-- ===== src/Handlers/DomainHandler/Checks.antt =====
-- The periodic check of handlers/jobs/customdomain.jobs.go, and what its calls leave of the domains.
use storebirth.Base.{
  ℕ, ◌≡◌, ◌⊎◌, inl, inr, refl, List, [], ◌∷◌, Bool, true, false, Option, Option-cases, Text, arith,
}
use storebirth.Store.{CustomDomain, DomainStatus, Result, ok, err}
use storebirth.Store.Sql.{World, M, continue, ◌>>◌, exec, delete}
use storebirth.Store.Domains.{
  has_cdid, update_custom_domain_status, delete_custom_domain, list_all_success_domains,
}
use storebirth.Domains.{Edge, verify_txt, left_with, recheck, check_domains, do_domain_check}
use storebirth.Handlers.DomainHandler.Proof.{
  Seen, IsProved, with_status, looked_up-IsProved, demoted-IsProved, put_rounds-Linked,
}

module _ {C : Type 0} where
  abbrev pub seen : World (Edge C) → Seen
  seen s = record {
    rows = s.db.custom_domains.rows;
    verifying = s.service.verifying;
    dns_calls = s.service.dns_calls;
    dns = s.service.dns;
  }

  -- A change of the status, which a failing call does not make.
  pub seen-update :
      (cdid : Text) (st : DomainStatus) (s : World (Edge C))
      → (seen (update_custom_domain_status cdid st s).1 ≡ seen s)
        ⊎ (seen (update_custom_domain_status cdid st s).1
            ≡ record (seen s) { rows = with_status cdid st s.db.custom_domains.rows })
  unfolding update_custom_domain_status exec
  seen-update cdid st s = elim (Option-cases (s.fault s.calls)) [
    | inl e ↦ inr (rw (e, update_custom_domain_status, exec) refl)
    | inr (text, e) ↦ inl (rw (e, update_custom_domain_status, exec) refl)
  ]

  pub seen-delete :
      (cdid : Text) (s : World (Edge C))
      → (seen (delete_custom_domain cdid s).1 ≡ seen s)
        ⊎ (seen (delete_custom_domain cdid s).1
            ≡ record (seen s) { rows = delete (has_cdid cdid) s.db.custom_domains.rows })
  unfolding delete_custom_domain exec
  seen-delete cdid s = elim (Option-cases (s.fault s.calls)) [
    | inl e ↦ inr (rw (e, delete_custom_domain, exec) refl)
    | inr (text, e) ↦ inl (rw (e, delete_custom_domain, exec) refl)
  ]

  pub demoted :
      (cdid : Text) (s : World (Edge C))
      → IsProved (seen s)
      → IsProved (seen (update_custom_domain_status cdid DomainStatus.error s).1)
  demoted cdid s h = elim (seen-update cdid DomainStatus.error s) [
    | inl e ↦ rw e h
    | inr e ↦ rw e (demoted-IsProved cdid (seen s) h)
  ]

  -- The check: each look-up, and a status that becomes error.
  rechecked :
      (cd : CustomDomain) (r : Result Bool) (s : World (Edge C))
      → IsProved (seen s)
      → IsProved (seen (recheck cd r s).1)
  rechecked cd (ok true) s h = h
  rechecked cd (ok false) s h = demoted cd.cdid s h
  rechecked cd (err e) s h = demoted cd.cdid s h

  checked_next :
      (cd : CustomDomain) (next : M (Edge C) (Unit {0})) (r : Result Bool) (s : World (Edge C))
      → ((s' : World (Edge C)) → IsProved (seen s') → IsProved (seen (next s').1))
      → IsProved (seen s)
      → IsProved (seen ((recheck cd r >> next) s).1)
  checked_next cd next (ok true) s f h = f s h
  checked_next cd next (ok false) s f h = f _ (demoted cd.cdid s h)
  checked_next cd next (err e) s f h = f _ (demoted cd.cdid s h)

  checked_all :
      (cds : List CustomDomain) (s : World (Edge C))
      → IsProved (seen s)
      → IsProved (seen (check_domains cds s).1)
  unfolding check_domains
  checked_all [] s h = h
  checked_all (cd ∷ cds) s h =
      checked_next cd (check_domains cds) (verify_txt cd s).0 (verify_txt cd s).1 (checked_all cds)
        (looked_up-IsProved (seen s) h)

  listed_then :
      (r : Result (List CustomDomain)) (s : World (Edge C))
      → IsProved (seen s)
      → IsProved (seen (continue r check_domains s).1)
  listed_then (ok cds) s h = checked_all cds s h
  listed_then (err e) s h = h

  seen-list : (s : World (Edge C)) → seen (list_all_success_domains s).1 ≡ seen s
  unfolding list_all_success_domains exec
  seen-list s = ground arith

  pub checked_IsProved :
      (s : World (Edge C)) → IsProved (seen s) → IsProved (seen (do_domain_check s).1)
  unfolding do_domain_check
  checked_IsProved s h =
      listed_then (list_all_success_domains s).0 (list_all_success_domains s).1 (rw (seen-list s) h)

  pub left_IsProved :
      (i : ℕ) (o : Option ℕ) (s : World (Edge C))
      → IsProved (seen s)
      → IsProved (seen (left_with i (o, s)))
  left_IsProved i o s (rows, links) = (rows, put_rounds-Linked _ i o s.service.verifying links)
