-- ===== src/Handlers/DomainHandler/Runs.antt =====
-- Every interleaving of requests for custom domains, their goroutines and the periodic check.
use storebirth.Base.{
  ℕ, zero, suc, ◌≡◌, ◌⊎◌, inl, inr, refl, List, [], ◌∷◌, ◌++◌, Bool, true, false, Bool-cases, some,
  Option-cases, Text, codes, take, arith,
}
use storebirth.Credentials.{hex}
use storebirth.Store.{message, CustomDomain, DomainStatus, Result, ok, err}
use storebirth.Store.Sql.{World, continue, exec}
use storebirth.Store.Domains.{
  insert_domain, create_custom_domain, update_custom_domain_status, delete_custom_domain,
}
use storebirth.Domains.{
  EdgeApi, Edge, new_domain, new_custom_domain, verify_txt, nth, create_ingress_route, verified,
  after_lookup, verify_round, wake, delete_objects, delete_domain, do_domain_check, edge_name,
}
use storebirth.Handlers.{Body, error, json, proceed}
use storebirth.Handlers.DomainHandler.{
  DomainRequest, domain_is_bound, add_domain_handler, delete_domain_handler,
}
use storebirth.Handlers.DomainHandler.Proof.{
  Proved, Linked, IsProved, looked_up-IsProved, promoted-IsProved, deleted-IsProved, IsFresh, taken,
  added-IsProved, nth-All,
}
use storebirth.Handlers.DomainHandler.Checks.{
  seen, seen-update, seen-delete, demoted, checked_IsProved, left_IsProved,
}

module _ {C : Type 0} (api : EdgeApi C) where
  seen-create_ingress_route :
      (cd : CustomDomain) (s : World (Edge C)) → seen (create_ingress_route api cd s).1 ≡ seen s
  unfolding create_ingress_route
  seen-create_ingress_route cd s = ground arith

  seen-delete_objects :
      (name : Text) (s : World (Edge C)) → seen (delete_objects api name s) ≡ seen s
  unfolding delete_objects
  seen-delete_objects name s = ground arith

  -- One round of a goroutine.
  module _ (cd : CustomDomain) (k : ℕ) (s : World (Edge C))
      (links : Linked s.db.custom_domains.rows (cd, k)) where
    promoted :
        Proved (seen s) cd
        → IsProved (seen s)
        → IsProved (seen (update_custom_domain_status cd.cdid DomainStatus.success s).1)
    promoted shown h = elim (seen-update cd.cdid DomainStatus.success s) [
      | inl e ↦ rw e h
      | inr e ↦ rw e (promoted-IsProved cd k (seen s) shown links h)
    ]

    after_lookup-IsProved :
        (left : ℕ) (found : Bool)
        → (found ≡ true → Proved (seen s) cd)
        → IsProved (seen s)
        → IsProved (seen (after_lookup api cd left found s).1)
    unfolding after_lookup verified
    after_lookup-IsProved left true shown h =
        rw
          (seen-create_ingress_route cd
            (update_custom_domain_status cd.cdid DomainStatus.success s).1)
          (promoted (shown refl) h)
    after_lookup-IsProved zero false shown h = demoted cd.cdid s h
    after_lookup-IsProved (suc left) false shown h = h

  round_IsProved :
      (cd : CustomDomain) (k : ℕ) (s : World (Edge C))
      → Linked s.db.custom_domains.rows (cd, k)
      → IsProved (seen s)
      → IsProved (seen (verify_round api cd k s).1)
  unfolding verify_round
  round_IsProved cd zero s link h = h
  round_IsProved cd (suc left) s link h =
      after_lookup-IsProved cd (suc left) (verify_txt cd s).1 link left _
        (λ e. (s.service.dns_calls, omega arith, e)) (looked_up-IsProved (seen s) h)

  woken_IsProved : (i : ℕ) (s : World (Edge C)) → IsProved (seen s) → IsProved (seen (wake api i s))
  unfolding wake
  woken_IsProved i s h = elim (Option-cases (nth i s.service.verifying)) [
    | inl e ↦ rw e h
    | inr ((cd, k), e) ↦
        let t = verify_round api cd k s in
        rw e (
          left_IsProved {C = C} i t.0 t.1 (
            round_IsProved cd k s
              (nth-All (Linked s.db.custom_domains.rows) i s.service.verifying (cd, k) h.1 e) h))
  ]

  row_deleted :
      (cdid : Text) (s : World (Edge C))
      → IsProved (seen s)
      → IsProved (seen (delete_custom_domain cdid s).1)
  row_deleted cdid s h = elim (seen-delete cdid s) [
    | inl e ↦ rw e h
    | inr e ↦ rw e (deleted-IsProved cdid (seen s) h)
  ]

  objects_deleted :
      (cdid : Text) (r : Result (Unit {0})) (s : World (Edge C))
      → seen
          (continue r
            (λ (x : Unit {0}) (w : World (Edge C)). (ok tt, delete_objects api (edge_name cdid) w))
            s).1
        ≡ seen s
  objects_deleted cdid (ok x) s = seen-delete_objects (edge_name cdid) s
  objects_deleted cdid (err e) s = refl

  answered :
      (r : Result (Unit {0})) (s : World (Edge C))
      → (proceed r
          (λ e. json 404 (error (message e)))
          (λ _. json 200 (Body.message (codes "deleted")))
          s).1
        ≡ s
  answered (ok x) s = refl
  answered (err e) s = refl

  deleted_IsProved :
      (cdid : Text) (s : World (Edge C))
      → IsProved (seen s)
      → IsProved (seen (delete_domain_handler api cdid s).1)
  unfolding delete_domain_handler delete_domain
  deleted_IsProved cdid s h =
      let row = delete_custom_domain cdid s in
      rw (answered (delete_domain api cdid s).0 (delete_domain api cdid s).1)
        (rw (objects_deleted cdid row.0 row.1) (row_deleted cdid s h))

  module _ (id_bytes token_bytes : List ℕ) (user_uid : Text) (r : DomainRequest)
      (s : World (Edge C)) where
    abbrev cd : CustomDomain
    cd = new_domain id_bytes token_bytes s.now user_uid r.domain r.target

    abbrev row : CustomDomain
    row = record cd { id = s.db.custom_domains.next_id }

    abbrev add : World (Edge C)
    add = (add_domain_handler id_bytes token_bytes user_uid (some r) s).1

    seen-add :
        (seen add ≡ seen s)
        ⊎ ((taken cd s.db.custom_domains.rows ≡ false)
            × (seen add ≡ record (seen s) {
              rows = s.db.custom_domains.rows ++ row ∷ [];
              verifying = s.service.verifying ++ (cd, 12) ∷ [];
            }))
    unfolding add_domain_handler new_custom_domain create_custom_domain insert_domain exec
    seen-add = elim (Option-cases (s.fault s.calls)) [
      | inr (text, e) ↦ inl (ground (arith, e))
      | inl e ↦ elim (Bool-cases (taken cd s.db.custom_domains.rows)) [
        | inl t ↦ inl (ground (arith, e, t))
        | inr t ↦ elim (Bool-cases (domain_is_bound r)) [
          | inl b ↦ inr (t, ground (arith, e, t, b))
          | inr b ↦ inl (ground (arith, b))
        ]
      ]
    ]

    added_IsProved : IsFresh cd.cdid s.service.verifying → IsProved (seen s) → IsProved (seen add)
    added_IsProved fresh h = elim seen-add [
      | inl e ↦ rw e h
      | inr (free, e) ↦ rw e (added-IsProved cd row 12 (seen s) refl refl refl refl fresh free h)
    ]

-- What can happen next. The random id of a new domain is not that of a verification that is still
-- running.
pub data Step {C : Type 0} (api : EdgeApi C) : World (Edge C) → World (Edge C) → Type 0 where
  adds :
      (id_bytes token_bytes : List ℕ) (user_uid : Text) (r : DomainRequest) (s : World (Edge C))
      → IsFresh (take 8 (hex id_bytes)) s.service.verifying
      → Step api s (add_domain_handler id_bytes token_bytes user_uid (some r) s).1
  wakes : (i : ℕ) (s : World (Edge C)) → Step api s (wake api i s)
  removes : (cdid : Text) (s : World (Edge C)) → Step api s (delete_domain_handler api cdid s).1
  checks : (s : World (Edge C)) → Step api s (do_domain_check s).1

pub data Steps {C : Type 0} (api : EdgeApi C) : World (Edge C) → World (Edge C) → Type 0 where
  none_left : (s : World (Edge C)) → Steps api s s
  and_then : {s t u : World (Edge C)} → Step api s t → Steps api t u → Steps api s u

module _ {C : Type 0} (api : EdgeApi C) where
  Step-IsProved : (s t : World (Edge C)) → Step api s t → IsProved (seen s) → IsProved (seen t)
  Step-IsProved _ _ (adds ids tokens user r s fresh) h =
      added_IsProved api ids tokens user r s fresh h
  Step-IsProved _ _ (wakes i s) h = woken_IsProved api i s h
  Step-IsProved _ _ (removes cdid s) h = deleted_IsProved api cdid s h
  Step-IsProved _ _ (checks s) h = checked_IsProved s h

  -- Over every sequence of requests, rounds of verifications, deletions and checks, wherever a call
  -- fails and whatever DNS answers: if it held before, then after it every custom domain whose status
  -- is success had a look-up of its TXT name that showed its value, and the record of every running
  -- verification has the texts of the row of its id.
  pub Steps-IsProved :
      (s t : World (Edge C)) → Steps api s t → IsProved (seen s) → IsProved (seen t)
  Steps-IsProved s _ (none_left _) h = h
  Steps-IsProved s u (and_then {t = t} step rest) h =
      Steps-IsProved t u rest (Step-IsProved s t step h)
