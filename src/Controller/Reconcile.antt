-- ===== src/Controller/Reconcile.antt =====
-- reconcile: what it stores, and the status that it reports.
use storebirth.Base.{ℕ, ◌≤◌, ◌≡◌, refl, sym, ap₂, ◌∙◌, ◌⊎◌, inl, inr, some, Text, codes, []}
use storebirth.Platform.{WorkerAppSpec}
use storebirth.Kube.{
  ApiError, Answer, answer, refused, AppStatus, WorkerApp, View, KubeApi, IsApi, ServesApp,
}
use storebirth.Controller.{
  worker_from_unstructured, Clients, ensure_all, status_read, update_status, report, reconcile,
}
use storebirth.Controller.Ensured.{ensured, first_objects}
use storebirth.Controller.Refines.{Ends, ensure_all-Ends}

-- The status that reconcile ends with.
abbrev pub told : Answer (Unit {0}) → AppStatus
told (answer _) = record { phase = codes "Running"; note = [] }
told (refused e) = record { phase = codes "Failed"; note = e.text }

module _ {C : Type 0} (api : KubeApi C) (law : IsApi api) (clients : Clients) (u : WorkerApp) where
  -- updateStatus changes no object.
  view-status_read :
      (st : AppStatus) (r : Answer WorkerApp) (c : C)
      → api.view (status_read api clients st r c) ≡ api.view c
  view-status_read st (answer a) c = law.view-update_status _ c
  view-status_read st (refused e) c = refl

  view-update_status :
      (phase note : Text) (c : C) → api.view (update_status api clients u phase note c) ≡ api.view c
  unfolding update_status
  view-update_status phase note c = view-status_read _ _ _ ∙ law.view-get_app u.namespace u.name c

  view-report : (r : Answer (Unit {0})) (c : C) → api.view (report api clients u r c) ≡ api.view c
  view-report (answer x) c = view-update_status _ _ c
  view-report (refused e) c = view-update_status _ e.text c

  module _ (stays : ServesApp api u.namespace u.name) where
    status-read :
        (st : AppStatus) (r : Answer WorkerApp) (c : C)
        → (api.get_app u.namespace u.name c).0 ≡ r
        → ((a : WorkerApp) × (r ≡ answer a))
        → api.status_of
            (status_read api clients st r (api.get_app u.namespace u.name c).1)
            u.namespace
            u.name
          ≡ some st
    status-read st (answer a) c e h =
        let at = law.get_app-answer u.namespace u.name c a e in
        let stored =
          law.status_of-update_status (record a { status = some st }) _
            (stays.update_status-serves c a (some st) e) in
        ap₂ (api.status_of _) (sym at.0) (sym at.1) ∙ stored
    status-read st (refused x) c e h = absurd (let p : refused x ≡ answer h.0 = h.1 in cc p)

    -- The status that updateStatus writes is the one that is stored.
    status-update_status :
        (phase note : Text) (c : C)
        → api.status_of (update_status api clients u phase note c) u.namespace u.name
          ≡ some (record { phase = phase; note = note })
    unfolding update_status
    status-update_status phase note c = status-read _ _ c refl (stays.get_app-serves c)

    status-report :
        (r : Answer (Unit {0})) (c : C)
        → api.status_of (report api clients u r c) u.namespace u.name ≡ some (told r)
    status-report (answer x) c = status-update_status _ _ c
    status-report (refused e) c = status-update_status _ e.text c

    -- The two ends of reconcile: every object is as the Ensure functions leave it and the phase is
    -- Running, or the phase is Failed with the text of an error, and the first objects are so.
    abbrev pub Reconciled : WorkerAppSpec → View → C → Type 0
    Reconciled w v c =
        ((api.status_of c u.namespace u.name ≡ some (told (answer tt)))
          × (api.view c ≡ ensured clients.domain w v))
        ⊎ ((e : ApiError) × (api.status_of c u.namespace u.name ≡ some (told (refused e)))
            × ((i : ℕ) × (i ≤ 5) × (api.view c ≡ first_objects clients.domain w i v)))

    reported :
        (w : WorkerAppSpec) (v : View) (r : Answer (Unit {0})) (c : C)
        → Ends api law clients w v (api.view c) r
        → Reconciled w v (report api clients u r c)
    reported w v (answer x) c h = inl (status-report (answer x) c, view-report (answer x) c ∙ h)
    reported w v (refused e) c (i, bound, h) =
        inr (e, status-report (refused e) c, (i, bound, view-report (refused e) c ∙ h))

    -- Whatever the calls for the objects answer, for a WorkerApp that stays where it is reconcile ends
    -- in one of two ways. The phase is Running: the Deployment and the IngressRoute are those of the
    -- spec, a ConfigMap, a Secret or a Service that was missing is the one of the spec, and one that
    -- was there is as it was, even where it is not that of the spec. Or the phase is Failed with the
    -- text of an error, and some first part of this was done, in the order ConfigMap, Secret,
    -- Deployment, Service, IngressRoute. No other object changes.
    pub reconcile-Reconciled :
        (w : WorkerAppSpec) (c : C)
        → worker_from_unstructured u ≡ some w
        → Reconciled w (api.view c) (reconcile api clients u c)
    unfolding reconcile
    reconcile-Reconciled w c e =
        let before = view-update_status (codes "Deploying") [] c in
        rw e (
          reported w (api.view c) _ _ (
            rw before at (
              ensure_all-Ends api law clients w
                (update_status api clients u (codes "Deploying") [] c))))

    pub reconcile_done :
        (w : WorkerAppSpec) (c : C)
        → worker_from_unstructured u ≡ some w
        → ((c : C) → (ensure_all api clients w c).0 ≡ answer tt)
        → (api.status_of (reconcile api clients u c) u.namespace u.name ≡ some (told (answer tt)))
          × (api.view (reconcile api clients u c) ≡ ensured clients.domain w (api.view c))
    unfolding reconcile
    reconcile_done w c e h =
        let c' = update_status api clients u (codes "Deploying") [] c in
        let ends =
          rw (h c', view-update_status (codes "Deploying") [] c) at
            (ensure_all-Ends api law clients w c') in
        rw (e, h c') (status-report (answer tt) _, view-report (answer tt) _ ∙ ends)
