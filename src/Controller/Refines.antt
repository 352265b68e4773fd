-- ===== src/Controller/Refines.antt =====
-- ensure_all, against a function of what was stored before.
use storebirth.Base.{
  ℕ, suc, ◌≤◌, ◌≡◌, refl, sym, subst, ◌∙◌, ◌⊎◌, inl, inr, Bool, true, false, Bool-cases, Option,
  none, some, Text, text_eq, text_eq_iff, codes, arith,
}
use storebirth.Platform.{WorkerAppSpec}
use storebirth.Kube.{
  ApiError, Answer, answer, refused, K, continue, ◌>>◌, Kind, deployment, service, config_map,
  secret, ingress_route, kind_eq, Object, a_deployment, a_service, a_data_map, an_ingress_route,
  Stored, View, put, KubeApi, IsApi,
}
use storebirth.Controller.{
  name, deployment_of, service_of, empty_data, route_of, Clients, if_missing, or_update,
  create_missing, create_or_update, with_client, no_client, ensure_deployment, ensure_service,
  ensure_config_map, ensure_secret, ensure_ingress_route, ensure_all,
}
use storebirth.Controller.Ensured.{
  kept, name_of, ensured, place, first_objects, put_next, first_objects-zero, first_objects-ensured,
  first_objects-next,
}

same_kind : (k k' : Kind) → kind_eq k k' ≡ true → k ≡ k'
same_kind k k' h = ground (arith, h)

put_at :
    (k : Kind) (n : Text) (v : View) (k' : Kind) (n' : Text) → put k n (v k n) v k' n' ≡ v k' n'
put_at k n v k' n' = elim (Bool-cases (kind_eq k k')) [
  | inl e ↦ elim (Bool-cases (text_eq n n')) [
    | inl f ↦ rw (e, f) (rw (same_kind k k' e, (text_eq_iff n n').0 f) refl)
    | inr f ↦ rw (e, f) refl
  ]
  | inr e ↦ rw e refl
]

-- Putting what is there changes nothing.
put-same : (k : Kind) (n : Text) (v : View) (o : Option Object) → v k n ≡ o → put k n o v ≡ v
put-same k n v o e = subst (λ x. put k n x v ≡ v) e (λ i k' n'. put_at k n v k' n' i)

-- A call that asks for a change: it is made if the call succeeds, and made or not if it fails.
abbrev pub StepEnds : View → View → View → Answer (Unit {0}) → Type 0
StepEnds new v v' (answer _) = v' ≡ new
StepEnds new v v' (refused e) = (v' ≡ v) ⊎ (v' ≡ new)

step_ends :
    (new v v' : View) (r : Answer (Unit {0}))
    → (r ≡ answer tt → v' ≡ new)
    → (v' ≡ v) ⊎ (v' ≡ new)
    → StepEnds new v v' r
step_ends new v v' (answer x) h h' = h refl
step_ends new v v' (refused e) h h' = h'

module _ {C : Type 0} (api : KubeApi C) (law : IsApi api) where
  create_ends :
      (k : Kind) (n : Text) (o : Object) (c : C)
      → StepEnds
          (put k n (some o) (api.view c))
          (api.view c)
          (api.view (api.create k n o c).1)
          (api.create k n o c).0
  create_ends k n o c =
      step_ends _ _ _ (api.create k n o c).0 (law.view-create k n o c) (law.create-refused k n o c)

  update_ends :
      (k : Kind) (n : Text) (version : Option Text) (o : Object) (c : C)
      → StepEnds
          (put k n (some o) (api.view c))
          (api.view c)
          (api.view (api.update k n version o c).1)
          (api.update k n version o c).0
  update_ends k n version o c =
      step_ends _ _ _ (api.update k n version o c).0 (law.view-update k n version o c)
        (law.update-refused k n version o c)

  module _ (k : Kind) (n : Text) (o : Object) (c : C) where
    after_get : C
    after_get = (api.get k n c).1

    not_changed :
        (new : View) (e : ApiError) → StepEnds new (api.view c) (api.view after_get) (refused e)
    unfolding after_get
    not_changed new e = inl (law.view-get k n c)

    if_missing_ends :
        (r : Answer Stored)
        → (api.get k n c).0 ≡ r
        → StepEnds
            (put k n (kept (api.view c k n) o) (api.view c))
            (api.view c)
            (api.view (if_missing api k n o r after_get).1)
            (if_missing api k n o r after_get).0
    unfolding after_get not_changed
    if_missing_ends (answer s) e =
        let there = law.get-answer k n c s e in
        rw there (law.view-get k n c ∙ sym (put-same k n (api.view c) (some s.object) there))
    if_missing_ends (refused x) e = elim (Bool-cases x.is_not_found) [
      | inl b ↦
          rw (b, law.get-missing k n c x e b)
            (rw (law.view-get k n c) at (create_ends k n o after_get))
      | inr b ↦ rw b (not_changed _ x)
    ]

    or_update_ends :
        (version : Stored → Option Text) (r : Answer Stored)
        → (api.get k n c).0 ≡ r
        → StepEnds
            (put k n (some o) (api.view c))
            (api.view c)
            (api.view (or_update api version k n o r after_get).1)
            (or_update api version k n o r after_get).0
    unfolding after_get not_changed
    or_update_ends version (answer s) e =
        rw (law.view-get k n c) at (update_ends k n (version s) o after_get)
    or_update_ends version (refused x) e = elim (Bool-cases x.is_not_found) [
      | inl b ↦ rw b (rw (law.view-get k n c) at (create_ends k n o after_get))
      | inr b ↦ rw b (not_changed _ x)
    ]

module _ {C : Type 0} (api : KubeApi C) (law : IsApi api) (clients : Clients)
    (w : WorkerAppSpec) where
  -- A call makes the object of one kind as it should be.
  abbrev Makes : K C (Unit {0}) → Kind → Type 0
  Makes m k =
      (c : C)
      → StepEnds (put_next clients.domain w k (api.view c)) (api.view c) (api.view (m c).1) (m c).0

  with_client-Makes :
      (m : K C (Unit {0})) (k : Kind) (what : Text) (b : Bool)
      → Makes m k
      → Makes (with_client b what m) k
  with_client-Makes m k what true h = h
  with_client-Makes m k what false h = λ c. inl refl

  ensure_config_map-Makes : Makes (ensure_config_map api clients w) config_map
  unfolding ensure_config_map create_missing after_get
  ensure_config_map-Makes = with_client-Makes _ config_map no_client clients.k8s_client (λ c.
      if_missing_ends api law config_map (name_of clients.domain w config_map)
        (a_data_map (empty_data w)) c _ refl)

  ensure_secret-Makes : Makes (ensure_secret api clients w) secret
  unfolding ensure_secret create_missing after_get
  ensure_secret-Makes = with_client-Makes _ secret no_client clients.k8s_client (λ c.
      if_missing_ends api law secret (name_of clients.domain w secret) (a_data_map (empty_data w)) c
        _ refl)

  ensure_deployment-Makes : Makes (ensure_deployment api clients w) deployment
  unfolding ensure_deployment create_or_update after_get
  ensure_deployment-Makes = with_client-Makes _ deployment no_client clients.k8s_client (λ c.
      or_update_ends api law deployment (name w) (a_deployment (deployment_of w)) c (λ _. none) _
        refl)

  ensure_service-Makes : Makes (ensure_service api clients w) service
  unfolding ensure_service create_missing after_get
  ensure_service-Makes =
      with_client-Makes _ service no_client clients.k8s_client
        (λ c. if_missing_ends api law service (name w) (a_service (service_of w)) c _ refl)

  ensure_ingress_route-Makes : Makes (ensure_ingress_route api clients w) ingress_route
  unfolding ensure_ingress_route create_or_update after_get
  ensure_ingress_route-Makes =
      with_client-Makes _ ingress_route (codes "dynamic client not initialized")
        clients.dynamic_client
        (λ c.
          or_update_ends api law ingress_route (name w)
            (an_ingress_route (route_of clients.domain w)) c (λ s. some s.resource_version) _ refl)

  -- All objects are as the Ensure functions leave them, or the first ones are.
  abbrev pub Ends : View → View → Answer (Unit {0}) → Type 0
  Ends v v' (answer _) = v' ≡ ensured clients.domain w v
  Ends v v' (refused e) = (i : ℕ) × (i ≤ 5) × (v' ≡ first_objects clients.domain w i v)

  place_bound : (k : Kind) → place clients.domain w k ≤ 4
  place_bound k = ground arith

  -- The call of one place, from the objects of the places before it, and what follows.
  module _ (rest : K C (Unit {0})) (k : Kind) (v : View)
      (follows : (c : C)
        → api.view c ≡ first_objects clients.domain w (suc (place clients.domain w k)) v
        → Ends v (api.view (rest c).1) (rest c).0) where
    chain_on :
        (r : Answer (Unit {0})) (c : C)
        → StepEnds
            (put_next clients.domain w k
              (first_objects clients.domain w (place clients.domain w k) v))
            (first_objects clients.domain w (place clients.domain w k) v)
            (api.view c)
            r
        → Ends v (api.view (continue r rest c).1) (continue r rest c).0
    chain_on (answer x) c h = follows c (h ∙ first_objects-next clients.domain w k v)
    chain_on (refused e) c (inl h) = (place clients.domain w k, omega (arith, place_bound k), h)
    chain_on (refused e) c (inr h) = (
      suc (place clients.domain w k),
      omega (arith, place_bound k),
      h ∙ first_objects-next clients.domain w k v,
    )

    chain :
        (m : K C (Unit {0}))
        → Makes m k
        → (c : C) → api.view c ≡ first_objects clients.domain w (place clients.domain w k) v
        → Ends v (api.view ((m >> rest) c).1) ((m >> rest) c).0
    chain m makes c e = chain_on (m c).0 (m c).1 (rw e at (makes c))

  last-Ends :
      (v v' : View) (r : Answer (Unit {0}))
      → StepEnds
          (put_next clients.domain w ingress_route (first_objects clients.domain w 4 v))
          (first_objects clients.domain w 4 v)
          v'
          r
      → Ends v v' r
  last-Ends v v' (answer x) h =
      h
      ∙ first_objects-next clients.domain w ingress_route v
      ∙ first_objects-ensured clients.domain w v
  last-Ends v v' (refused e) (inl h) = (4, omega arith, h)
  last-Ends v v' (refused e) (inr h) =
      (5, omega arith, h ∙ first_objects-next clients.domain w ingress_route v)

  -- Whatever the API answers, ensure_all ends in one of two ways. It returns no error: the Deployment
  -- and the IngressRoute are those of the spec, a ConfigMap, a Secret or a Service that was missing is
  -- the one of the spec, and one that was there is as it was, even where it is not that of the spec.
  -- Or it returns an error, and has done some first part of this, in the order ConfigMap, Secret,
  -- Deployment, Service, IngressRoute. No other object changes.
  pub ensure_all-Ends :
      (c : C)
      → Ends (api.view c) (api.view (ensure_all api clients w c).1) (ensure_all api clients w c).0
  unfolding ensure_all
  ensure_all-Ends c =
      let config_map_step = ensure_config_map api clients w in
      let secret_step = ensure_secret api clients w in
      let deployment_step = ensure_deployment api clients w in
      let service_step = ensure_service api clients w in
      let route_step = ensure_ingress_route api clients w in
      let v = api.view c in
      chain (secret_step >> (deployment_step >> (service_step >> route_step))) config_map v
        (chain (deployment_step >> (service_step >> route_step)) secret v
          (chain (service_step >> route_step) deployment v
            (chain route_step service v
              (λ c' e. last-Ends v _ (route_step c').0 (rw e at (ensure_ingress_route-Makes c')))
              service_step ensure_service-Makes)
            deployment_step ensure_deployment-Makes)
          secret_step ensure_secret-Makes)
        config_map_step ensure_config_map-Makes c (first_objects-zero clients.domain w v)
