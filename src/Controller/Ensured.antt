-- ===== src/Controller/Ensured.antt =====
-- What the Ensure functions leave: the objects of a worker, as a function of what was stored before.
-- A Service that is there is kept, even where the spec now has another port.
use storebirth.Base.{
  arith, ℕ, suc, ◌≡◌, refl, leb, Option, none, some, Text, text_eq, text_eq_iff, inl, inr,
  Bool-cases, if◌then◌else◌,
}
use storebirth.Names.{env_config_map_name, secret_name}
use storebirth.Platform.{WorkerAppSpec}
use storebirth.Kube.{
  Kind, deployment, service, config_map, secret, ingress_route, Object, a_deployment, a_service,
  a_data_map, an_ingress_route, View, put,
}
use storebirth.Controller.{name, deployment_of, service_of, empty_data, route_of}

abbrev pub kept : Option Object → Object → Option Object
kept none o = some o
kept (some old) o = some old

module _ (domain : Text) (w : WorkerAppSpec) where
  -- The name of the object of each kind.
  abbrev pub name_of : Kind → Text
  name_of config_map = env_config_map_name w.worker_id w.owner_id
  name_of secret = secret_name w.worker_id w.owner_id
  name_of deployment = name w
  name_of service = name w
  name_of ingress_route = name w

  -- The Deployment and the IngressRoute are those of the spec; a Service, a ConfigMap or a Secret
  -- that is there stays as it is.
  abbrev pub ensured_object : View → Kind → Option Object
  ensured_object v config_map = kept (v config_map (name_of config_map)) (a_data_map (empty_data w))
  ensured_object v secret = kept (v secret (name_of secret)) (a_data_map (empty_data w))
  ensured_object v deployment = some (a_deployment (deployment_of w))
  ensured_object v service = kept (v service (name_of service)) (a_service (service_of w))
  ensured_object v ingress_route = some (an_ingress_route (route_of domain w))

  abbrev pub ensured : View → View
  ensured v k n = if text_eq (name_of k) n then ensured_object v k else v k n

  -- The order in which the objects are made.
  abbrev pub place : Kind → ℕ
  place config_map = 0
  place secret = 1
  place deployment = 2
  place service = 3
  place ingress_route = 4

  -- The first objects only.
  abbrev pub first_objects : ℕ → View → View
  first_objects i v k n = if leb (suc (place k)) i then ensured v k n else v k n

  abbrev pub put_next : Kind → View → View
  put_next k v = put k (name_of k) (ensured_object v k) v

  ensured_at : (v : View) (k : Kind) (n : Text) → first_objects 5 v k n ≡ ensured v k n
  ensured_at v config_map n = refl
  ensured_at v secret n = refl
  ensured_at v deployment n = refl
  ensured_at v service n = refl
  ensured_at v ingress_route n = refl

  zero_at : (v : View) (k : Kind) (n : Text) → v k n ≡ first_objects 0 v k n
  zero_at v k n = ground arith

  pub first_objects-zero : (v : View) → v ≡ first_objects 0 v
  first_objects-zero v i k n = zero_at v k n i

  pub first_objects-ensured : (v : View) → first_objects 5 v ≡ ensured v
  first_objects-ensured v i k n = ensured_at v k n i

  next_at :
      (k : Kind) (v : View) (k' : Kind) (n : Text)
      → put_next k (first_objects (place k) v) k' n ≡ first_objects (suc (place k)) v k' n
  next_at config_map v k' n = ground arith
  next_at secret v k' n = ground arith
  next_at deployment v k' n = ground arith
  next_at service v k' n = ground arith
  next_at ingress_route v k' n = ground arith

  -- Making the object of the next kind leads from the objects before it to those with it.
  pub first_objects-next :
      (k : Kind) (v : View)
      → put_next k (first_objects (place k) v) ≡ first_objects (suc (place k)) v
  first_objects-next k v i k' n = next_at k v k' n i

  -- The Ensure functions have no further effect on an object that they left.
  object-ensured : (v : View) (k : Kind) → ensured_object (ensured v) k ≡ ensured_object v k
  object-ensured v config_map =
      ground (arith, text_eq_iff (name_of config_map) (name_of config_map))
  object-ensured v secret = ground (arith, text_eq_iff (name_of secret) (name_of secret))
  object-ensured v deployment = refl
  object-ensured v service = ground (arith, text_eq_iff (name_of service) (name_of service))
  object-ensured v ingress_route = refl

  ensured_twice_at : (v : View) (k : Kind) (n : Text) → ensured (ensured v) k n ≡ ensured v k n
  ensured_twice_at v k n = elim (Bool-cases (text_eq (name_of k) n)) [
    | inl e ↦ rw e (object-ensured v k)
    | inr e ↦ rw e refl
  ]

  -- A second run changes nothing.
  pub ensured_twice : (v : View) → ensured (ensured v) ≡ ensured v
  ensured_twice v i k n = ensured_twice_at v k n i
