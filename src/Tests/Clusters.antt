-- ===== src/Tests/Clusters.antt =====
-- An API server whose state is what is stored, with the laws of the Kubernetes API.
use storebirth.Base.{
  ◌≡◌, refl, sym, ap, ◌⊎◌, true, false, ◌&&◌, Option, none, some, Text, text_eq, text_eq_iff, codes,
  inl, inr, if◌then◌else◌,
}
use storebirth.Kube.{
  ApiError, Answer, answer, refused, Kind, Object, Stored, View, put, AppStatus, AppFields,
  WorkerApp, KubeApi, IsApi, Serves, ServesApp,
}

abbrev none_found : ApiError
none_found = record { is_not_found = true; text = codes "not found" }

pub record Server : Type 0 where
  pub objects : View
  pub statuses : Text → Text → Option AppStatus

abbrev found : Option Object → Answer Stored
found none = refused none_found
found (some o) = answer (record { object = o; resource_version = codes "7" })

abbrev change : Kind → Text → Option Object → Server → Server
change k n o c = record c { objects = put k n o c.objects }

abbrev updated : Kind → Text → Object → Option Object → Server → Answer (Unit {0}) × Server
updated k n o none c = (refused none_found, c)
updated k n o (some old) c = (answer tt, change k n (some o) c)

abbrev created : Kind → Text → Object → Option Object → Server → Answer (Unit {0}) × Server
created k n o none c = (answer tt, change k n (some o) c)
created k n o (some old) c =
    (refused (record { is_not_found = false; text = codes "already exists" }), c)

abbrev pub fields : AppFields
fields = record {
  worker_id = some (codes "1");
  owner_id = some (codes "ann");
  owner_sk = some (codes "key");
  image = some (codes "nginx");
  port = some 8080;
}

abbrev pub app_at : Text → Text → Option AppStatus → WorkerApp
app_at namespace name status = record {
  name = name;
  namespace = namespace;
  generation = 2;
  resource_version = codes "9";
  spec = some fields;
  status = status;
}

abbrev pub api : KubeApi Server
api = record {
  get = λ k n c. (found (c.objects k n), c);
  create = λ k n o c. created k n o (c.objects k n) c;
  update = λ k n version o c. updated k n o (c.objects k n) c;
  delete = λ k n c. (answer tt, change k n none c);
  patch_restart = λ n now c. (answer tt, c);
  get_app = λ namespace n c. (answer (app_at namespace n (c.statuses namespace n)), c);
  update_status = λ a c. (
    answer tt,
    record c {
      statuses = λ namespace n.
          if text_eq a.namespace namespace && text_eq a.name n
          then a.status
          else c.statuses namespace n;
    },
  );
  view = λ c. c.objects;
  status_of = λ c. c.statuses;
}

found-answer : (o : Option Object) (s : Stored) → found o ≡ answer s → o ≡ some s.object
found-answer none s e = absurd (cc)
found-answer (some o) s e =
    let p : record { object = o; resource_version = codes "7" } ≡ s = cc in
    ap (λ (x : Stored). some x.object) p

found-refused : (o : Option Object) (e : ApiError) → found o ≡ refused e → o ≡ none
found-refused none x e = refl
found-refused (some o) x e =
    absurd
      (let p : answer (record { object = o; resource_version = codes "7" }) ≡ refused x = e in cc p)

view-created :
    (k : Kind) (n : Text) (o : Object) (old : Option Object) (c : Server)
    → ((created k n o old c).0 ≡ answer tt
        → (created k n o old c).1.objects ≡ put k n (some o) c.objects)
      × (((created k n o old c).1.objects ≡ c.objects)
          ⊎ ((created k n o old c).1.objects ≡ put k n (some o) c.objects))
view-created k n o none c = ((λ e. refl), inr refl)
view-created k n o (some old) c = ((λ e. absurd (cc)), inl refl)

view-updated :
    (k : Kind) (n : Text) (o : Object) (old : Option Object) (c : Server)
    → ((updated k n o old c).0 ≡ answer tt
        → (updated k n o old c).1.objects ≡ put k n (some o) c.objects)
      × (((updated k n o old c).1.objects ≡ c.objects)
          ⊎ ((updated k n o old c).1.objects ≡ put k n (some o) c.objects))
view-updated k n o none c = ((λ e. absurd (cc)), inl refl)
view-updated k n o (some old) c = ((λ e. refl), inr refl)

read_app :
    (namespace n : Text) (c : Server) (a : WorkerApp)
    → (api.get_app namespace n c).0 ≡ answer a
    → (a.namespace ≡ namespace) × (a.name ≡ n)
read_app namespace n c a e =
    let p : app_at namespace n (c.statuses namespace n) ≡ a = cc in
    (sym (ap (λ (x : WorkerApp). x.namespace) p), sym (ap (λ (x : WorkerApp). x.name) p))

written_status :
    (a : WorkerApp) (c : Server) → (api.update_status a c).1.statuses a.namespace a.name ≡ a.status
written_status a c =
    rw ((text_eq_iff a.namespace a.namespace).1 refl, (text_eq_iff a.name a.name).1 refl) refl

pub api-IsApi : IsApi api
api-IsApi = record {
  view-get = λ k n c. refl;
  get-answer = λ k n c s e. found-answer (c.objects k n) s e;
  get-missing = λ k n c x e b. found-refused (c.objects k n) x e;
  view-create = λ k n o c. (view-created k n o (c.objects k n) c).0;
  create-refused = λ k n o c. (view-created k n o (c.objects k n) c).1;
  view-update = λ k n version o c. (view-updated k n o (c.objects k n) c).0;
  update-refused = λ k n version o c. (view-updated k n o (c.objects k n) c).1;
  view-get_app = λ namespace n c. refl;
  view-update_status = λ a c. refl;
  get_app-answer = read_app;
  status_of-update_status = λ a c e. written_status a c;
}

found_object : (o : Option Object) (p : Object) → o ≡ some p → (s : Stored) × (found o ≡ answer s)
found_object none p e = absurd (cc)
found_object (some o) p e = (record { object = o; resource_version = codes "7" }, refl)

updated_object :
    (k : Kind) (n : Text) (o : Object) (old : Option Object) (c : Server) (s : Stored)
    → found old ≡ answer s
    → (updated k n o old c).0 ≡ answer tt
updated_object k n o none c s e = absurd (let p : refused none_found ≡ answer s = e in cc p)
updated_object k n o (some old) c s e = refl

pub api-Serves : Serves api
api-Serves = record {
  get-stored = λ k n c o e. found_object (c.objects k n) o e;
  get-not_found = λ k n c e. (none_found, ap found e, refl);
  create-answer = λ k n o c e. rw e refl;
  update-answer = λ k n o old c e. rw e refl;
  update-read = λ k n o c s e. updated_object k n o (c.objects k n) c s e;
  view-delete = λ k n c. refl;
}

pub api-ServesApp : (namespace name : Text) → ServesApp api namespace name
api-ServesApp namespace name = record {
  get_app-serves = λ c. (app_at namespace name (c.statuses namespace name), refl);
  update_status-serves = λ c a status e. refl;
}
