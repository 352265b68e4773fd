-- ===== src/Handlers/CombinatorHandler/Owner.antt =====
-- The requests for resources touch the resources of their user alone
-- (handlers/combinator.handler.go).
use storebirth.Base.{
  ℕ, ◌≡◌, ◌≢◌, refl, List, [], ◌∷◌, ◌++◌, Option, Text, text_eq, text_eq_iff, arith,
}
use storebirth.Store.{Db, CombinatorResource}
use storebirth.Store.Sql.{World, exec, select, delete}
use storebirth.Store.Resources.{
  is_resource, new_resource, create_combinator_resource, get_combinator_resource,
  delete_combinator_resource,
}
use storebirth.Jobs.{Job}
use storebirth.Platform.{Platform, send_task}
use storebirth.Combinator.{rdb, kv}
use storebirth.Handlers.{Body, Handler}
use storebirth.Handlers.Keeps.{Keeps, try-Keeps, bind-Keeps}
use storebirth.Handlers.CombinatorHandler.{
  task_then, created, deleted, create_rdb_handler, create_kv_handler, delete_rdb_handler,
  delete_kv_handler,
}

abbrev pub of_user : Text → List CombinatorResource → List CombinatorResource
of_user uid = select (λ (r : CombinatorResource). text_eq r.user_uid uid)

of_user-append :
    (uid : Text) (rows : List CombinatorResource) (r : CombinatorResource)
    → r.user_uid ≢ uid
    → of_user uid (rows ++ r ∷ []) ≡ of_user uid rows
unfolding select
of_user-append uid [] r n = ground (arith, text_eq_iff r.user_uid uid)
of_user-append uid (x ∷ rows) r n = ground (arith, of_user-append uid rows r n)

of_user-delete :
    (uid user resource_type id : Text) (rows : List CombinatorResource)
    → user ≢ uid
    → of_user uid (delete (is_resource user resource_type id) rows) ≡ of_user uid rows
unfolding select delete
of_user-delete uid user resource_type id [] n = refl
of_user-delete uid user resource_type id (x ∷ rows) n = ground (
  arith,
  of_user-delete uid user resource_type id rows n,
  text_eq_iff x.user_uid uid,
  text_eq_iff x.user_uid user,
)

-- The requests that change resources.
pub data ResourceRequest : Type 0 where
  new_rdb : (bytes : List ℕ) → Option Text → ResourceRequest
  new_kv : (bytes : List ℕ) → ResourceRequest
  drop_rdb drop_kv : (resource_id : Text) → ResourceRequest

unfoldable pub served : {C : Type 0} → ResourceRequest → Text → Handler C
unfolding create_rdb_handler create_kv_handler delete_rdb_handler delete_kv_handler
served (new_rdb bytes request) user_uid = create_rdb_handler bytes user_uid request
served (new_kv bytes) user_uid = create_kv_handler bytes user_uid
served (drop_rdb resource_id) user_uid = delete_rdb_handler user_uid resource_id
served (drop_kv resource_id) user_uid = delete_kv_handler user_uid resource_id

-- The resources of this user are these.
abbrev Others : Text → List CombinatorResource → Db → Type 0
Others other rows d = of_user other d.combinator_resources.rows ≡ rows

module _ {C : Type 0} (other : Text) (rows : List CombinatorResource) where
  send_task-Others :
      (job : Job) (w : World (Platform C))
      → Others other rows w.db
      → Others other rows (send_task job w).1.db
  unfolding send_task
  send_task-Others job w h = ground (arith, h)

  task_then-Keeps :
      (job : Job) (what : Text) (body : Body)
      → Keeps (Others other rows) (task_then {C = C} job what body)
  unfolding task_then
  task_then-Keeps job what body =
      try-Keeps (Others other rows) (send_task job) _ _ (send_task-Others job) (λ e w h. h)
        (λ a w h. h)

module _ {C : Type 0} (other user_uid : Text) (rows : List CombinatorResource)
    (n : user_uid ≢ other) where
  create-Others :
      (resource_type id : Text) (w : World (Platform C))
      → Others other rows w.db
      → Others other rows (create_combinator_resource user_uid resource_type id w).1.db
  unfolding create_combinator_resource exec
  create-Others resource_type id w h = ground (
    arith,
    h,
    of_user-append other w.db.combinator_resources.rows
        (new_resource w.db.combinator_resources.next_id user_uid resource_type id w.now) n,
  )

  get-Others :
      (resource_type id : Text) (w : World (Platform C))
      → Others other rows w.db
      → Others other rows (get_combinator_resource user_uid resource_type id w).1.db
  unfolding get_combinator_resource exec
  get-Others resource_type id w h = ground (arith, h)

  delete-Others :
      (resource_type id : Text) (w : World (Platform C))
      → Others other rows w.db
      → Others other rows (delete_combinator_resource user_uid resource_type id w).1.db
  unfolding delete_combinator_resource exec
  delete-Others resource_type id w h =
      ground
        (arith, h, of_user-delete other user_uid resource_type id w.db.combinator_resources.rows n)

  created-Keeps :
      (resource_type id : Text) (job : Job)
      → Keeps (Others other rows) (created {C = C} user_uid resource_type id job)
  unfolding created
  created-Keeps resource_type id job =
      try-Keeps (Others other rows) (create_combinator_resource user_uid resource_type id) _ _
        (create-Others resource_type id) (λ e w h. h) (λ a. task_then-Keeps other rows job _ _)

  deleted-Keeps :
      (resource_type id : Text) (job : Text → Job)
      → Keeps (Others other rows) (deleted {C = C} user_uid resource_type id job)
  unfolding deleted
  deleted-Keeps resource_type id job =
      try-Keeps (Others other rows) (get_combinator_resource user_uid resource_type id) _ _
        (get-Others resource_type id) (λ e w h. h)
        (λ cr.
          try-Keeps (Others other rows) (delete_combinator_resource user_uid resource_type id) _ _
            (delete-Others resource_type id) (λ e w h. h)
            (λ a. task_then-Keeps other rows (job cr.resource_id) _ _))

-- Wherever a call fails, a request of a user for a resource, to create or to delete it, changes no
-- resource of another user.
pub served-of_user :
    {C : Type 0} (q : ResourceRequest) (user_uid other : Text) (s : World (Platform C))
    → user_uid ≢ other
    → of_user other (served q user_uid s).1.db.combinator_resources.rows
      ≡ of_user other s.db.combinator_resources.rows
unfolding served create_rdb_handler create_kv_handler delete_rdb_handler delete_kv_handler
served-of_user (new_rdb bytes request) u other s n =
    bind-Keeps (Others other (of_user other s.db.combinator_resources.rows)) request _ _
      (λ name. created-Keeps other u _ n rdb _ _) s refl
served-of_user (new_kv bytes) u other s n = created-Keeps other u _ n kv _ _ s refl
served-of_user (drop_rdb id) u other s n = deleted-Keeps other u _ n rdb id _ s refl
served-of_user (drop_kv id) u other s n = deleted-Keeps other u _ n kv id _ s refl
