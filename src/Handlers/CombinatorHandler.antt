-- ===== src/Handlers/CombinatorHandler.antt =====
-- handlers/combinator.handler.go and handlers/combinator.internal.handler.go.
pub mod Owner
use storebirth.Base.{
  ℕ, List, [], ◌∷◌, ◌++◌, map, not, Option, none, some, Bool, true, false, Text, text_eq, codes,
  length, ◌==◌, if◌then◌else◌,
}
use storebirth.Credentials.{generate_resource_uid}
use storebirth.Jobs.{Job, create_rdb, delete_rdb, create_kv, delete_kv}
use storebirth.Store.{CombinatorResource, Error, message, Result, ok, err}
use storebirth.Store.Sql.{World, M}
use storebirth.Store.Users.{get_user_secret_key}
use storebirth.Store.Resources.{
  Report, create_combinator_resource, get_combinator_resource, list_combinator_resources,
  list_active_combinator_resources, delete_combinator_resource,
  batch_save_combinator_resource_reports,
}
use storebirth.Platform.{Platform, send_task}
use storebirth.Combinator.{rdb, kv}
use storebirth.Handlers.{
  Body, error, resource_loading, rdb_list, rdb_detail, kv_list, secrets, reports_processed, Handler,
  HandlerOn, json, try, bind,
}

module _ {C : Type 0} where
  -- The task of a request, and the answer after it.
  task_then : Job → Text → Body → Handler C
  unfolding send_task
  task_then job what body = try (send_task job) (λ e. json 500 (error what)) (λ _. json 200 body)

  -- CreateRDB and CreateKV, with the new id
  created : Text → Text → Text → Job → Handler C
  unfolding create_combinator_resource task_then
  created user_uid resource_type resource_id job =
      try (create_combinator_resource user_uid resource_type resource_id)
        (λ e. json 500 (error (codes "failed to create resource: " ++ message e)))
        (λ _. task_then job (codes "failed to enqueue create task") (resource_loading resource_id))

  -- CreateRDB, with the random bytes of the id
  unfoldable pub create_rdb_handler : List ℕ → Text → Option Text → Handler C
  unfolding created generate_resource_uid text_eq
  create_rdb_handler bytes user_uid request =
      bind request (λ name. not (text_eq name []))
        λ name.
          created user_uid rdb (generate_resource_uid bytes)
            (create_rdb user_uid name (generate_resource_uid bytes))

  -- CreateKV
  unfoldable pub create_kv_handler : List ℕ → Text → Handler C
  unfolding created generate_resource_uid
  create_kv_handler bytes user_uid =
      created user_uid kv (generate_resource_uid bytes)
        (create_kv user_uid (generate_resource_uid bytes))

  -- ListRDBs. `size` is what DatabaseSize returns, 0 without a manager.
  unfoldable pub list_rdbs_handler : (Text → ℕ) → Text → Handler C
  unfolding list_combinator_resources
  list_rdbs_handler size user_uid =
      try (list_combinator_resources user_uid rdb)
        (λ e. json 500 (error (codes "failed to list resources: " ++ message e)))
        (λ resources. json 200 (rdb_list resources (size user_uid)))

  -- ListKVs
  unfoldable pub list_kvs_handler : Text → Handler C
  unfolding list_combinator_resources
  list_kvs_handler user_uid =
      try (list_combinator_resources user_uid kv)
        (λ e. json 500 (error (codes "failed to list resources: " ++ message e)))
        (λ resources. json 200 (kv_list resources))

  -- GetRDB. `size` is what SchemaSize returns, 0 without a manager.
  unfoldable pub get_rdb_handler : (Text → Text → ℕ) → Text → Text → Handler C
  unfolding get_combinator_resource
  get_rdb_handler size user_uid resource_id =
      try (get_combinator_resource user_uid rdb resource_id)
        (λ e. json 404 (error (codes "resource not found")))
        (λ cr. json 200 (rdb_detail cr (size user_uid cr.resource_id)))

  -- DeleteRDB and DeleteKV, with the job for the id of the row
  deleted : Text → Text → Text → (Text → Job) → Handler C
  unfolding get_combinator_resource delete_combinator_resource task_then
  deleted user_uid resource_type resource_id job =
      try (get_combinator_resource user_uid resource_type resource_id)
        (λ e. json 404 (error (codes "resource not found")))
        (λ cr.
          try (delete_combinator_resource user_uid resource_type resource_id)
            (λ e. json 500 (error (codes "failed to delete resource: " ++ message e)))
            (λ _.
              task_then (job cr.resource_id) (codes "failed to enqueue delete task")
                (Body.message (codes "deleted"))))

  -- DeleteRDB
  unfoldable pub delete_rdb_handler : Text → Text → Handler C
  unfolding deleted
  delete_rdb_handler user_uid resource_id = deleted user_uid rdb resource_id (delete_rdb user_uid)

  -- DeleteKV
  unfoldable pub delete_kv_handler : Text → Text → Handler C
  unfolding deleted
  delete_kv_handler user_uid resource_id = deleted user_uid kv resource_id (delete_kv user_uid)

-- The handlers of the internal API.
abbrev pub with_type : List CombinatorResource → List (Text × Text)
with_type = map (λ (r : CombinatorResource). (r.resource_type, r.resource_id))

abbrev pub has_reports : List Report → Bool
has_reports [] = false
has_reports (r ∷ rs) = true

module _ {S : Type 0} where
  -- RetrieveSecretByID
  unfoldable pub retrieve_secret_handler : Text → HandlerOn S
  unfolding get_user_secret_key list_active_combinator_resources
  retrieve_secret_handler user_uid =
      try (get_user_secret_key user_uid)
        (λ e. json 500 (error (codes "failed to get user secret: " ++ message e)))
        (λ secret_key.
          try (list_active_combinator_resources user_uid)
            (λ e. json 500 (error (codes "failed to list resources: " ++ message e)))
            (λ resources. json 200 (secrets (with_type resources) secret_key)))

  -- ReportUsage
  unfoldable pub report_usage_handler : (Text → Option ℕ) → Option (List Report) → HandlerOn S
  unfolding batch_save_combinator_resource_reports
  report_usage_handler pg_integer request =
      bind request (λ reports. true)
        λ reports.
          if has_reports reports
          then try (batch_save_combinator_resource_reports pg_integer reports)
              (λ e. json 500 (error (codes "failed to create reports: " ++ message e)))
              (λ _. json 200 (reports_processed (length reports)))
          else json 400 (error (codes "empty reports array"))
