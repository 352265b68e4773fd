-- ===== src/Store/Resources.antt =====
-- The resources of the combinator, and the reports of their use (dblayer/actions.go).
use storebirth.Base.{
  ℕ, suc, ℤ, List, [], ◌∷◌, ◌++◌, Bool, true, false, ◌&&◌, Option, none, some, Text, text_eq, codes,
  ◌==◌, if◌then◌else◌,
}
use storebirth.Store.{
  Db, CombinatorResource, ResourceStatus, ReportRow, failed, no_rows, Result, ok, err,
}
use storebirth.Store.Sql.{M, pure, exec, select, update, delete, first, exists, row_or}

abbrev pub set_resources : List CombinatorResource → Db → Db
set_resources rows d = record d {
  combinator_resources = record d.combinator_resources { rows = rows };
}

abbrev pub is_resource : Text → Text → Text → CombinatorResource → Bool
is_resource user_uid resource_type resource_id r =
    text_eq r.user_uid user_uid
    && (text_eq r.resource_type resource_type && text_eq r.resource_id resource_id)

abbrev pub is_active : Text → CombinatorResource → Bool
is_active user_uid r =
    text_eq r.user_uid user_uid && elim r.status [ ResourceStatus.active ↦ true | _ ↦ false ]

-- The status of a new row is 'loading', its message is empty.
abbrev pub new_resource : ℕ → Text → Text → Text → ℕ → CombinatorResource
new_resource id user_uid resource_type resource_id now = record {
  id = id;
  user_uid = user_uid;
  resource_type = resource_type;
  resource_id = resource_id;
  status = ResourceStatus.loading;
  msg = [];
  created_at = now;
}

abbrev pub insert_resource : Text → Text → Text → ℕ → Db → Result (Unit {0}) × Db
insert_resource user_uid resource_type resource_id now d = (
  ok tt,
  record d {
    combinator_resources = record {
      rows =
          d.combinator_resources.rows
          ++ new_resource d.combinator_resources.next_id user_uid resource_type resource_id now
            ∷ [];
      next_id = suc d.combinator_resources.next_id;
    };
  },
)

-- CombinatorResourceReport
pub record Report : Type 0 where
  pub user_id : Text
  pub resource_id : Text
  pub resource_type : Text
  pub data_change : ℤ
  pub timespan_start : ℕ
  pub timespan_end : ℕ

-- The row of a report. The column resource_id is an INTEGER that refers to a resource;
-- `pg_integer` is how PostgreSQL reads a text as one.
abbrev pub row_of_report : (Text → Option ℕ) → Report → ℕ → Db → Option ReportRow
row_of_report pg_integer r id d = elim (pg_integer r.resource_id) [
  | none ↦ none
  | some n ↦
      if exists (λ (x : CombinatorResource). x.id == n) d.combinator_resources.rows
      then some (record {
        id = id;
        user_uid = r.user_id;
        resource_id = n;
        datachange = r.data_change;
        record_start = r.timespan_start;
        record_end = r.timespan_end;
      })
      else none
]

abbrev pub append_row : Option ReportRow → Option (List ReportRow) → Option (List ReportRow)
append_row none rows = none
append_row (some r) none = none
append_row (some r) (some rows) = some (r ∷ rows)

-- The rows of one INSERT, if each of them can be stored.
abbrev pub rows_of_reports : (Text → Option ℕ) → List Report → ℕ → Db → Option (List ReportRow)
rows_of_reports pg_integer [] id d = some []
rows_of_reports pg_integer (r ∷ rs) id d =
    append_row (row_of_report pg_integer r id d) (rows_of_reports pg_integer rs (suc id) d)

abbrev pub advance : List ReportRow → ℕ → ℕ
advance [] id = id
advance (r ∷ rs) id = advance rs (suc id)

abbrev pub store_rows : Option (List ReportRow) → Db → Result (Unit {0}) × Db
store_rows none d = (err (failed (codes "invalid resource_id")), d)
store_rows (some rows) d = (
  ok tt,
  record d {
    resource_reports = record {
      rows = d.resource_reports.rows ++ rows;
      next_id = advance rows d.resource_reports.next_id;
    };
  },
)

module _ {S : Type 0} where
  unfoldable pub create_combinator_resource : Text → Text → Text → M S (Unit {0})
  unfolding exec
  create_combinator_resource user_uid resource_type resource_id w =
      exec (insert_resource user_uid resource_type resource_id w.now) w

  unfoldable pub get_combinator_resource : Text → Text → Text → M S CombinatorResource
  unfolding exec
  get_combinator_resource user_uid resource_type resource_id = exec λ d. (
    row_or (first (is_resource user_uid resource_type resource_id) d.combinator_resources.rows)
        no_rows,
    d,
  )

  unfoldable pub list_combinator_resources : Text → Text → M S (List CombinatorResource)
  unfolding exec
  list_combinator_resources user_uid resource_type = exec λ d. (
    ok (
        select
          (λ (r : CombinatorResource).
            text_eq r.user_uid user_uid && text_eq r.resource_type resource_type)
          d.combinator_resources.rows),
    d,
  )

  unfoldable pub list_active_combinator_resources : Text → M S (List CombinatorResource)
  unfolding exec
  list_active_combinator_resources user_uid =
      exec λ d. (ok (select (is_active user_uid) d.combinator_resources.rows), d)

  -- No row is no error.
  unfoldable pub update_combinator_resource_status :
      Text → Text → Text → ResourceStatus → Text → M S (Unit {0})
  unfolding exec
  update_combinator_resource_status user_uid resource_type resource_id status msg = exec λ d. (
    ok tt,
    set_resources
        (update (is_resource user_uid resource_type resource_id)
          (λ r. record r { status = status; msg = msg }) d.combinator_resources.rows)
        d,
  )

  -- No row is no error.
  unfoldable pub delete_combinator_resource : Text → Text → Text → M S (Unit {0})
  unfolding exec
  delete_combinator_resource user_uid resource_type resource_id = exec λ d. (
    ok tt,
    set_resources
        (delete (is_resource user_uid resource_type resource_id) d.combinator_resources.rows) d,
  )

  -- One INSERT for all reports; none, no statement.
  unfoldable pub batch_save_combinator_resource_reports :
      (Text → Option ℕ) → List Report → M S (Unit {0})
  unfolding exec
  batch_save_combinator_resource_reports pg_integer [] = pure tt
  batch_save_combinator_resource_reports pg_integer (r ∷ rs) =
      exec λ d. store_rows (rows_of_reports pg_integer (r ∷ rs) d.resource_reports.next_id d) d
