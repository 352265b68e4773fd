-- ===== src/Store/Domains.antt =====
-- The custom domains of dblayer/actions.go.
use storebirth.Base.{
  ℕ, suc, List, [], ◌∷◌, ◌++◌, Bool, true, false, ◌||◌, Text, text_eq, if◌then◌else◌,
}
use storebirth.Store.{Db, CustomDomain, DomainStatus, no_rows, Result, ok, err}
use storebirth.Store.Sql.{M, exec, select, update, delete, first, exists, row_or, duplicate_key}

abbrev pub set_domains : List CustomDomain → Db → Db
set_domains rows d = record d { custom_domains = record d.custom_domains { rows = rows } }

abbrev pub has_cdid : Text → CustomDomain → Bool
has_cdid cdid r = text_eq r.cdid cdid

abbrev pub is_success : CustomDomain → Bool
is_success r = elim r.status [ DomainStatus.success ↦ true | _ ↦ false ]

-- `cdid` and `domain` are unique.
unfoldable pub insert_domain :
    Text → Text → Text → Text → Text → Text → DomainStatus → ℕ → Db → Result (Unit {0}) × Db
insert_domain cdid user_uid domain target txt_name txt_value status now d =
    if exists (λ (r : CustomDomain). text_eq r.cdid cdid || text_eq r.domain domain)
      d.custom_domains.rows
    then (err duplicate_key, d)
    else (
      ok tt,
      record d {
        custom_domains = record {
          rows =
              d.custom_domains.rows
              ++ record {
                id = d.custom_domains.next_id;
                cdid = cdid;
                user_uid = user_uid;
                domain = domain;
                target = target;
                txt_name = txt_name;
                txt_value = txt_value;
                status = status;
                created_at = now;
              }
                ∷ [];
          next_id = suc d.custom_domains.next_id;
        };
      },
    )

module _ {S : Type 0} where
  unfoldable pub create_custom_domain :
      Text → Text → Text → Text → Text → Text → DomainStatus → M S (Unit {0})
  unfolding exec insert_domain
  create_custom_domain cdid user_uid domain target txt_name txt_value status w =
      exec (insert_domain cdid user_uid domain target txt_name txt_value status w.now) w

  unfoldable pub get_custom_domain : Text → M S CustomDomain
  unfolding exec
  get_custom_domain cdid =
      exec λ d. (row_or (first (has_cdid cdid) d.custom_domains.rows) no_rows, d)

  unfoldable pub list_custom_domains : Text → M S (List CustomDomain)
  unfolding exec
  list_custom_domains user_uid = exec λ d.
      (ok (select (λ (r : CustomDomain). text_eq r.user_uid user_uid) d.custom_domains.rows), d)

  -- No row is no error.
  unfoldable pub update_custom_domain_status : Text → DomainStatus → M S (Unit {0})
  unfolding exec
  update_custom_domain_status cdid status = exec λ d. (
    ok tt,
    set_domains (update (has_cdid cdid) (λ r. record r { status = status }) d.custom_domains.rows)
        d,
  )

  -- No row is no error.
  unfoldable pub delete_custom_domain : Text → M S (Unit {0})
  unfolding exec
  delete_custom_domain cdid =
      exec λ d. (ok tt, set_domains (delete (has_cdid cdid) d.custom_domains.rows) d)

  unfoldable pub list_all_success_domains : M S (List CustomDomain)
  unfolding exec
  list_all_success_domains = exec λ d. (ok (select is_success d.custom_domains.rows), d)
