-- ===== src/Store/Users.antt =====
-- The users and the verification codes of dblayer/actions.go.
pub mod Once
use storebirth.Base.{
  ℕ, suc, List, [], ◌∷◌, ◌++◌, Bool, true, false, not, ◌&&◌, ◌||◌, Option, none, some, Text,
  text_eq, ◌==◌, if◌then◌else◌,
}
use storebirth.Store.{Db, User, VerificationCode, Error, no_rows, Result, ok, err}
use storebirth.Store.Sql.{M, ◌>>=◌, pure, exec, update, first, exists, row_or, duplicate_key}

abbrev set_codes : List VerificationCode → Db → Db
set_codes rows d = record d { verification_codes = record d.verification_codes { rows = rows } }

-- A code that was not used, of that email
abbrev pub is_usable : Text → Text → VerificationCode → Bool
is_usable email code c = text_eq c.email email && (text_eq c.code code && not c.used)

insert_code : Text → Text → ℕ → Db → Result (Unit {0}) × Db
insert_code email code expires_at d = (
  ok tt,
  record d {
    verification_codes = record {
      rows =
          d.verification_codes.rows
          ++ record {
            id = d.verification_codes.next_id;
            email = email;
            code = code;
            expires_at = expires_at;
            used = false;
          }
            ∷ [];
      next_id = suc d.verification_codes.next_id;
    };
  },
)

-- `uid` and `email` are unique.
insert_user : Text → Text → Text → Text → Db → Result Text × Db
insert_user uid email password_hash secret_key d =
    if exists (λ (u : User). text_eq u.uid uid || text_eq u.email email) d.users.rows
    then (err duplicate_key, d)
    else (
      ok uid,
      record d {
        users = record {
          rows =
              d.users.rows
              ++ record {
                id = d.users.next_id;
                uid = uid;
                email = email;
                password_hash = password_hash;
                secret_key = secret_key;
              }
                ∷ [];
          next_id = suc d.users.next_id;
        };
      },
    )

module _ {S : Type 0} where
  unfoldable pub get_verification_code : Text → Text → M S (ℕ × ℕ)
  unfolding exec
  get_verification_code email code = do
    c ← exec (λ d. (row_or (first (is_usable email code) d.verification_codes.rows) no_rows, d))
    pure (c.id, c.expires_at)

  unfoldable pub mark_code_used : ℕ → M S (Unit {0})
  unfolding exec
  mark_code_used code_id = exec λ d. (
    ok tt,
    set_codes
        (update (λ (c : VerificationCode). c.id == code_id) (λ c. record c { used = true })
          d.verification_codes.rows)
        d,
  )

  unfoldable pub create_user : Text → Text → Text → Text → M S Text
  unfolding exec insert_user
  create_user uid email password_hash secret_key =
      exec (insert_user uid email password_hash secret_key)

  unfoldable pub get_user_by_email : Text → M S User
  unfolding exec
  get_user_by_email email =
      exec λ d. (row_or (first (λ (u : User). text_eq u.email email) d.users.rows) no_rows, d)

  unfoldable pub save_verification_code : Text → Text → ℕ → M S (Unit {0})
  unfolding exec insert_code
  save_verification_code email code expires_at = exec (insert_code email code expires_at)

  -- No row is no error.
  unfoldable pub update_user_password : Text → Text → M S (Unit {0})
  unfolding exec
  update_user_password email password_hash = exec λ d. (
    ok tt,
    record d {
      users = record d.users {
        rows =
            update (λ (u : User). text_eq u.email email)
              (λ u. record u { password_hash = password_hash }) d.users.rows;
      };
    },
  )

  unfoldable pub get_user_secret_key : Text → M S Text
  unfolding exec
  get_user_secret_key uid = do
    u ← exec (λ d. (row_or (first (λ (u : User). text_eq u.uid uid) d.users.rows) no_rows, d))
    pure u.secret_key
