-- ===== src/Handlers/AuthHandler.antt =====
-- handlers/auth.handler.go: the accounts of users, and the two middlewares.
pub mod Middleware
pub mod Passwords
pub mod Registration
pub mod Takeover
use storebirth.Base.{
  ℕ, ◌+◌, List, [], ◌∷◌, ◌++◌, Bool, true, false, not, ◌&&◌, Option, none, some, Text, codes,
  text_eq, ltb, leb, length, drop, take, if◌then◌else◌,
}
use storebirth.Uid.{generate_uid}
use storebirth.Jobs.{register_user}
use storebirth.Store.{User, Error, message, Result, ok, err}
use storebirth.Store.Sql.{World, M}
use storebirth.Store.Users.{
  get_verification_code, mark_code_used, create_user, get_user_by_email, save_verification_code,
  update_user_password, get_user_secret_key,
}
use storebirth.Credentials.{
  Crypto, ten_minutes, generate_code, hash_password, check_password, generate_secret_key,
  generate_token, validate_token, verify_hmac_signature,
}
use storebirth.Platform.{Platform, send_task}
use storebirth.Handlers.{
  Response, Body, error, account_created, session, code_sent, Handler, json, proceed, try, bind,
}

-- SPECIAL_CODE
abbrev pub special_code : Text
special_code = codes "701213"

-- `required` of a string
abbrev pub given : Text → Bool
given s = not (text_eq s [])

pub record RegisterRequest : Type 0 where
  pub email : Text
  pub password : Text
  pub code : Text

pub record LoginRequest : Type 0 where
  pub email : Text
  pub password : Text

pub record ResetRequest : Type 0 where
  pub email : Text
  pub code : Text
  pub new_password : Text

-- What is drawn for one request: the bytes of GenerateUID, those of GenerateSecretKey, and a salt.
pub record Draws : Type 0 where
  pub uid_byte : ℕ
  pub number : ℕ × ℕ × ℕ × ℕ
  pub key_bytes : List ℕ
  pub salt : ℕ

abbrev pub register_is_bound : RegisterRequest → Bool
register_is_bound r = given r.email && (leb 2 (length r.password) && given r.code)

abbrev pub login_is_bound : LoginRequest → Bool
login_is_bound r = given r.email && given r.password

-- `is_email` is the validator of the library.
abbrev pub reset_is_bound : (Text → Bool) → ResetRequest → Bool
reset_is_bound is_email r =
    given r.email && (is_email r.email && (given r.code && leb 8 (length r.new_password)))

module _ {C : Type 0} (crypto : Crypto) (jwt_secret : Text) where
  -- Register, after MarkCodeUsed: the task, the token and the answer
  registered : RegisterRequest → Text → Text → Handler C
  unfolding generate_token send_task
  registered r secret_key user_uid w =
      try (send_task (register_user user_uid))
        (λ e. json 500 (error (codes "failed to enqueue registration task")))
        (λ _. json 200 (
          account_created user_uid r.email (generate_token crypto jwt_secret w.now user_uid r.email)
            secret_key))
        w

  -- Register, from HashPassword on. `code_id` is the code to mark, `none` for the special one.
  mark_then : Option ℕ → Handler C → Handler C
  unfolding mark_code_used
  mark_then none next = next
  mark_then (some code_id) next = try (mark_code_used code_id) (λ e. next) (λ _. next)

  create_account : Draws → RegisterRequest → Option ℕ → Handler C
  unfolding registered mark_then create_user
  create_account d r code_id =
      let (b0, b1, b2, b3) = d.number in
      let secret_key = generate_secret_key crypto d.key_bytes in
      proceed (hash_password crypto d.salt r.password)
        (λ e. json 500 (error (codes "failed to hash password: " ++ message e)))
        (λ hash.
          try (create_user (generate_uid r.email d.uid_byte b0 b1 b2 b3) r.email hash secret_key)
            (λ e. json 400 (error (codes "email already exists: " ++ message e)))
            (λ user_uid. mark_then code_id (registered r secret_key user_uid)))

  -- time.Now().After(expiresAt)
  unless_expired : ℕ → Handler C → Handler C
  unless_expired expires_at next w =
      if ltb expires_at w.now then json 400 (error (codes "code expired")) w else next w

  with_code : Draws → RegisterRequest → Handler C
  unfolding create_account unless_expired get_verification_code
  with_code d r =
      if text_eq r.code special_code
      then create_account d r none
      else try (get_verification_code r.email r.code)
          (λ e. json 400 (error (codes "invalid code: " ++ message e)))
          (λ row. unless_expired row.1 (create_account d r (some row.0)))

  -- Register
  unfoldable pub register_handler : Draws → Option RegisterRequest → Handler C
  unfolding with_code text_eq
  register_handler d request = bind request register_is_bound (with_code d)

  check_login : LoginRequest → User → Handler C
  unfolding generate_token
  check_login r user w =
      if check_password crypto r.password user.password_hash
      then json 200 (session user.uid (generate_token crypto jwt_secret w.now user.uid user.email))
          w
      else json 401 (error (codes "invalid credentials")) w

  -- Login
  unfoldable pub login_handler : Option LoginRequest → Handler C
  unfolding check_login get_user_by_email text_eq
  login_handler request = bind request login_is_bound λ r.
      try (get_user_by_email r.email) (λ e. json 401 (error (codes "invalid credentials")))
        (check_login r)

  -- ResetPassword, after the code was found and has not expired
  set_password : ℕ → ResetRequest → ℕ → Handler C
  unfolding update_user_password mark_then
  set_password salt r code_id =
      proceed (hash_password crypto salt r.new_password)
        (λ e. json 500 (error (codes "failed to hash password")))
        (λ hash.
          try (update_user_password r.email hash)
            (λ e. json 500 (error (codes "failed to update password")))
            (λ _.
              mark_then (some code_id)
                (json 200 (Body.message (codes "password reset successfully")))))

  -- ResetPassword
  unfoldable pub reset_password_handler : (Text → Bool) → ℕ → Option ResetRequest → Handler C
  unfolding set_password unless_expired get_verification_code text_eq
  reset_password_handler is_email salt request = bind request (reset_is_bound is_email) λ r.
      try (get_verification_code r.email r.code) (λ e. json 400 (error (codes "invalid code")))
        (λ row. unless_expired row.1 (set_password salt r row.0))

-- The html and the subject of the mail with a code
abbrev pub mail_html : Text → Text
mail_html code = codes "<strong>Your verification code is: " ++ (code ++ codes "</strong>")

abbrev pub mail_subject : Text → Text
mail_subject code = code ++ codes " is your verification code for Combinator Console"

module _ {C : Type 0} where
  save_code : Text → Text → Text → ℕ → Handler C
  unfolding save_verification_code
  save_code email code misc expires_at =
      try (save_verification_code email code expires_at)
        (λ e. json 500 (error (codes "failed to save code"))) (λ _. json 200 (code_sent code misc))

  -- SendCode. `send` is Emails.Send of the mail service: to, html, subject.
  unfoldable pub send_code_handler :
      (Text → Bool) → (Text → Text → Text → Result Text) → Option Text → Handler C
  unfolding save_code generate_code text_eq
  send_code_handler is_email send request =
      bind request (λ email. given email && is_email email)
        λ email w.
          let code = generate_code w.now in
          proceed (send email (mail_html code) (mail_subject code))
            (λ e. json 500 (error (codes "failed to send email, " ++ message e)))
            (λ misc. save_code email code misc (w.now + ten_minutes)) w
