-- ===== src/Handlers/AuthHandler/Passwords.antt =====
-- ResetPassword, and Login after it (handlers/auth.handler.go).
use storebirth.Base.{
  ℕ, ◌≡◌, ◌≢◌, ◌≤◌, ◌⊎◌, ◌==◌, leb, length, refl, List, [], ◌∷◌, Bool, true, Bool-cases, inl, inr,
  none, some, Option-cases, Text, text_eq, arith,
}
use storebirth.Store.{User, VerificationCode, Result, ok, err}
use storebirth.Store.Sql.{World, exec, first, update}
use storebirth.Store.Users.{
  is_usable, get_verification_code, update_user_password, mark_code_used, get_user_by_email,
}
use storebirth.Credentials.{Crypto, IsCrypto, hash_password, check_password, generate_token}
use storebirth.Platform.{Platform}
use storebirth.Jobs.Worker.Deploy.{Quiet}
use storebirth.Handlers.{Response, session}
use storebirth.Handlers.AuthHandler.{
  LoginRequest, ResetRequest, given, login_is_bound, reset_is_bound, login_handler,
  reset_password_handler, set_password, unless_expired, mark_then, check_login,
}

-- The users with a new password for an email.
abbrev pub with_password : Text → Text → List User → List User
with_password email hash =
    update (λ (u : User). text_eq u.email email) (λ u. record u { password_hash = hash })

module _ {C : Type 0} (crypto : Crypto) (jwt_secret : Text) (is_email : Text → Bool) (salt : ℕ)
    (r : ResetRequest) where
  abbrev pub Reset : World (Platform C) → World (Platform C) → Type 0
  Reset s t =
      (c : VerificationCode) × (hash : Text) × (first (is_usable r.email r.code)
          s.db.verification_codes.rows
        ≡ some c)
      × (s.now ≤ c.expires_at)
      × (hash_password crypto salt r.new_password ≡ ok hash)
      × (t.db.users.rows ≡ with_password r.email hash s.db.users.rows)

  abbrev run : World (Platform C) → Response × World (Platform C)
  run s = reset_password_handler crypto jwt_secret is_email salt (some r) s

  refused_before : (s : World (Platform C)) → (run s).0.status ≢ 200 → (run s).1.db ≡ s.db
  unfolding reset_password_handler set_password unless_expired mark_then get_verification_code
      update_user_password mark_code_used exec
  refused_before s h = ground (arith, h)

  code_found :
      (s : World (Platform C))
      → (run s).0.status ≡ 200
      → first (is_usable r.email r.code) s.db.verification_codes.rows ≢ none
  unfolding reset_password_handler set_password unless_expired get_verification_code exec
  code_found s h e = ground (arith, h, e)

  hash_made :
      (s : World (Platform C)) (x : Result Text)
      → (run s).0.status ≡ 200
      → hash_password crypto salt r.new_password ≡ x
      → (hash : Text) × (x ≡ ok hash)
  unfolding reset_password_handler set_password unless_expired get_verification_code exec
  hash_made s (ok hash) h e = (hash, refl)
  hash_made s (err x) h e = absurd (ground (arith, h, e))

  reset_rest :
      (s : World (Platform C)) (c : VerificationCode) (hash : Text)
      → (run s).0.status ≡ 200
      → first (is_usable r.email r.code) s.db.verification_codes.rows ≡ some c
      → hash_password crypto salt r.new_password ≡ ok hash
      → (s.now ≤ c.expires_at)
        × ((run s).1.db.users.rows ≡ with_password r.email hash s.db.users.rows)
  unfolding reset_password_handler set_password unless_expired mark_then get_verification_code
      update_user_password mark_code_used exec
  reset_rest s c hash h found hashed = (ground (arith, h), ground (arith, h))

  -- The two ends of ResetPassword.
  abbrev pub ResetEnds : World (Platform C) → Response × World (Platform C) → Type 0
  ResetEnds s t = ((t.0.status ≡ 200) × Reset s t.1) ⊎ ((t.0.status ≢ 200) × (t.1.db ≡ s.db))

  password_changed : (s : World (Platform C)) → (run s).0.status ≡ 200 → Reset s (run s).1
  password_changed s h =
      elim (Option-cases (first (is_usable r.email r.code) s.db.verification_codes.rows)) [
        | inl e ↦ absurd (code_found s h e)
        | inr (c, found) ↦
            let (hash, hashed) = hash_made s (hash_password crypto salt r.new_password) h refl in
            let (early, rows) = reset_rest s c hash h found hashed in
            (c, hash, found, early, hashed, rows)
      ]

  -- Wherever a call fails, ResetPassword ends in one of two ways: it answers 200, there was a code of
  -- this email that was not used and has not expired, and the password of this email is the new one,
  -- all other users being as before; or it answers something else, and the database is as before.
  pub reset_password-ResetEnds : (s : World (Platform C)) → ResetEnds s (run s)
  reset_password-ResetEnds s = elim (Bool-cases ((run s).0.status == 200)) [
    | inl e ↦ let h : (run s).0.status ≡ 200 = ground (arith, e) in inl (h, password_changed s h)
    | inr e ↦ let h : (run s).0.status ≢ 200 = ground (arith, e) in inr (h, refused_before s h)
  ]

long_given : (t : Text) → leb 8 (length t) ≡ true → given t ≡ true
unfolding text_eq
long_given [] h = absurd (ground (arith, h))
long_given (c ∷ t) h = refl

first-with_password :
    (email hash : Text) (rows : List User) (u : User)
    → first (λ (x : User). text_eq x.email email) rows ≡ some u
    → first (λ (x : User). text_eq x.email email) (with_password email hash rows)
      ≡ some (record u { password_hash = hash })
unfolding first update
first-with_password email hash [] u h = absurd (cc)
first-with_password email hash (x ∷ rows) u h =
    ground (arith, first-with_password email hash rows u)

module _ {C : Type 0} (crypto : Crypto) (jwt_secret : Text) where
  login_accepts :
      (l : LoginRequest) (t : World (Platform C)) (u : User)
      → Quiet t
      → login_is_bound l ≡ true
      → first (λ (x : User). text_eq x.email l.email) t.db.users.rows ≡ some u
      → check_password crypto l.password u.password_hash ≡ true
      → (login_handler crypto jwt_secret (some l) t).0 ≡ record {
        status = 200;
        body = session u.uid (generate_token crypto jwt_secret t.now u.uid u.email);
      }
  unfolding login_handler check_login get_user_by_email exec
  login_accepts l t u q bound found good = ground (arith, q t.calls, found)

module _ {C : Type 0} (crypto : Crypto) (jwt_secret : Text) (is_email : Text → Bool) (salt : ℕ)
    (r : ResetRequest) (s : World (Platform C)) where
  -- The world after ResetPassword.
  abbrev pub reset_world : World (Platform C)
  reset_world = (reset_password_handler crypto jwt_secret is_email salt (some r) s).1

  fault-reset : reset_world.fault ≡ s.fault
  unfolding reset_password_handler set_password unless_expired mark_then get_verification_code
      update_user_password mark_code_used exec
  fault-reset = ground arith

  abbrev pub new_login : LoginRequest
  new_login = record { email = r.email; password = r.new_password }

  new_login_bound : reset_is_bound is_email r ≡ true → login_is_bound new_login ≡ true
  new_login_bound h = ground (arith, h, long_given r.new_password)

  reset_bound :
      (reset_password_handler crypto jwt_secret is_email salt (some r) s).0.status ≡ 200
      → reset_is_bound is_email r ≡ true
  unfolding reset_password_handler
  reset_bound h = ground (arith, h)

  -- After a ResetPassword that answers 200, for an email with a user, and while the database
  -- answers, Login with the new password answers 200, with the id of that user and a token for it.
  pub reset_password-login :
      (u : User)
      → IsCrypto crypto
      → Quiet s
      → first (λ (x : User). text_eq x.email r.email) s.db.users.rows ≡ some u
      → (reset_password_handler crypto jwt_secret is_email salt (some r) s).0.status ≡ 200
      → (login_handler crypto jwt_secret (some new_login) reset_world).0 ≡ record {
        status = 200;
        body = session u.uid (generate_token crypto jwt_secret reset_world.now u.uid u.email);
      }
  reset_password-login u law q found h =
      let (c, hash, usable, early, hashed, rows) =
        password_changed crypto jwt_secret is_email salt r s h in
      login_accepts crypto jwt_secret new_login reset_world (record u { password_hash = hash })
        (rw fault-reset q) (new_login_bound (reset_bound h))
        (rw rows (first-with_password r.email hash s.db.users.rows u found))
        (law.matches-bcrypt salt r.new_password hash hashed)
