-- ===== src/Handlers/AuthHandler/Registration.antt =====
-- Register (handlers/auth.handler.go).
use storebirth.Base.{
  ◌≡◌, ◌≤◌, ◌⊎◌, [], ◌∷◌, ◌++◌, true, false, ◌||◌, none, some, Option-cases, inl, inr, Text,
  text_eq, arith,
}
use storebirth.Uid.{generate_uid}
use storebirth.Store.{Db, User, VerificationCode, ok}
use storebirth.Store.Sql.{World, exec, first, exists}
use storebirth.Store.Users.{is_usable, get_verification_code, create_user}
use storebirth.Credentials.{Crypto, hash_password, generate_secret_key, generate_token}
use storebirth.Platform.{Platform, delivered, send_task}
use storebirth.Jobs.Worker.Deploy.{Quiet}
use storebirth.Handlers.{Response, account_created}
use storebirth.Handlers.AuthHandler.{
  special_code, RegisterRequest, Draws, register_is_bound, register_handler, with_code,
  create_account, registered, mark_then, unless_expired,
}

module _ (crypto : Crypto) (d : Draws) (r : RegisterRequest) where
  -- The id and the row that a registration makes.
  abbrev pub new_uid : Text
  new_uid = generate_uid r.email d.uid_byte d.number.0 d.number.1 d.number.2 d.number.3

  abbrev pub new_user : Text → Db → User
  new_user hash db = record {
    id = db.users.next_id;
    uid = new_uid;
    email = r.email;
    password_hash = hash;
    secret_key = generate_secret_key crypto d.key_bytes;
  }

module _ {C : Type 0} (crypto : Crypto) (jwt_secret : Text) (d : Draws) (r : RegisterRequest) where
  abbrev run : World (Platform C) → Response × World (Platform C)
  run s = register_handler crypto jwt_secret d (some r) s

  -- A code that was sent to this email, that was not used, and that has not expired.
  abbrev pub HasCode : World (Platform C) → Type 0
  HasCode s =
      (c : VerificationCode) × (first (is_usable r.email r.code) s.db.verification_codes.rows
        ≡ some c)
      × (s.now ≤ c.expires_at)

  no_code :
      (s : World (Platform C))
      → text_eq r.code special_code ≡ false
      → first (is_usable r.email r.code) s.db.verification_codes.rows ≡ none
      → (run s).1.db.users ≡ s.db.users
  unfolding register_handler with_code create_account get_verification_code exec
  no_code s other e = ground (arith, other, e)

  expired_code :
      (s : World (Platform C)) (c : VerificationCode)
      → text_eq r.code special_code ≡ false
      → first (is_usable r.email r.code) s.db.verification_codes.rows ≡ some c
      → (s.now ≤ c.expires_at) ⊎ ((run s).1.db.users ≡ s.db.users)
  unfolding register_handler with_code create_account unless_expired get_verification_code exec
  expired_code s c other e = ground (arith, other, e)

  -- The special code registers any email: while the calls succeed, for an id and an email that no
  -- user has, Register with it answers 200 with the account, though no code was sent to that email.
  register-special_code :
      (s : World (Platform C)) (hash : Text)
      → Quiet s
      → register_is_bound r ≡ true
      → r.code ≡ special_code
      → hash_password crypto d.salt r.password ≡ ok hash
      → exists
          (λ (u : User). text_eq u.uid (new_uid crypto d r) || text_eq u.email r.email)
          s.db.users.rows
        ≡ false
      → s.service.net s.service.posts ≡ delivered
      → ((run s).0 ≡ record {
        status = 200;
        body =
            account_created
              (new_uid crypto d r)
              r.email
              (generate_token crypto jwt_secret s.now (new_uid crypto d r) r.email)
              (generate_secret_key crypto d.key_bytes);
      })
        × ((run s).1.db.users.rows ≡ s.db.users.rows ++ new_user crypto d r hash s.db ∷ [])
        × ((run s).1.db.verification_codes ≡ s.db.verification_codes)
  unfolding register_handler with_code create_account registered mark_then create_user send_task
      exec
  register-special_code s hash q bound special hashed fresh net = (
    ground (arith, hashed, fresh, net, q s.calls),
    ground (arith, hashed, fresh, net, q s.calls),
    ground (arith, hashed, fresh, net, q s.calls),
  )

  -- With a code other than the special one, wherever a call fails, Register either leaves the users as
  -- they are, or there was a code of this email that was not used and has not expired.
  pub register-HasCode :
      (s : World (Platform C))
      → text_eq r.code special_code ≡ false
      → ((run s).1.db.users ≡ s.db.users) ⊎ HasCode s
  register-HasCode s other =
      elim (Option-cases (first (is_usable r.email r.code) s.db.verification_codes.rows)) [
        | inl e ↦ inl (no_code s other e)
        | inr (c, e) ↦ elim (expired_code s c other e) [
          | inl early ↦ inr (c, e, early)
          | inr same ↦ inl same
        ]
      ]
