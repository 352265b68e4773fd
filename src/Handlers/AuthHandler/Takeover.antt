-- ===== src/Handlers/AuthHandler/Takeover.antt =====
-- SendCode and then ResetPassword: the code that the answer of SendCode shows is enough.
use storebirth.Base.{
  ℕ, suc, ◌+◌, ◌≡◌, refl, List, [], ◌∷◌, ◌++◌, Bool, true, false, ◌&&◌, none, some, Text, text_eq,
  text_eq_iff, length, leb, ◌%◌, arith,
}
use storebirth.Store.{User, VerificationCode, Result, ok}
use storebirth.Store.Sql.{World, exec, first}
use storebirth.Store.Users.{
  is_usable, get_verification_code, update_user_password, mark_code_used, save_verification_code,
}
use storebirth.Credentials.{
  Crypto, IsCrypto, hash_password, generate_code, generate_token, ten_minutes,
}
use storebirth.Uid.Shape.{length-pad_decimal}
use storebirth.Platform.{Platform}
use storebirth.Jobs.Worker.Deploy.{Quiet}
use storebirth.Handlers.{code_sent, session}
use storebirth.Handlers.AuthHandler.{
  ResetRequest, given, login_handler, reset_password_handler, set_password, unless_expired,
  mark_then, send_code_handler, save_code, mail_html, mail_subject,
}
use storebirth.Handlers.AuthHandler.Passwords.{reset_world, reset_password-login}

first-append :
    (email code : Text) (rows : List VerificationCode) (c : VerificationCode)
    → first (is_usable email code) rows ≡ none
    → is_usable email code c ≡ true
    → first (is_usable email code) (rows ++ c ∷ []) ≡ some c
unfolding first
first-append email code [] c h e = ground (arith, e)
first-append email code (x ∷ rows) c h e = ground (arith, first-append email code rows c, e)

some_given : (t : Text) (k : ℕ) → length t ≡ suc k → given t ≡ true
unfolding text_eq
some_given [] k e = absurd (omega (arith, e))
some_given (c ∷ t) k e = refl

generate_code-given : (now : ℕ) → given (generate_code now) ≡ true
unfolding generate_code text_eq
generate_code-given now =
    some_given (generate_code now) 5 (length-pad_decimal 5 (now % 1000000) (omega (arith)))

module _ {C : Type 0} (is_email : Text → Bool) (send : Text → Text → Text → Result Text)
    (email misc : Text) (s : World (Platform C)) where
  abbrev pub sent_code : VerificationCode
  sent_code = record {
    id = s.db.verification_codes.next_id;
    email = email;
    code = generate_code s.now;
    expires_at = s.now + ten_minutes;
    used = false;
  }

  -- The world after SendCode.
  abbrev pub sent_world : World (Platform C)
  sent_world = record s {
    calls = suc s.calls;
    db = record s.db {
      verification_codes = record {
        rows = s.db.verification_codes.rows ++ sent_code ∷ [];
        next_id = suc s.db.verification_codes.next_id;
      };
    };
  }

  sent_usable : is_usable email (generate_code s.now) sent_code ≡ true
  sent_usable =
      ground
        (arith, text_eq_iff email email, text_eq_iff (generate_code s.now) (generate_code s.now))

  send_code_runs :
      Quiet s
      → given email && is_email email ≡ true
      → send email (mail_html (generate_code s.now)) (mail_subject (generate_code s.now)) ≡ ok misc
      → send_code_handler is_email send (some email) s
        ≡ (record { status = 200; body = code_sent (generate_code s.now) misc }, sent_world)
  unfolding send_code_handler save_code save_verification_code exec
  send_code_runs q bound mailed = ground (arith, q s.calls)

  module _ (crypto : Crypto) (jwt_secret : Text) (salt : ℕ) (new_password : Text) where
    abbrev pub take_over : ResetRequest
    take_over = record { email = email; code = generate_code s.now; new_password = new_password }

    reset_runs :
        (hash : Text)
        → Quiet s
        → given email && is_email email ≡ true
        → leb 8 (length new_password) ≡ true
        → first (is_usable email (generate_code s.now)) s.db.verification_codes.rows ≡ none
        → hash_password crypto salt new_password ≡ ok hash
        → (reset_password_handler crypto jwt_secret is_email salt
            (some take_over)
            sent_world).0.status
          ≡ 200
    unfolding reset_password_handler set_password unless_expired mark_then get_verification_code
        update_user_password mark_code_used exec
    reset_runs hash q bound long fresh hashed = ground (
      arith,
      bound,
      long,
      hashed,
      generate_code-given s.now,
      first-append email (generate_code s.now) s.db.verification_codes.rows sent_code fresh
          sent_usable,
      q (suc s.calls),
      q (suc (suc s.calls)),
      q (suc (suc (suc s.calls))),
    )

    -- Whoever asks for a code for the email of a user, and can read the answer, can set the password of
    -- that user, without the mail: while the database, the mail service and bcrypt answer, and no older
    -- usable code of that email has the same digits, SendCode answers 200 and shows the code; ResetPassword with that code answers 200; and Login with the new
    -- password answers 200 with the id of the user and a token for it.
    pub send_code-takes_over :
        (u : User) (hash : Text)
        → IsCrypto crypto
        → Quiet s
        → given email && is_email email ≡ true
        → leb 8 (length new_password) ≡ true
        → send email (mail_html (generate_code s.now)) (mail_subject (generate_code s.now))
          ≡ ok misc
        → first (is_usable email (generate_code s.now)) s.db.verification_codes.rows ≡ none
        → hash_password crypto salt new_password ≡ ok hash
        → first (λ (x : User). text_eq x.email email) s.db.users.rows ≡ some u
        → let t = reset_world crypto jwt_secret is_email salt take_over sent_world in
          (send_code_handler is_email send (some email) s
            ≡ (record { status = 200; body = code_sent (generate_code s.now) misc }, sent_world))
          × ((reset_password_handler crypto jwt_secret is_email salt
                (some take_over)
                sent_world).0.status
              ≡ 200)
          × ((login_handler crypto jwt_secret
                (some (record { email = email; password = new_password }))
                t).0
              ≡ record {
                status = 200;
                body = session u.uid (generate_token crypto jwt_secret t.now u.uid u.email);
              })
    send_code-takes_over u hash law q bound long mailed fresh hashed found =
        let reset = reset_runs hash q bound long fresh hashed in
        (
          send_code_runs q bound mailed,
          reset,
          reset_password-login crypto jwt_secret is_email salt take_over sent_world u law q found
              reset,
        )
