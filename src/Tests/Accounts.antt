-- ===== src/Tests/Accounts.antt =====
-- The accounts on a concrete database, with a toy cryptography that its laws hold for.
use storebirth.Base.{
  ℕ, ◌/◌, ◌≡◌, ◌<◌, ◌⊎◌, ◌↔◌, ◌++◌, refl, sym, [], ◌∷◌, Bool, true, false, none, some, Option, Text,
  text_eq, text_eq_iff, codes, arith,
}
use storebirth.Store.{Result, ok}
use storebirth.Store.Sql.{World, exec, first}
use storebirth.Store.Users.{get_user_secret_key}
use storebirth.Credentials.{Claims, Crypto, IsCrypto, generate_token, generate_code}
use storebirth.Platform.{Platform}
use storebirth.Handlers.{session, code_sent}
use storebirth.Handlers.AuthHandler.{
  LoginRequest, ResetRequest, RegisterRequest, Draws, login_handler, reset_password_handler,
  send_code_handler, register_handler,
}
use storebirth.Handlers.AuthHandler.Middleware.{
  bearer, Headers, passes, auth_middleware, signature_middleware, IsSigned,
  auth_middleware-generate_token, signature_middleware_iff,
}
use storebirth.Handlers.AuthHandler.Passwords.{
  ResetEnds, reset_world, reset_password-ResetEnds, reset_password-login,
}
use storebirth.Handlers.AuthHandler.Registration.{HasCode, register-HasCode}
use storebirth.Handlers.AuthHandler.Takeover.{sent_world, send_code-takes_over}
use storebirth.Tests.Objects.{Objects}
use storebirth.Tests.Rows.{ann, user, world}

-- A token is the user id behind the secret.
abbrev toy_parse : Text → Text → Option Text
toy_parse [] token = some token
toy_parse (c ∷ secret) [] = none
toy_parse (c ∷ secret) (x ∷ token) = toy_parse secret token

abbrev toy : Crypto
toy = record {
  bcrypt = λ salt password. ok (codes "h:" ++ password);
  bcrypt_matches = λ hash password. text_eq hash (codes "h:" ++ password);
  jwt_sign = λ secret claims. ok (secret ++ claims.user_id);
  jwt_parse = λ secret now token.
      ok (record { has_claims = true; is_valid = true; user_id = toy_parse secret token });
  hmac_sha256 = λ key payload. key ++ payload;
  base64_raw_url = λ bytes. bytes;
}

parse_toy : (secret user_id : Text) → toy_parse secret (secret ++ user_id) ≡ some user_id
parse_toy [] user_id = refl
parse_toy (c ∷ secret) user_id = parse_toy secret user_id

matched :
    (salt : ℕ) (password hash : Text)
    → toy.bcrypt salt password ≡ ok hash
    → toy.bcrypt_matches hash password ≡ true
matched salt password hash e =
    let p : codes "h:" ++ password ≡ hash = cc in
    (text_eq_iff hash (codes "h:" ++ password)).1 (sym p)

parsed :
    (secret : Text) (claims : Claims) (now : ℕ) (token : Text)
    → toy.jwt_sign secret claims ≡ ok token
    → now / 1000000000 < claims.exp
    → toy.jwt_parse secret now token
      ≡ ok (record { has_claims = true; is_valid = true; user_id = some claims.user_id })
parsed secret claims now token e early =
    let p : token ≡ secret ++ claims.user_id = cc in rw (p, parse_toy secret claims.user_id) refl

toy-IsCrypto : IsCrypto toy
toy-IsCrypto = record { matches-bcrypt = matched; parse-sign = parsed }

abbrev email : Text
email = codes "ann@x.org"

abbrev secret : Text
secret = codes "jwt"

abbrev any_email : Text → Bool
any_email t = true

-- The database with a code for ann.
abbrev coded : World (Platform Objects)
coded = record world {
  db = record world.db {
    verification_codes = record {
      rows =
          record {
            id = 1;
            email = email;
            code = codes "123456";
            expires_at = 1764150010;
            used = false;
          }
          ∷ [];
      next_id = 2;
    };
  };
}

abbrev reset : ResetRequest
reset = record { email = email; code = codes "123456"; new_password = codes "correct horse" }

abbrev login : LoginRequest
login = record { email = email; password = codes "correct horse" }

reset_password-ResetEnds_example :
    ResetEnds toy secret any_email 5 reset coded
      (reset_password_handler toy secret any_email 5 (some reset) coded)
reset_password-ResetEnds_example = reset_password-ResetEnds toy secret any_email 5 reset coded

reset_password-login_example :
    (login_handler toy secret (some login) (reset_world toy secret any_email 5 reset coded)).0
    ≡ record {
      status = 200;
      body = session ann (
          generate_token toy secret (reset_world toy secret any_email 5 reset coded).now ann email);
    }
unfolding reset_password_handler exec text_eq first
reset_password-login_example =
    reset_password-login toy secret any_email 5 reset coded user toy-IsCrypto (λ n. refl) refl refl

abbrev mail : Text → Text → Text → Result Text
mail to html subject = ok (codes "m1")

abbrev takeover : ResetRequest
takeover = record {
  email = email;
  code = generate_code world.now;
  new_password = codes "correct horse";
}

abbrev taken : World (Platform Objects)
taken =
    reset_world toy secret any_email 5 takeover (sent_world any_email mail email (codes "m1") world)

send_code-takes_over_example :
    (send_code_handler any_email mail (some email) world ≡ (
      record { status = 200; body = code_sent (generate_code world.now) (codes "m1") },
      sent_world any_email mail email (codes "m1") world,
    ))
    × ((reset_password_handler toy secret any_email 5
          (some takeover)
          (sent_world any_email mail email (codes "m1") world)).0.status
        ≡ 200)
    × ((login_handler toy secret (some login) taken).0 ≡ record {
      status = 200;
      body = session ann (generate_token toy secret taken.now ann email);
    })
unfolding text_eq first
send_code-takes_over_example =
    send_code-takes_over any_email mail email (codes "m1") world toy secret 5
      (codes "correct horse") user (codes "h:correct horse") toy-IsCrypto (λ n. refl) refl refl refl
      refl refl refl

abbrev draws : Draws
draws = record { uid_byte = 1; number = (0, 0, 0, 7); key_bytes = 65 ∷ []; salt = 5 }

abbrev registration : RegisterRequest
registration = record { email = codes "eve@x.org"; password = codes "pw"; code = codes "701213" }

register-HasCode_example :
    ((register_handler toy secret draws
        (some (record registration { code = codes "123456" }))
        coded).1.db.users
      ≡ coded.db.users)
    ⊎ HasCode toy secret draws (record registration { code = codes "123456" }) coded
unfolding text_eq
register-HasCode_example =
    register-HasCode toy secret draws (record registration { code = codes "123456" }) coded refl

auth_middleware-generate_token_example :
    auth_middleware toy secret 1000000000 (bearer ++ generate_token toy secret 0 ann email)
    ≡ passes ann
auth_middleware-generate_token_example =
    auth_middleware-generate_token toy secret 0 1000000000 ann email (codes "jwt" ++ ann)
      toy-IsCrypto refl (omega arith)

abbrev headers : Headers
headers = record { signature = codes "keyhello17"; user_id = ann; timestamp = codes "17" }

signature_middleware_iff_example :
    ((signature_middleware toy headers (ok (codes "hello")) world).0 ≡ passes ann)
    ↔ IsSigned toy headers (get_user_secret_key ann world).0 (ok (codes "hello"))
signature_middleware_iff_example = signature_middleware_iff toy headers (ok (codes "hello")) world
