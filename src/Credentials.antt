-- ===== src/Credentials.antt =====
-- handlers/auth.utils.go: passwords, tokens, codes, keys and signatures. The cryptography of the
-- libraries is a parameter, and what crypto/rand yields is an argument.
use storebirth.Base.{
  ℕ, ◌+◌, ◌-◌, ◌/◌, ◌%◌, ◌≡◌, ◌<◌, List, [], ◌∷◌, ◌++◌, Bool, true, Option, none, some, Text, codes,
  text_eq, ltb, if◌then◌else◌,
}
use storebirth.Uid.{pad_decimal}
use storebirth.Store.{failed, Result, ok, err}

-- jwt.MapClaims of GenerateToken; `exp` is a Unix time in seconds.
pub record Claims : Type 0 where
  pub user_id : Text
  pub email : Text
  pub exp : ℕ

-- What jwt.Parse returns without an error: whether the claims are a map, whether the token is
-- valid, and the claim user_id where it is a string.
pub record Token : Type 0 where
  pub has_claims : Bool
  pub is_valid : Bool
  pub user_id : Option Text

pub record Crypto : Type 0 where
  -- bcrypt.GenerateFromPassword at cost 12 with a salt, and CompareHashAndPassword == nil
  pub bcrypt : (salt : ℕ) → Text → Result Text
  pub bcrypt_matches : (hash password : Text) → Bool
  -- SignedString with HS256, and jwt.Parse at a time in nanoseconds
  pub jwt_sign : (secret : Text) → Claims → Result Text
  pub jwt_parse : (secret : Text) → (now : ℕ) → Text → Result Token
  -- HMAC-SHA256, and base64.RawURLEncoding
  pub hmac_sha256 : (key payload : Text) → Text
  pub base64_raw_url : Text → Text

-- What these libraries document: a hash matches the password that it was made from, and a token
-- that was signed is parsed by the same secret until it expires, with its claims.
pub record IsCrypto (crypto : Crypto) : Type 0 where
  pub matches-bcrypt :
      (salt : ℕ) (password hash : Text)
      → crypto.bcrypt salt password ≡ ok hash
      → crypto.bcrypt_matches hash password ≡ true
  pub parse-sign :
      (secret : Text) (claims : Claims) (now : ℕ) (token : Text)
      → crypto.jwt_sign secret claims ≡ ok token
      → now / 1000000000 < claims.exp
      → crypto.jwt_parse secret now token
        ≡ ok (record { has_claims = true; is_valid = true; user_id = some claims.user_id })

-- A time in nanoseconds. time.Duration values of the handlers
abbrev pub ten_minutes : ℕ
ten_minutes = 600000000000

abbrev pub one_day : ℕ
one_day = 86400000000000

-- GenerateCode, at a time in nanoseconds
unfoldable pub generate_code : ℕ → Text
generate_code now = pad_decimal 6 (now % 1000000)

abbrev hex_digit : ℕ → ℕ
hex_digit n = if ltb n 10 then b'0' + n else b'a' + (n - 10)

-- %x of a list of bytes
unfoldable pub hex : List ℕ → Text
hex [] = []
hex (b ∷ bytes) = hex_digit (b / 16 % 16) ∷ hex_digit (b % 16) ∷ hex bytes

-- GenerateResourceUID, of eight random bytes
unfoldable pub generate_resource_uid : List ℕ → Text
unfolding hex
generate_resource_uid bytes = hex bytes

module _ (crypto : Crypto) where
  -- HashPassword, CheckPassword
  abbrev pub hash_password : ℕ → Text → Result Text
  hash_password salt password = crypto.bcrypt salt password

  abbrev pub check_password : Text → Text → Bool
  check_password password hash = crypto.bcrypt_matches hash password

  -- GenerateSecretKey, of 24 random bytes
  abbrev pub generate_secret_key : List ℕ → Text
  generate_secret_key bytes = codes "sk_" ++ crypto.base64_raw_url bytes

  -- GenerateToken; an empty token where it fails, as its callers look at no error
  abbrev pub claims_of : ℕ → Text → Text → Claims
  claims_of now user_id email = record {
    user_id = user_id;
    email = email;
    exp = (now + one_day) / 1000000000;
  }

  abbrev pub signed : Result Text → Text
  signed (ok token) = token
  signed (err e) = []

  unfoldable pub generate_token : Text → ℕ → Text → Text → Text
  generate_token secret now user_id email =
      signed (crypto.jwt_sign secret (claims_of now user_id email))

  -- ValidateToken
  abbrev pub user_of : Option Text → Result Text
  user_of none = err (failed (codes "invalid token claims"))
  user_of (some user_id) = ok user_id

  abbrev pub token_user : Result Token → Result Text
  token_user (err e) = err e
  token_user (ok token) =
      if token.has_claims
      then (if token.is_valid then user_of token.user_id else err (failed (codes "invalid token")))
      else err (failed (codes "invalid token"))

  unfoldable pub validate_token : Text → ℕ → Text → Result Text
  validate_token secret now token = token_user (crypto.jwt_parse secret now token)

  -- GenerateHMACSignature
  abbrev pub generate_hmac_signature : Text → Text → Text
  generate_hmac_signature secret_key payload =
      crypto.base64_raw_url (crypto.hmac_sha256 secret_key payload)

  -- VerifyHMACSignature; hmac.Equal compares the bytes.
  unfoldable pub verify_hmac_signature : Text → Text → Text → Result (Unit {0})
  unfolding text_eq
  verify_hmac_signature secret_key payload signature =
      if text_eq (generate_hmac_signature secret_key payload) signature
      then ok tt
      else err (failed (codes "invalid signature"))
