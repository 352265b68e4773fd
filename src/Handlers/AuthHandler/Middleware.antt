-- ===== src/Handlers/AuthHandler/Middleware.antt =====
-- AuthMiddleware and SignatureMiddleware of handlers/auth.handler.go.
use storebirth.Base.{
  ℕ, ◌+◌, ◌/◌, ◌≡◌, ◌≢◌, ◌<◌, ◌↔◌, refl, [], ◌∷◌, ◌++◌, Bool, true, false, ◌&&◌, Bool-cases, inl,
  inr, Text, codes, text_eq, text_eq_iff, ◌==◌, length, drop, arith, if◌then◌else◌,
}
use storebirth.Store.{Result, ok, err}
use storebirth.Store.Sql.{World}
use storebirth.Store.Users.{get_user_secret_key}
use storebirth.Credentials.{
  Crypto, IsCrypto, one_day, claims_of, generate_token, validate_token, generate_hmac_signature,
  verify_hmac_signature,
}
use storebirth.Handlers.{Response, error}

-- c.Abort() after an answer, or c.Set("user_id", …) and c.Next()
pub data Verdict : Type 0 where
  aborted : Response → Verdict
  passes : Text → Verdict

abbrev pub abort : ℕ → Text → Verdict
abort status text = aborted (record { status = status; body = error text })

-- strings.HasPrefix
unfoldable pub has_prefix : Text → Text → Bool
has_prefix [] s = true
has_prefix (c ∷ p) [] = false
has_prefix (c ∷ p) (d ∷ s) = c == d && has_prefix p s

abbrev pub bearer : Text
bearer = codes "Bearer "

module _ (crypto : Crypto) where
  abbrev pub token_verdict : Result Text → Verdict
  token_verdict (err e) = abort 401 (codes "invalid token")
  token_verdict (ok user_id) = passes user_id

  -- AuthMiddleware, with the header Authorization
  unfoldable pub auth_middleware : Text → ℕ → Text → Verdict
  unfolding has_prefix validate_token
  auth_middleware jwt_secret now auth =
      if has_prefix bearer auth
      then token_verdict (validate_token crypto jwt_secret now (drop (length bearer) auth))
      else abort 401 (codes "unauthorized")

-- The headers X-Combinator-Signature, X-Combinator-User-ID and X-Combinator-Timestamp
pub record Headers : Type 0 where
  pub signature : Text
  pub user_id : Text
  pub timestamp : Text

module _ (crypto : Crypto) where
  abbrev pub signature_verdict : Text → Result (Unit {0}) → Verdict
  signature_verdict user_id (err e) = abort 401 (codes "invalid signature")
  signature_verdict user_id (ok _) = passes user_id

  abbrev pub body_verdict : Headers → Text → Result Text → Verdict
  body_verdict h key (err e) = abort 400 (codes "failed to read body")
  body_verdict h key (ok body) =
      signature_verdict h.user_id
        (verify_hmac_signature crypto key (body ++ h.timestamp) h.signature)

  abbrev pub key_verdict : Headers → Result Text → Result Text → Verdict
  key_verdict h body (err e) = abort 401 (codes "invalid user")
  key_verdict h body (ok key) = body_verdict h key body

  -- SignatureMiddleware; `body` is what GetRawData returns.
  unfoldable pub signature_middleware :
      {S : Type 0} → Headers → Result Text → World S → Verdict × World S
  unfolding verify_hmac_signature get_user_secret_key text_eq
  signature_middleware h body w =
      if text_eq h.signature []
      then (abort 401 (codes "signature required"), w)
      else if text_eq h.user_id []
      then (abort 401 (codes "user_id required"), w)
      else if text_eq h.timestamp []
      then (abort 401 (codes "timestamp required"), w)
      else (
        key_verdict h body (get_user_secret_key h.user_id w).0,
        (get_user_secret_key h.user_id w).1,
      )

-- A token that GenerateToken makes for a user lets the user through AuthMiddleware until it expires,
-- a day later.
pub auth_middleware-generate_token :
    (crypto : Crypto) (secret : Text) (made now : ℕ) (user_id email token : Text)
    → IsCrypto crypto
    → crypto.jwt_sign secret (claims_of crypto made user_id email) ≡ ok token
    → now / 1000000000 < (made + one_day) / 1000000000
    → auth_middleware crypto secret now (bearer ++ generate_token crypto secret made user_id email)
      ≡ passes user_id
unfolding auth_middleware has_prefix validate_token generate_token
auth_middleware-generate_token crypto secret made now user_id email token law sign early =
    rw (sign, law.parse-sign secret (claims_of crypto made user_id email) now token sign early) refl

-- A key and a body under which the signature is right.
abbrev pub Signs : Crypto → Headers → Result Text → Result Text → Type 0
Signs crypto h key body =
    (k : Text) × (b : Text) × (key ≡ ok k)
    × (body ≡ ok b)
    × (generate_hmac_signature crypto k (b ++ h.timestamp) ≡ h.signature)

-- What SignatureMiddleware asks for: the three headers, a user with a key, a body, and the signature
-- of the body and the timestamp under that key.
abbrev pub IsSigned : Crypto → Headers → Result Text → Result Text → Type 0
IsSigned crypto h key body =
    (h.signature ≢ []) × (h.user_id ≢ []) × (h.timestamp ≢ []) × Signs crypto h key body

module _ (crypto : Crypto) (h : Headers) where
  verified :
      (k b : Text)
      → signature_verdict crypto h.user_id
          (verify_hmac_signature crypto k (b ++ h.timestamp) h.signature)
        ≡ passes h.user_id
      → generate_hmac_signature crypto k (b ++ h.timestamp) ≡ h.signature
  unfolding verify_hmac_signature
  verified k b p =
      elim (Bool-cases
        (text_eq (generate_hmac_signature crypto k (b ++ h.timestamp)) h.signature)) [
          | inl e ↦ (text_eq_iff _ _).0 e
          | inr e ↦
              absurd (
                let q : abort 401 (codes "invalid signature") ≡ passes h.user_id = rw e at p in
                cc q)
        ]

  signature-passes :
      (key body : Result Text)
      → key_verdict crypto h body key ≡ passes h.user_id
      → Signs crypto h key body
  signature-passes (err e) body p = absurd (cc)
  signature-passes (ok k) (err e) p = absurd (cc)
  signature-passes (ok k) (ok b) p = (k, b, refl, refl, verified k b p)

  passes-signature :
      (key body : Result Text)
      → Signs crypto h key body
      → key_verdict crypto h body key ≡ passes h.user_id
  unfolding verify_hmac_signature
  passes-signature key body (k, b, p, q, r) = rw (p, q, (text_eq_iff _ _).1 r) refl

  given_headers :
      {S : Type 0} (body : Result Text) (s : World S)
      → (signature_middleware crypto h body s).0 ≡ passes h.user_id
      → (h.signature ≢ [])
        × (h.user_id ≢ [])
        × (h.timestamp ≢ [])
        × (key_verdict crypto h body (get_user_secret_key h.user_id s).0 ≡ passes h.user_id)
  unfolding signature_middleware
  given_headers body s p = (
    ground (arith, p, text_eq_iff h.signature []),
    ground (arith, p, text_eq_iff h.user_id []),
    ground (arith, p, text_eq_iff h.timestamp []),
    ground (arith, p),
  )

  not_empty : (t : Text) → t ≢ [] → text_eq t [] ≡ false
  not_empty t n = elim (Bool-cases (text_eq t [])) [
    | inl e ↦ absurd (n ((text_eq_iff t []).0 e))
    | inr e ↦ e
  ]

  -- SignatureMiddleware lets a request through as the user of its header, if and only if it has the
  -- three headers, the key of the user is found, the body can be read, and the signature is that of
  -- the body with the timestamp behind it; what the clock says plays no part.
  pub signature_middleware_iff :
      {S : Type 0} (body : Result Text) (s : World S)
      → ((signature_middleware crypto h body s).0 ≡ passes h.user_id)
        ↔ IsSigned crypto h (get_user_secret_key h.user_id s).0 body
  unfolding signature_middleware
  signature_middleware_iff body s = (
    (λ p.
        let (a, b, c, v) = given_headers body s p in
        (a, b, c, signature-passes (get_user_secret_key h.user_id s).0 body v)),
    λ (a, b, c, signs).
        rw (not_empty h.signature a, not_empty h.user_id b, not_empty h.timestamp c)
          (passes-signature (get_user_secret_key h.user_id s).0 body signs),
  )
