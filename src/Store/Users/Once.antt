-- ===== src/Store/Users/Once.antt =====
-- A verification code is used once.
use storebirth.Base.{
  ℕ, suc, ◌≡◌, ◌≢◌, List, [], ◌∷◌, true, Option, none, some, Text, ◌==◌, arith, Option-cases, inl,
  inr,
}
use storebirth.Store.{VerificationCode, no_rows, failed, Result, ok, err}
use storebirth.Store.Sql.{World, exec, update, first, continue, pure, row_or}
use storebirth.Store.Users.{is_usable, get_verification_code, mark_code_used}

-- A look-up that does not yield this code.
abbrev pub NotThis : ℕ → Result (ℕ × ℕ) → Type 0
NotThis code_id (ok (id, expires_at)) = id ≢ code_id
NotThis code_id (err e) = Unit

-- The row of a look-up is not the one with this id.
abbrev OtherRow : ℕ → Option VerificationCode → Type 0
OtherRow code_id none = Unit
OtherRow code_id (some c) = c.id ≢ code_id

first-used :
    (email code : Text) (code_id : ℕ) (rows : List VerificationCode)
    → OtherRow code_id (
        first
          (is_usable email code)
          (update (λ (c : VerificationCode). c.id == code_id) (λ c. record c { used = true }) rows))
unfolding first update
first-used email code code_id [] = tt
first-used email code code_id (c ∷ rows) = ground (arith, first-used email code code_id rows)

module _ {S : Type 0} (email code : Text) (code_id : ℕ) where
  read-NotThis :
      (o : Option VerificationCode) (w : World S)
      → OtherRow code_id o
      → NotThis code_id
          (continue (row_or o no_rows) (λ (c : VerificationCode). pure (c.id, c.expires_at)) w).0
  read-NotThis none w h = tt
  read-NotThis (some c) w h = h

  get-NotThis :
      (w : World S)
      → OtherRow code_id (first (is_usable email code) w.db.verification_codes.rows)
      → NotThis code_id (get_verification_code email code w).0
  unfolding get_verification_code
  get-NotThis w h = elim (Option-cases (w.fault w.calls)) [
    | inl e ↦
        rw (e, get_verification_code, exec)
          (read-NotThis (first (is_usable email code) w.db.verification_codes.rows)
            (record w { calls = suc w.calls }) h)
    | inr (text, e) ↦ rw (e, get_verification_code, exec) tt
  ]

  marked-OtherRow :
      (s : World S)
      → (mark_code_used code_id s).0 ≡ ok tt
      → OtherRow code_id
          (first (is_usable email code) (mark_code_used code_id s).1.db.verification_codes.rows)
  unfolding mark_code_used
  marked-OtherRow s h = elim (Option-cases (s.fault s.calls)) [
    | inl e ↦
        rw (e, mark_code_used, exec) (first-used email code code_id s.db.verification_codes.rows)
    | inr (text, e) ↦
        absurd (let p : err (failed text) ≡ ok tt = rw (e, mark_code_used, exec) at h in cc p)
  ]

  -- A code that was marked as used is not found again, by any email and any code.
  pub mark_code_used-once :
      (s : World S)
      → (mark_code_used code_id s).0 ≡ ok tt
      → NotThis code_id (get_verification_code email code (mark_code_used code_id s).1).0
  mark_code_used-once s h = get-NotThis (mark_code_used code_id s).1 (marked-OtherRow s h)
