-- ===== src/Names/Sanitize.antt =====
-- What `sanitize` of k8s/rdb.go does to an id.
use storebirth.Base.{ℕ, ◌≤◌, ◌<◌, ◌≡◌, ◌≢◌, refl, ap, ◌∙◌, ◌⊎◌, [], ◌∷◌, Text, arith, All}
use storebirth.Names.{sanitize}

-- No `-`, no `.` and no capital letter of ASCII.
abbrev pub IsClean : ℕ → Type 0
IsClean c = (c ≢ b'-') × (c ≢ b'.') × ((c < b'A') ⊎ (b'Z' < c))

-- The lower case letters that Unicode has beyond ASCII do not map to such characters.
abbrev pub IsLowering : (ℕ → ℕ) → Type 0
IsLowering f = (c : ℕ) → 128 ≤ c → IsClean (f c)

-- The characters of generated ids: lower case letters, digits and `_`.
abbrev pub IsWord : ℕ → Type 0
IsWord c = ((b'a' ≤ c) × (c ≤ b'z')) ⊎ (((b'0' ≤ c) × (c ≤ b'9')) ⊎ (c ≡ b'_'))

module _ (unicode_lower : ℕ → ℕ) where
  -- Whatever the id, its sanitized form has no `-`, no `.` and no ASCII capital, if the Unicode
  -- table maps to none of these.
  pub sanitize-IsClean :
      (s : Text) → IsLowering unicode_lower → All IsClean (sanitize unicode_lower s)
  unfolding sanitize
  sanitize-IsClean [] h = tt
  sanitize-IsClean (c ∷ s) h = (ground (arith, h c), sanitize-IsClean s h)

  sanitize_word :
      (c : ℕ) (s : Text) → IsWord c → sanitize unicode_lower (c ∷ s) ≡ c ∷ sanitize unicode_lower s
  unfolding sanitize
  sanitize_word c s h = ground arith

  -- An id of lower case letters, digits and `_` is its own sanitized form.
  pub sanitize-eq : (s : Text) → All IsWord s → sanitize unicode_lower s ≡ s
  sanitize-eq [] h = unfold sanitize in refl
  sanitize-eq (c ∷ s) h = sanitize_word c s h.0 ∙ ap (λ t. c ∷ t) (sanitize-eq s h.1)
