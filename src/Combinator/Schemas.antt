-- ===== src/Combinator/Schemas.antt =====
-- ListSchemas of k8s/rdb.go.
use storebirth.Base.{
  ◌≡◌, refl, List, [], ◌∷◌, Bool, true, false, ◌&&◌, ◌==◌, Text, text_eq, text_eq_iff, codes,
  if◌then◌else◌, arith, ℕ, Bool-cases, inl, inr,
}
use storebirth.Names.{database, schema_name, sanitize}
use storebirth.Store.Sql.{M, ◌>>◌}
use storebirth.Rdb.{contains}
use storebirth.Combinator.{Fleet, try_get_user_db, user_exec, has_schema, schema_of}

-- LIKE 'schema_%', where `_` is any character
unfoldable pub like_schema : Text → Bool
like_schema (c0 ∷ c1 ∷ c2 ∷ c3 ∷ c4 ∷ c5 ∷ c6 ∷ rest) =
    text_eq (c0 ∷ c1 ∷ c2 ∷ c3 ∷ c4 ∷ c5 ∷ []) (codes "schema")
like_schema _ = false

-- strings.TrimPrefix
unfoldable pub trim_prefix : Text → Text → Text → Text
trim_prefix whole [] rest = rest
trim_prefix whole (p ∷ ps) [] = whole
trim_prefix whole (p ∷ ps) (c ∷ cs) =
    let rest = trim_prefix whole ps cs in if c == p then rest else whole

-- The schemas of a database whose names match, without their prefix.
unfoldable pub schema_ids : Text → List (Text × Text) → List Text
unfolding like_schema trim_prefix
schema_ids db [] = []
schema_ids db (s ∷ schemas) =
    let rest = schema_ids db schemas in
    if text_eq s.0 db && like_schema s.1 then trim_prefix s.1 (codes "schema_") s.1 ∷ rest else rest

module _ (unicode_lower : ℕ → ℕ) where
  -- ListSchemas
  unfoldable pub list_schemas : Text → M Fleet (List Text)
  unfolding user_exec schema_ids
  list_schemas uid = do
    try_get_user_db uid
    user_exec λ f. (schema_ids (database unicode_lower uid) f.schemas, f)

  named-listed :
      (id t : Text)
      → t ≡ schema_name unicode_lower id
      → (like_schema t ≡ true) × (trim_prefix t (codes "schema_") t ≡ sanitize unicode_lower id)
  unfolding like_schema trim_prefix schema_name text_eq
  named-listed id t e = rw e (refl, refl)

  -- The schema of a resource is listed by the sanitized id of the resource.
  contains-schema_ids :
      (uid id : Text) (schemas : List (Text × Text))
      → has_schema (schema_of unicode_lower uid id) schemas ≡ true
      → contains (sanitize unicode_lower id) (schema_ids (database unicode_lower uid) schemas)
        ≡ true
  unfolding schema_ids
  contains-schema_ids uid id [] h = absurd (cc h)
  contains-schema_ids uid id (s ∷ schemas) h =
      elim (Bool-cases (text_eq s.1 (schema_name unicode_lower id))) [
        | inl e ↦
            let (like, trimmed) =
              named-listed id s.1 ((text_eq_iff s.1 (schema_name unicode_lower id)).0 e) in
            ground (
              arith,
              h,
              e,
              like,
              trimmed,
              contains-schema_ids uid id schemas,
              text_eq_iff (sanitize unicode_lower id) (sanitize unicode_lower id),
            )
        | inr e ↦ ground (arith, h, e, contains-schema_ids uid id schemas)
      ]
