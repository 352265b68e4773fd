-- ===== src/Store/Sql.antt =====
-- What dblayer does with database/sql: statements over the rows of a table, one call after the
-- other, each of which can fail, and transactions.
pub mod Keeps
pub mod Rows
use storebirth.Base.{
  ℕ, suc, List, [], ◌∷◌, Bool, true, false, Option, none, some, Text, codes, leb, if◌then◌else◌,
}
use storebirth.Store.{Db, Error, not_found, failed, Result, ok, err}

-- The database, and what decides how the calls go: `fault n` is the error of the driver at the
-- n-th call, if it fails. `service` is the state of the other services.
pub record World (S : Type 0) : Type 0 where
  pub db : Db
  pub now : ℕ
  pub calls : ℕ
  pub fault : ℕ → Option Text
  pub service : S

abbrev pub M : Type 0 → Type 0 → Type 0
M S A = World S → Result A × World S

module _ {S A B : Type 0} where
  abbrev pub continue : Result A → (A → M S B) → M S B
  continue (ok a) f w = f a w
  continue (err e) f w = (err e, w)

  -- A call whose error the caller looks at.
  abbrev pub attempt : M S A → (Result A → M S B) → M S B
  attempt m f w = f (m w).0 (m w).1

  -- `if err != nil { return err }` after a call
  infixl 5 ◌>>=◌ ◌>>◌
  abbrev pub ◌>>=◌ : M S A → (A → M S B) → M S B
  ◌>>=◌ m f w = continue (m w).0 f (m w).1

  abbrev pub ◌>>◌ : M S A → M S B → M S B
  m >> k = m >>= λ _. k

module _ {S A : Type 0} where
  abbrev pub pure : A → M S A
  pure a w = (ok a, w)

  abbrev pub raise : Error → M S A
  raise e w = (err e, w)

  -- One call: it fails, or does `f`.
  unfoldable pub exec : (Db → Result A × Db) → M S A
  exec f w = elim (w.fault w.calls) [
    | some text ↦ (err (failed text), record w { calls = suc w.calls })
    | none ↦ ((f w.db).0, record w { calls = suc w.calls; db = (f w.db).1 })
  ]

  -- DB.Begin, the body, and Commit; the deferred Rollback undoes a body that returns early, and a
  -- commit that fails.
  abbrev pub settle : Db → Result A → M S A
  settle before (err e) w = (err e, record w { db = before })
  settle before (ok a) w = elim (w.fault w.calls) [
    | some text ↦ (err (failed text), record w { calls = suc w.calls; db = before })
    | none ↦ (ok a, record w { calls = suc w.calls })
  ]

  unfoldable pub transaction : M S A → M S A
  transaction body w = elim (w.fault w.calls) [
    | some text ↦ (err (failed text), record w { calls = suc w.calls })
    | none ↦ let w' = record w { calls = suc w.calls } in settle w.db (body w').0 (body w').1
  ]

module _ {ℓ} {R : Type ℓ} where
  -- SELECT … WHERE
  unfoldable pub select : (R → Bool) → List R → List R
  select test [] = []
  select test (r ∷ rs) = if test r then r ∷ select test rs else select test rs

  -- UPDATE … SET … WHERE
  unfoldable pub update : (R → Bool) → (R → R) → List R → List R
  update test set [] = []
  update test set (r ∷ rs) = (if test r then set r else r) ∷ update test set rs

  -- DELETE … WHERE
  unfoldable pub delete : (R → Bool) → List R → List R
  delete test [] = []
  delete test (r ∷ rs) = if test r then delete test rs else r ∷ delete test rs

  -- The row that QueryRow reads: the first that there is.
  unfoldable pub first : (R → Bool) → List R → Option R
  first test [] = none
  first test (r ∷ rs) = if test r then some r else first test rs

  unfoldable pub exists : (R → Bool) → List R → Bool
  exists test [] = false
  exists test (r ∷ rs) = if test r then true else exists test rs

  insert_desc : (R → ℕ) → R → List R → List R
  insert_desc key r [] = r ∷ []
  insert_desc key r (s ∷ rs) = if leb (key s) (key r) then r ∷ s ∷ rs else s ∷ insert_desc key r rs

  -- ORDER BY … DESC
  pub order_desc : (R → ℕ) → List R → List R
  unfolding insert_desc
  order_desc key [] = []
  order_desc key (r ∷ rs) = insert_desc key r (order_desc key rs)

abbrev pub row_or {ℓ} : {R : Type ℓ} → Option R → Error → Result R
row_or none e = err e
row_or (some r) e = ok r

-- Exec, and ErrNotFound if it changed no row
abbrev pub affected : Bool → Result (Unit {0})
affected true = ok tt
affected false = err not_found

-- A violated UNIQUE constraint.
abbrev pub duplicate_key : Error
duplicate_key = failed (codes "duplicate key value violates unique constraint")
