-- ===== src/Store/Sql/Rows.antt =====
-- Predicates on all rows of a table, under the statements.
use storebirth.Base.{◌≡◌, List, [], ◌∷◌, Bool, true, false, Bool-cases, inl, inr, All}
use storebirth.Store.Sql.{update, delete}

module _ {ℓ κ} {R : Type ℓ} (P Q : R → Type κ) where
  pub All-weaken : (rows : List R) → ((r : R) → P r → Q r) → All P rows → All Q rows
  All-weaken [] f h = tt
  All-weaken (r ∷ rows) f h = (f r h.0, All-weaken rows f h.1)

  pub All-both : (rows : List R) → All P rows → All Q rows → All (λ r. P r × Q r) rows
  All-both [] h k = tt
  All-both (r ∷ rows) h k = ((h.0, k.0), All-both rows h.1 k.1)

  pub All-update :
      (test : R → Bool) (set : R → R) (rows : List R)
      → ((r : R) → P r → test r ≡ true → Q (set r))
      → ((r : R) → P r → test r ≡ false → Q r)
      → All P rows
      → All Q (update test set rows)
  unfolding update
  All-update test set [] f g h = tt
  All-update test set (r ∷ rows) f g h = elim (Bool-cases (test r)) [
    | inl e ↦ rw e (f r h.0 e, All-update test set rows f g h.1)
    | inr e ↦ rw e (g r h.0 e, All-update test set rows f g h.1)
  ]

module _ {ℓ κ} {R : Type ℓ} (P : R → Type κ) where
  pub All-delete : (test : R → Bool) (rows : List R) → All P rows → All P (delete test rows)
  unfolding delete
  All-delete test [] h = tt
  All-delete test (r ∷ rows) h = elim (Bool-cases (test r)) [
    | inl e ↦ rw e (All-delete test rows h.1)
    | inr e ↦ rw e (h.0, All-delete test rows h.1)
  ]
