-- ===== src/Store/Sql/Keeps.antt =====
-- Rules for what the calls of dblayer keep, wherever one of them fails.
use storebirth.Base.{inl, inr, Option-cases}
use storebirth.Store.{Db, Result}
use storebirth.Store.Sql.{World, exec}

module _ {S A : Type 0} (P : Db → Type 0) where
  pub exec-keeps :
      (f : Db → Result A × Db) (s : World S) → P s.db → P (f s.db).1 → P (exec f s).1.db
  unfolding exec
  exec-keeps f s before after = elim (Option-cases (s.fault s.calls)) [
    | inl e ↦ rw (e, exec) after
    | inr (text, e) ↦ rw (e, exec) before
  ]
