-- ===== src/Handlers/Keeps.antt =====
-- Rules for what a handler keeps of the database, one for each way of building a handler.
use storebirth.Base.{Option, none, some, Bool, true, false, if◌then◌else◌}
use storebirth.Store.{Db, Error, Result, ok, err}
use storebirth.Store.Sql.{World, M}
use storebirth.Handlers.{binding_error, HandlerOn, json, proceed, try, bind}

module _ {S : Type 0} (P : Db → Type 0) where
  abbrev pub Keeps : HandlerOn S → Type 0
  Keeps h = (w : World S) → P w.db → P (h w).1.db

  proceed-Keeps :
      {A : Type 0} (r : Result A) (bad : Error → HandlerOn S) (good : A → HandlerOn S)
      → ((e : Error) → Keeps (bad e))
      → ((a : A) → Keeps (good a))
      → Keeps (proceed r bad good)
  proceed-Keeps (ok a) bad good h k = k a
  proceed-Keeps (err e) bad good h k = h e

  pub try-Keeps :
      {A : Type 0} (m : M S A) (bad : Error → HandlerOn S) (good : A → HandlerOn S)
      → ((w : World S) → P w.db → P (m w).1.db)
      → ((e : Error) → Keeps (bad e))
      → ((a : A) → Keeps (good a))
      → Keeps (try m bad good)
  try-Keeps m bad good keep h k w p = proceed-Keeps (m w).0 bad good h k (m w).1 (keep w p)

  pub bind-Keeps :
      {R : Type 0} (request : Option R) (valid : R → Bool) (good : R → HandlerOn S)
      → ((r : R) → Keeps (good r))
      → Keeps (bind request valid good)
  bind-Keeps none valid good h w p = p
  bind-Keeps (some r) valid good h w p = if_kept (valid r)
    where
      if_kept : (b : Bool) → P ((if b then good r else json 400 binding_error) w).1.db
      if_kept true = h r w p
      if_kept false = p
