-- ===== src/Uid/Owner.antt =====
-- Generated user ids keep the databases and the workers of the users apart.
use storebirth.Base.{ℕ, ◌≡◌, [], ◌∷◌, Text, arith, All}
use storebirth.Names.{database, worker_name}
use storebirth.Names.Sanitize.{IsWord}
use storebirth.Names.Injective.{NoDash, database-injective, worker_name-injective}
use storebirth.Uid.{generate_uid}
use storebirth.Uid.Shape.{IsAlnum, generate_uid-shape}

Alnum-IsWord : (s : Text) → All IsAlnum s → All IsWord s
Alnum-IsWord [] h = tt
Alnum-IsWord (c ∷ s) h = (ground (arith, h.0), Alnum-IsWord s h.1)

Alnum-NoDash : (s : Text) → All IsAlnum s → All NoDash s
Alnum-NoDash [] h = tt
Alnum-NoDash (c ∷ s) h = (ground (arith, h.0), Alnum-NoDash s h.1)

-- The random bytes of one call of `generate_uid`.
pub record Draw : Type 0 where
  pub word : ℕ
  pub b0 : ℕ
  pub b1 : ℕ
  pub b2 : ℕ
  pub b3 : ℕ

abbrev pub uid_of : Text → Draw → Text
uid_of email d = generate_uid email d.word d.b0 d.b1 d.b2 d.b3

module _ (email email' : Text) (d d' : Draw) where
  uid : All IsAlnum (uid_of email d)
  uid = (generate_uid-shape email d.word d.b0 d.b1 d.b2 d.b3).1

  uid' : All IsAlnum (uid_of email' d')
  uid' = (generate_uid-shape email' d'.word d'.b0 d'.b1 d'.b2 d'.b3).1

  -- Two generated ids, of any emails and any random bytes, that have one database are one id.
  pub generate_uid-owns_database :
      (unicode_lower : ℕ → ℕ)
      → database unicode_lower (uid_of email d) ≡ database unicode_lower (uid_of email' d')
      → uid_of email d ≡ uid_of email' d'
  generate_uid-owns_database f = database-injective f _ _ (Alnum-IsWord _ uid) (Alnum-IsWord _ uid')

  -- Two workers of users with generated ids that have one resource name are one worker of one
  -- user, whatever the worker ids.
  pub generate_uid-owns_worker :
      (worker_id worker_id' : Text)
      → worker_name worker_id (uid_of email d) ≡ worker_name worker_id' (uid_of email' d')
      → (worker_id ≡ worker_id') × (uid_of email d ≡ uid_of email' d')
  generate_uid-owns_worker w w' =
      worker_name-injective w _ w' _ (Alnum-NoDash _ uid) (Alnum-NoDash _ uid')
