-- ===== src/Names/Injective.antt =====
-- Which ids get names of their own: databases (k8s/rdb.go) and workers (k8s/controller/worker.go).
use storebirth.Base.{ℕ, ◌≡◌, ◌≢◌, refl, sym, ◌∙◌, [], ◌∷◌, ◌++◌, Text, arith, All}
use storebirth.Names.{database, worker_name}
use storebirth.Names.Sanitize.{IsWord, sanitize-eq}

-- Two ids of lower case letters, digits and `_` that have one database are one id.
pub database-injective :
    (unicode_lower : ℕ → ℕ) (a b : Text)
    → All IsWord a
    → All IsWord b
    → database unicode_lower a ≡ database unicode_lower b
    → a ≡ b
unfolding database
database-injective f a b ha hb e =
    sym (sanitize-eq f a ha) ∙ (ground (arith, e)) ∙ sanitize-eq f b hb

abbrev pub NoDash : ℕ → Type 0
NoDash c = c ≢ b'-'

dash_not_inside : (a b : Text) → ¬ All NoDash (a ++ (b'-' ∷ b))
dash_not_inside [] b h = h.0 refl
dash_not_inside (x ∷ a) b h = dash_not_inside a b h.1

-- A text splits in one way at its last dash.
split_at_dash :
    (a b c d : Text)
    → All NoDash b
    → All NoDash d
    → a ++ (b'-' ∷ b) ≡ c ++ (b'-' ∷ d)
    → (a ≡ c) × (b ≡ d)
split_at_dash [] b [] d hb hd e = (refl, cc)
split_at_dash [] b (y ∷ c) d hb hd e =
    absurd (dash_not_inside c d (let p : b ≡ c ++ (b'-' ∷ d) = cc in rw p at hb))
split_at_dash (x ∷ a) b [] d hb hd e =
    absurd (dash_not_inside a b (let p : d ≡ a ++ (b'-' ∷ b) = cc in rw p at hd))
split_at_dash (x ∷ a) b (y ∷ c) d hb hd e =
    let ih = split_at_dash a b c d hb hd (cc) in (cc ih.0, ih.1)

-- Two workers that have one resource name are one worker of one owner, whatever the worker ids,
-- if neither owner id has a dash.
pub worker_name-injective :
    (worker_id owner_id worker_id' owner_id' : Text)
    → All NoDash owner_id
    → All NoDash owner_id'
    → worker_name worker_id owner_id ≡ worker_name worker_id' owner_id'
    → (worker_id ≡ worker_id') × (owner_id ≡ owner_id')
unfolding worker_name
worker_name-injective w o w' o' h h' e = split_at_dash w o w' o' h h' (cc)
