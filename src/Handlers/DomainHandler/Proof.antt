-- ===== src/Handlers/DomainHandler/Proof.antt =====
-- What the status of a custom domain stands for: a state with the rows, the goroutines of
-- StartVerification and the look-ups so far, and how each kind of change keeps it sound.
use storebirth.Base.{
  ℕ, zero, suc, ◌<◌, ◌≡◌, ◌≢◌, sym, subst, ◌∙◌, List, [], ◌∷◌, ◌++◌, Bool, true, false, Option,
  none, some, Text, text_eq, text_eq_iff, ◌||◌, All, All-append, arith,
}
use storebirth.Store.{CustomDomain, DomainStatus}
use storebirth.Store.Sql.{update, delete, exists}
use storebirth.Store.Sql.Rows.{All-weaken, All-both, All-update, All-delete}
use storebirth.Store.Domains.{has_cdid}
use storebirth.Domains.{lists, nth, put_rounds}

pub record Seen : Type 0 where
  pub rows : List CustomDomain
  pub verifying : List (CustomDomain × ℕ)
  pub dns_calls : ℕ
  pub dns : ℕ → Text → Option (List Text)

-- A look-up showed the value that the domain was given.
abbrev pub Proved : Seen → CustomDomain → Type 0
Proved s r = (n : ℕ) × (n < s.dns_calls) × (lists r.txt_value (s.dns n r.txt_name) ≡ true)

abbrev pub RowOk : Seen → CustomDomain → Type 0
RowOk s r = r.status ≡ DomainStatus.success → Proved s r

-- The record of a goroutine has the texts of the row of its id.
abbrev pub SameTxt : CustomDomain → CustomDomain → Type 0
SameTxt cd r = r.cdid ≡ cd.cdid → (r.txt_name ≡ cd.txt_name) × (r.txt_value ≡ cd.txt_value)

abbrev pub Linked : List CustomDomain → CustomDomain × ℕ → Type 0
Linked rows g = All (SameTxt g.0) rows

abbrev pub IsProved : Seen → Type 0
IsProved s = All (RowOk s) s.rows × All (Linked s.rows) s.verifying

abbrev pub with_status : Text → DomainStatus → List CustomDomain → List CustomDomain
with_status cdid st = update (has_cdid cdid) (λ r. record r { status = st })

abbrev pub looked_up : Seen → Seen
looked_up s = record s { dns_calls = suc s.dns_calls }

looked_up-RowOk : (s : Seen) (r : CustomDomain) → RowOk s r → RowOk (looked_up s) r
looked_up-RowOk s r h e = let (n, below, shown) = h e in (n, omega (arith, below), shown)

pub looked_up-IsProved : (s : Seen) → IsProved s → IsProved (looked_up s)
looked_up-IsProved s (rows, links) =
    (All-weaken (RowOk s) (RowOk (looked_up s)) s.rows (looked_up-RowOk s) rows, links)

with_status-Linked :
    (cdid : Text) (st : DomainStatus) (rows : List CustomDomain) (g : CustomDomain × ℕ)
    → Linked rows g
    → Linked (with_status cdid st rows) g
with_status-Linked cdid st rows g h =
    All-update (SameTxt g.0) (SameTxt g.0) (has_cdid cdid) _ rows (λ r k e. k) (λ r k e. k) h

with_status-links :
    (cdid : Text) (st : DomainStatus) (s : Seen)
    → All (Linked s.rows) s.verifying
    → All (Linked (with_status cdid st s.rows)) s.verifying
with_status-links cdid st s h =
    All-weaken (Linked s.rows) (Linked (with_status cdid st s.rows)) s.verifying
      (λ g. with_status-Linked cdid st s.rows g) h

-- The status error asks for nothing.
pub demoted-IsProved :
    (cdid : Text) (s : Seen)
    → IsProved s
    → IsProved (record s { rows = with_status cdid DomainStatus.error s.rows })
demoted-IsProved cdid s (rows, links) = (
  All-update (RowOk s) (RowOk s) (has_cdid cdid) _ s.rows (λ r k e p. absurd (cc)) (λ r k e. k)
      rows,
  with_status-links cdid DomainStatus.error s links,
)

-- A goroutine that has seen its value may set the status of its row.
pub promoted-IsProved :
    (cd : CustomDomain) (k : ℕ) (s : Seen)
    → Proved s cd
    → Linked s.rows (cd, k)
    → IsProved s
    → IsProved (record s { rows = with_status cd.cdid DomainStatus.success s.rows })
promoted-IsProved cd k s (n, below, shown) link (rows, links) = (
  All-update (λ r. RowOk s r × SameTxt cd r) (RowOk s) (has_cdid cd.cdid) _ s.rows
      (λ r h e p.
        let same = h.1 ((text_eq_iff r.cdid cd.cdid).0 e) in (n, below, rw (same.0, same.1) shown))
      (λ r h e. h.0) (All-both (RowOk s) (SameTxt cd) s.rows rows link),
  with_status-links cd.cdid DomainStatus.success s links,
)

pub deleted-IsProved :
    (cdid : Text) (s : Seen)
    → IsProved s
    → IsProved (record s { rows = delete (has_cdid cdid) s.rows })
deleted-IsProved cdid s (rows, links) = (
  All-delete (RowOk s) (has_cdid cdid) s.rows rows,
  All-weaken (Linked s.rows) (Linked (delete (has_cdid cdid) s.rows)) s.verifying
      (λ g. All-delete (SameTxt g.0) (has_cdid cdid) s.rows) links,
)

-- An id that no goroutine works for.
abbrev pub IsFresh : Text → List (CustomDomain × ℕ) → Type 0
IsFresh cdid gs = All (λ (g : CustomDomain × ℕ). cdid ≢ g.0.cdid) gs

-- No row has the id or the domain.
abbrev pub taken : CustomDomain → List CustomDomain → Bool
taken cd rows =
    exists (λ (r : CustomDomain). text_eq r.cdid cd.cdid || text_eq r.domain cd.domain) rows

not_taken :
    (cd : CustomDomain) (rows : List CustomDomain)
    → taken cd rows ≡ false
    → All (λ (r : CustomDomain). r.cdid ≢ cd.cdid) rows
unfolding exists
not_taken cd [] h = tt
not_taken cd (r ∷ rows) h =
    (ground (arith, h, text_eq_iff r.cdid cd.cdid), not_taken cd rows (ground (arith, h)))

-- A new row that is pending, and its goroutine.
pub added-IsProved :
    (cd row : CustomDomain) (k : ℕ) (s : Seen)
    → row.cdid ≡ cd.cdid
    → row.txt_name ≡ cd.txt_name
    → row.txt_value ≡ cd.txt_value
    → row.status ≡ DomainStatus.pending
    → IsFresh cd.cdid s.verifying
    → taken cd s.rows ≡ false
    → IsProved s
    → IsProved (record s { rows = s.rows ++ row ∷ []; verifying = s.verifying ++ (cd, k) ∷ [] })
added-IsProved cd row k s same name value status fresh free (rows, links) = (
  All-append (RowOk s) s.rows (row ∷ []) rows (
    (λ e. absurd (let p : DomainStatus.pending ≡ DomainStatus.success = sym status ∙ e in cc p)),
    tt,
  ),
  All-append (Linked (s.rows ++ row ∷ [])) s.verifying ((cd, k) ∷ [])
      (All-weaken (λ (g : CustomDomain × ℕ). Linked s.rows g × (cd.cdid ≢ g.0.cdid))
        (Linked (s.rows ++ row ∷ [])) s.verifying
        (λ g h.
          All-append (SameTxt g.0) s.rows (row ∷ []) h.0 ((λ e. absurd (h.1 (sym same ∙ e))), tt))
        (All-both (Linked s.rows) (λ (g : CustomDomain × ℕ). cd.cdid ≢ g.0.cdid) s.verifying links
          fresh))
      (
        All-append (SameTxt cd) s.rows (row ∷ [])
            (All-weaken (λ (r : CustomDomain). r.cdid ≢ cd.cdid) (SameTxt cd) s.rows
              (λ r n e. absurd (n e)) (not_taken cd s.rows free))
            ((λ e. (name, value)), tt),
        tt,
      ),
)

pub nth-All :
    (P : CustomDomain × ℕ → Type 0) (i : ℕ) (gs : List (CustomDomain × ℕ)) (g : CustomDomain × ℕ)
    → All P gs
    → nth i gs ≡ some g
    → P g
nth-All P i [] g h e = absurd (cc)
nth-All P zero (x ∷ gs) g h e = let p : x ≡ g = cc in subst P p h.0
nth-All P (suc i) (x ∷ gs) g h e = nth-All P i gs g h.1 e

-- A goroutine that goes on, or ends, keeps its record.
pub put_rounds-Linked :
    (rows : List CustomDomain) (i : ℕ) (o : Option ℕ) (gs : List (CustomDomain × ℕ))
    → All (Linked rows) gs
    → All (Linked rows) (put_rounds i o gs)
put_rounds-Linked rows i o [] h = tt
put_rounds-Linked rows zero none (g ∷ gs) h = h.1
put_rounds-Linked rows zero (some left) ((cd, k) ∷ gs) h = h
put_rounds-Linked rows (suc i) o (g ∷ gs) h = (h.0, put_rounds-Linked rows i o gs h.1)
