-- ===== src/Controller/Crd.antt =====
-- EnsureCRD of k8s/controller/crd.go. What the calls of the API answer is an argument.
use storebirth.Base.{
  ℕ, zero, suc, ◌+◌, ◌≤◌, ◌<◌, ◌≡◌, ◌↔◌, ◌⊎◌, refl, ap, ◌∙◌, ◌==◌, List, [], ◌∷◌, ◌++◌, Bool, true,
  false, ◌&&◌, Text, text_eq, codes, if◌then◌else◌, arith, Bool-cases, inl, inr,
}
use storebirth.Store.{Result, ok, err, failed}

-- The conditions of the status of a CRD, each a type and a status.
abbrev pub Conditions : Type 0
Conditions = List (Text × Text)

-- What a Get of the CRD answers.
pub data Got : Type 0 where
  found : Conditions → Got
  not_found : Got
  failing : Text → Got

-- WorkerResource + "." + Group
abbrev pub crd_name : Text
crd_name = codes "workerapps.console.app238.com"

unfoldable pub established : Conditions → Bool
established [] = false
established (c ∷ cs) =
    if text_eq c.0 (codes "Established") && text_eq c.1 (codes "True") then true else established cs

unfoldable pub got_established : Got → Bool
unfolding established
got_established (found conditions) = established conditions
got_established not_found = false
got_established (failing text) = false

-- The loop of thirty seconds; `i` counts the calls of Get.
unfoldable pub wait_established : (ℕ → Got) → ℕ → ℕ → Result (Unit {0})
unfolding got_established
wait_established gets i zero =
    err (failed (codes "CRD " ++ (crd_name ++ codes " not established after 30s")))
wait_established gets i (suc rounds) =
    let later = wait_established gets (suc i) rounds in
    if got_established (gets i) then ok tt else later

abbrev pub crd_created : (ℕ → Got) → Result (Unit {0}) → Result (Unit {0})
crd_created gets (err e) = err e
crd_created gets (ok _) = wait_established gets 1 30

abbrev pub crd_got : (ℕ → Got) → Result (Unit {0}) → Got → Result (Unit {0})
crd_got gets create (found conditions) = ok tt
crd_got gets create not_found = crd_created gets create
crd_got gets create (failing text) =
    err (failed (codes "get CRD " ++ (crd_name ++ (codes ": " ++ text))))

-- `client` is the answer of NewForConfig, `create` that of Create
unfoldable pub ensure_crd : Result (Unit {0}) → (ℕ → Got) → Result (Unit {0}) → Result (Unit {0})
unfolding wait_established
ensure_crd (err e) gets create = err e
ensure_crd (ok _) gets create = crd_got gets create (gets 0)

if_ok :
    (b : Bool) (r : Result (Unit {0})) → (if b then ok tt else r) ≡ ok tt → (b ≡ true) ⊎ (r ≡ ok tt)
if_ok true r e = inl refl
if_ok false r e = inr e

ok_if :
    (b : Bool) (r : Result (Unit {0})) → (b ≡ true) ⊎ (r ≡ ok tt) → (if b then ok tt else r) ≡ ok tt
ok_if true r h = refl
ok_if false r (inl e) = absurd (cc e)
ok_if false r (inr e) = e

-- One of `rounds` calls of Get, from the call `i` on, shows the CRD as established.
abbrev pub ShownBy : (ℕ → Got) → ℕ → ℕ → Type 0
ShownBy gets i rounds = (k : ℕ) × (i ≤ k) × (k < i + rounds) × (got_established (gets k) ≡ true)

wait_established-ShownBy :
    (gets : ℕ → Got) (i rounds : ℕ) → wait_established gets i rounds ≡ ok tt → ShownBy gets i rounds
unfolding wait_established
wait_established-ShownBy gets i zero e = absurd (cc e)
wait_established-ShownBy gets i (suc rounds) e = elim (if_ok (got_established (gets i)) _ e) [
  | inl now ↦ (i, omega arith, omega arith, now)
  | inr later ↦
      let (k, after, before, shown) = wait_established-ShownBy gets (suc i) rounds later in
      (k, omega (arith, after), omega (arith, before), shown)
]

ShownBy-wait_established :
    (gets : ℕ → Got) (i rounds : ℕ) → ShownBy gets i rounds → wait_established gets i rounds ≡ ok tt
unfolding wait_established
ShownBy-wait_established gets i zero (k, after, before, shown) =
    absurd (omega (arith, after, before))
ShownBy-wait_established gets i (suc rounds) (k, after, before, shown) =
    ok_if (got_established (gets i)) _ (elim (Bool-cases (i == k)) [
      | inl same ↦
          let e : i ≡ k = ground (arith, same) in inl (ap (λ j. got_established (gets j)) e ∙ shown)
      | inr other ↦ inr (
          ShownBy-wait_established gets (suc i) rounds
            (k, ground (arith, other, after), omega (arith, before), shown))
    ])

-- When EnsureCRD may return without an error.
abbrev pub CrdReady : Result (Unit {0}) → (ℕ → Got) → Result (Unit {0}) → Type 0
CrdReady client gets create =
    (client ≡ ok tt)
    × (((conditions : Conditions) × (gets 0 ≡ found conditions))
        ⊎ ((gets 0 ≡ not_found) × (create ≡ ok tt) × ShownBy gets 1 30))

got-CrdReady :
    (gets : ℕ → Got) (create : Result (Unit {0})) (g : Got)
    → gets 0 ≡ g
    → crd_got gets create g ≡ ok tt
    → CrdReady (ok tt) gets create
got-CrdReady gets create (found conditions) e h = (refl, inl (conditions, e))
got-CrdReady gets (err x) not_found e h = absurd (cc h)
got-CrdReady gets (ok tt) not_found e h =
    (refl, inr (e, refl, wait_established-ShownBy gets 1 30 h))
got-CrdReady gets create (failing text) e h = absurd (cc h)

CrdReady-got :
    (gets : ℕ → Got) (create : Result (Unit {0})) (g : Got)
    → gets 0 ≡ g
    → CrdReady (ok tt) gets create
    → crd_got gets create g ≡ ok tt
CrdReady-got gets create (found conditions) e h = refl
CrdReady-got gets create not_found e (h, inl (conditions, f)) = absurd (cc (e, f))
CrdReady-got gets create not_found e (h, inr (f, made, shown)) =
    rw made (ShownBy-wait_established gets 1 30 shown)
CrdReady-got gets create (failing text) e (h, inl (conditions, f)) = absurd (cc (e, f))
CrdReady-got gets create (failing text) e (h, inr (f, made, shown)) = absurd (cc (e, f))

-- EnsureCRD returns without an error exactly if there is a client, and the CRD is there already, or
-- is not found, is created, and is shown as established by one of the next thirty calls of Get.
ensure_crd_iff :
    (client : Result (Unit {0})) (gets : ℕ → Got) (create : Result (Unit {0}))
    → (ensure_crd client gets create ≡ ok tt) ↔ CrdReady client gets create
unfolding ensure_crd
ensure_crd_iff (err e) gets create = (λ h. absurd (cc h), λ h. absurd (cc h.0))
ensure_crd_iff (ok tt) gets create =
    (got-CrdReady gets create (gets 0) refl, CrdReady-got gets create (gets 0) refl)
