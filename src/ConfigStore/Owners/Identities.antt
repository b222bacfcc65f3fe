-- ===== src/ConfigStore/Owners/Identities.antt =====
-- Who an owner is, under ensure_owner of packages/kerdoos/src/kerdoos/registry/sqlite_store.py.
use Prim.{tt, absurd}
use kerdoos.Prelude.{
  ◌⊎◌, inl, inr, ◌≡◌, refl, sym, ap, ◌∙◌, String, Bool, true, false, Option, none, some, List, [],
  ◌∷◌, ◌==◌, some_in, if◌then◌else◌, arith, eq_iff, eq_refl, eq_of_test,
}
use kerdoos.Prelude.Rows.{Unique}
use kerdoos.Scrape.Domain.{Outcome, returned, raised}
use kerdoos.Auth.Store.{Owner}
use kerdoos.ConfigStore.Operations.{config_error}
use kerdoos.ConfigStore.Owners.{
  Identity, same_email, clashes, new_owner, rewrite, rewrite_rows, ensure_owner, get_owner_role,
  is_alike,
}

not_alike :
    (i : Identity) (os : List Owner)
    → some_in (clashes i) os ≡ false
    → some_in (λ o. o.id == i.id) os ≡ false
    → some_in (is_alike (new_owner i)) os ≡ false
unfolding some_in
not_alike i [] h k = refl
not_alike i (o ∷ os) h k = ground (arith, h, k, not_alike i os)

same_email_sym : (a b : Option String) → same_email a b ≡ same_email b a
same_email_sym none none = refl
same_email_sym none (some f) = refl
same_email_sym (some e) none = refl
same_email_sym (some e) (some f) = ground (arith, eq_iff e f, eq_iff f e)

rows_kept :
    (i : Identity) (os : List Owner)
    → some_in (λ o. o.id == i.id) os ≡ false
    → rewrite_rows i os ≡ os
unfolding some_in rewrite_rows
rows_kept i [] h = refl
rows_kept i (o ∷ os) h = ground (arith, h, rows_kept i os)

unlike_row :
    (i : Identity) (r o : Owner) (b : Bool)
    → (o.id == i.id) ≡ b
    → (r.id == i.id) ≡ false
    → clashes i r ≡ false
    → is_alike r o ≡ false
    → is_alike r (if b then rewrite i o else o) ≡ false
unlike_row i r o false k e c h = h
unlike_row i r o true k e c h = ground (
  arith,
  e,
  c,
  same_email_sym r.email i.email,
  eq_iff o.id i.id,
  eq_iff o.id r.id,
  eq_iff r.id i.id,
  eq_iff i.name r.name,
  eq_iff r.name i.name,
)

other_row :
    (i : Identity) (r : Owner) (os : List Owner)
    → (r.id == i.id) ≡ false
    → clashes i r ≡ false
    → some_in (is_alike r) os ≡ false
    → some_in (is_alike r) (rewrite_rows i os) ≡ false
unfolding some_in rewrite_rows
other_row i r [] e c h = refl
other_row i r (o ∷ os) e c h = ground (
  arith,
  unlike_row i r o (o.id == i.id) refl e c (ground (arith, h)),
  other_row i r os e c (ground (arith, h)),
)

no_id :
    (r : Owner) (os : List Owner)
    → some_in (is_alike r) os ≡ false
    → some_in (λ o. o.id == r.id) os ≡ false
unfolding some_in
no_id r [] h = refl
no_id r (o ∷ os) h = ground (arith, h, no_id r os)

-- The rewritten row of the owner, against the rows after it.
own_row :
    (i : Identity) (r : Owner) (os : List Owner)
    → (r.id == i.id) ≡ true
    → some_in (clashes i) os ≡ false
    → some_in (λ o. o.id == i.id) os ≡ false
    → some_in (is_alike (rewrite i r)) os ≡ false
unfolding some_in
own_row i r [] e c k = refl
own_row i r (o ∷ os) e c k =
    ground (arith, c, k, eq_iff r.id i.id, eq_iff o.id i.id, eq_iff o.id r.id, own_row i r os)

Unique-rewrite_rows :
    (i : Identity) (os : List Owner)
    → some_in (clashes i) os ≡ false
    → Unique is_alike os
    → Unique is_alike (rewrite_rows i os)
unfolding rewrite_rows some_in
Unique-rewrite_rows i [] c u = tt
Unique-rewrite_rows i (r ∷ rs) c u =
    (head_by (r.id == i.id) refl, Unique-rewrite_rows i rs (ground (arith, c)) u.1)
  where
    head_by :
        (b : Bool)
        → (r.id == i.id) ≡ b
        → some_in (is_alike (if b then rewrite i r else r)) (rewrite_rows i rs) ≡ false
    head_by true e =
        let gone : some_in (λ o. o.id == i.id) rs ≡ false =
          ap (λ x. some_in (λ o. o.id == x) rs) (sym (eq_of_test r.id i.id e)) ∙ no_id r rs u.0 in
        ap (some_in (is_alike (rewrite i r))) (rows_kept i rs gone)
        ∙ own_row i r rs e (ground (arith, c)) gone
    head_by false e = other_row i r rs e (ground (arith, c)) u.0

role_by :
    (i : Identity) (r : Owner) (os : List Owner) (b : Bool)
    → (r.id == i.id) ≡ b
    → (b ≡ false → get_owner_role i.id (rewrite_rows i os) ≡ some i.role)
    → get_owner_role i.id ((if b then rewrite i r else r) ∷ rewrite_rows i os) ≡ some i.role
unfolding get_owner_role
role_by i r os true e next =
    ap (λ b. if b then some i.role else get_owner_role i.id (rewrite_rows i os)) e
role_by i r os false e next =
    ap (λ b. if b then some r.role else get_owner_role i.id (rewrite_rows i os)) e ∙ next refl

get_owner_role-rewrite_rows :
    (i : Identity) (os : List Owner)
    → some_in (λ o. o.id == i.id) os ≡ true
    → get_owner_role i.id (rewrite_rows i os) ≡ some i.role
unfolding rewrite_rows some_in
get_owner_role-rewrite_rows i [] h = absurd (ground (arith, h))
get_owner_role-rewrite_rows i (r ∷ rs) h =
    role_by i r rs (r.id == i.id) refl
      (λ f. get_owner_role-rewrite_rows i rs (ground (arith, h, f)))

get_owner_role-new_owner :
    (i : Identity) (os : List Owner) → get_owner_role i.id (new_owner i ∷ os) ≡ some i.role
unfolding get_owner_role
get_owner_role-new_owner i os = ground (arith, eq_refl i.id)

-- The answer of a call: the error of a clash, with nothing changed, or the owner with its role.
abbrev pub Ensures : Identity → List Owner → List Owner × Outcome String → Type 0
Ensures i owners result =
    ((some_in (clashes i) owners ≡ true) × (result ≡ (owners, raised (config_error i.name))))
    ⊎ ((result.1 ≡ returned i.id) × (get_owner_role i.id result.0 ≡ some i.role))

-- However an owner is created or changed, no two owners have an id, a name or an email in common. The
-- call answers, and the owner is there with the role that was given, unless another owner has the
-- name or the email: then it raises and changes nothing.
pub ensure_owner-Ensures :
    (i : Identity) (owners : List Owner)
    → Unique is_alike owners
    → Unique is_alike (ensure_owner i owners).0 × Ensures i owners (ensure_owner i owners)
unfolding ensure_owner
ensure_owner-Ensures i owners u =
    ensured (some_in (clashes i) owners) (some_in (λ o. o.id == i.id) owners) refl refl
  where
    ensured :
        (a b : Bool)
        → some_in (clashes i) owners ≡ a
        → some_in (λ o. o.id == i.id) owners ≡ b
        → (let result : List Owner × Outcome String =
              if a
              then (owners, raised (config_error i.name))
              else (if b then rewrite_rows i owners else new_owner i ∷ owners, returned i.id) in
            Unique is_alike result.0 × Ensures i owners result)
    ensured true b e f = (u, inl (e, refl))
    ensured false true e f =
        (Unique-rewrite_rows i owners e u, inr (refl, get_owner_role-rewrite_rows i owners f))
    ensured false false e f =
        ((not_alike i owners e f, u), inr (refl, get_owner_role-new_owner i owners))
