-- ===== src/Web/Logins/Identities.antt =====
-- Who is authenticated has an active owner, whom a new session resolves to
-- (packages/kerdoos/src/kerdoos/core/app/auth.py).
use Prim.{absurd}
use kerdoos.Prelude.{
  ℕ, ◌<◌, ◌≡◌, refl, sym, ap, ◌∙◌, String, Bool, true, false, ◌&&◌, Option, none, some, List, [],
  ◌∷◌, is_some, if◌then◌else◌, ◌==◌, arith, eq_refl, eq_of_test,
}
use kerdoos.Auth.Store.{
  Owner, OwnerCredentials, AuthStore, find_owner, credentials_of, or_else,
  lookup_active_credentials, create_session, identity_of, first_identity, session_valid,
  resolve_session, has_email,
}
use kerdoos.Auth.Service.{Crypto, Principal, verified, checked, authenticate}

-- The owner that a test finds is found by its id too, if not another with that id before it.
found_by_id :
    (q : Owner → Bool) (owners : List Owner) (o : Owner)
    → find_owner q owners ≡ some o
    → (r : Owner) × (find_owner (λ x. x.id == o.id) owners ≡ some r) × (r.id ≡ o.id)
unfolding find_owner
found_by_id q [] o e = absurd cc
found_by_id q (x ∷ xs) o e =
    by_tests (q x && x.active) (x.id == o.id && x.active) refl refl e (found_by_id q xs o)
  where
    by_tests :
        (picked same : Bool)
        → (q x && x.active) ≡ picked
        → (x.id == o.id && x.active) ≡ same
        → (if picked then some x else find_owner q xs) ≡ some o
        → (find_owner q xs ≡ some o
            → (r : Owner) × (find_owner (λ y. y.id == o.id) xs ≡ some r) × (r.id ≡ o.id))
        → (r : Owner) × ((if same then some x else find_owner (λ y. y.id == o.id) xs) ≡ some r)
          × (r.id ≡ o.id)
    by_tests picked true p s k ih = (x, refl, eq_of_test x.id o.id (ground (arith, s)))
    by_tests false false p s k ih = ih k
    by_tests true false p s k ih =
        let here : x ≡ o = cc in
        absurd (ground (arith, p, s, ap (λ y. y.id == o.id) here, eq_refl o.id))

credentials_found :
    (identifier : String) (s : AuthStore) (creds : OwnerCredentials)
    → lookup_active_credentials identifier s ≡ some creds
    → (r : Owner) × (find_owner (λ x. x.id == creds.owner_id) s.owners ≡ some r)
      × (r.id ≡ creds.owner_id)
unfolding lookup_active_credentials
credentials_found identifier s creds e =
    by_both (find_owner (λ o. o.name == identifier) s.owners)
      (find_owner (λ o. has_email identifier o.email) s.owners) refl refl e
  where
    of_owner :
        (q : Owner → Bool) (o : Owner)
        → find_owner q s.owners ≡ some o
        → credentials_of o ≡ creds
        → (r : Owner) × (find_owner (λ x. x.id == creds.owner_id) s.owners ≡ some r)
          × (r.id ≡ creds.owner_id)
    of_owner q o p c =
        let f = found_by_id q s.owners o p in
        let id : o.id ≡ creds.owner_id = ap (λ x. x.owner_id) c in
        (f.0, sym (ap (λ i. find_owner (λ x. x.id == i) s.owners) id) ∙ f.1, f.2 ∙ id)

    by_both :
        (a b : Option Owner)
        → find_owner (λ o. o.name == identifier) s.owners ≡ a
        → find_owner (λ o. has_email identifier o.email) s.owners ≡ b
        → or_else a b ≡ some creds
        → (r : Owner) × (find_owner (λ x. x.id == creds.owner_id) s.owners ≡ some r)
          × (r.id ≡ creds.owner_id)
    by_both (some o) b p q k = of_owner (λ x. x.name == identifier) o p cc
    by_both none (some o) p q k = of_owner (λ x. has_email identifier x.email) o q cc
    by_both none none p q k = absurd cc

-- The id of a principal is that of the credentials that were checked.
verified_id :
    (c : Crypto) (password : String) (h : Option String) (creds : OwnerCredentials) (p : Principal)
    → verified c password h creds ≡ some p
    → p.owner_id ≡ creds.owner_id
verified_id c password none creds p e = absurd cc
verified_id c password (some h) creds p e = by_test (c.verify h password) e
  where
    by_test :
        (b : Bool)
        → (if b then some (record { owner_id = creds.owner_id; role = creds.role }) else none)
          ≡ some p
        → p.owner_id ≡ creds.owner_id
    by_test true k = cc
    by_test false k = absurd cc

pub authenticated :
    (c : Crypto) (identifier password : String) (s : AuthStore) (p : Principal)
    → authenticate c identifier password s ≡ some p
    → (r : Owner) × (find_owner (λ x. x.id == p.owner_id) s.owners ≡ some r) × (r.id ≡ p.owner_id)
unfolding authenticate
authenticated c identifier password s p e =
    by_credentials (lookup_active_credentials identifier s) refl e
  where
    by_credentials :
        (o : Option OwnerCredentials)
        → lookup_active_credentials identifier s ≡ o
        → checked c password o ≡ some p
        → (r : Owner) × (find_owner (λ x. x.id == p.owner_id) s.owners ≡ some r)
          × (r.id ≡ p.owner_id)
    by_credentials none q k = absurd cc
    by_credentials (some creds) q k =
        let f = credentials_found identifier s creds q in
        let id = verified_id c password creds.password_hash creds p k in
        (f.0, ap (λ i. find_owner (λ x. x.id == i) s.owners) id ∙ f.1, f.2 ∙ sym id)

-- A session that was just created resolves to its owner until it expires.
pub created_resolves :
    (hash owner : String) (now expires later : ℕ) (s : AuthStore) (r : Owner)
    → later < expires
    → find_owner (λ x. x.id == owner) s.owners ≡ some r
    → resolve_session hash later (create_session hash owner now expires s)
      ≡ some (record { owner_id = r.id; role = r.role })
unfolding resolve_session create_session first_identity
created_resolves hash owner now expires later s r l e =
    ap
      (λ o.
        if session_valid hash later (record {
          session_hash = hash;
          owner_id = owner;
          created_at = now;
          expires_at = expires;
        })
          && is_some (identity_of o)
        then identity_of o
        else first_identity (session_valid hash later) (λ x. x.owner_id) s.owners s.sessions)
      e
    ∙ ground (arith, eq_refl hash, l)
