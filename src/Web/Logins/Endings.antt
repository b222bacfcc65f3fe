-- ===== src/Web/Logins/Endings.antt =====
-- What a logout ends (packages/kerdoos/src/kerdoos/interfaces/web/routers/public.py).
use Prim.{absurd}
use kerdoos.Prelude.{
  ℕ, ◌≤◌, ◌≡◌, ◌≢◌, refl, ap, String, Bool, true, false, not, ◌&&◌, Option, none, some, List, [],
  ◌∷◌, keep, is_some, if◌then◌else◌, ◌==◌, arith, split_if,
}
use kerdoos.Scrape.Domain.{returned}
use kerdoos.Auth.Store.{
  Owner, AuthStore, Session, ResolvedIdentity, find_owner, identity_of, first_identity,
  session_valid, resolve_session, delete_session,
}
use kerdoos.Auth.Service.{Crypto, Principal, principal_of, verify_session, revoke_session}
use kerdoos.Web.Cookies.{read}
use kerdoos.Web.Guards.{require_session, or_unauthorized, session_principal}
use kerdoos.Web.Logins.{revoked, ended, logout}

-- A session that is not there or has expired stays so.
still_none :
    (p q : Session → Bool) (owners : List Owner) (rows : List Session)
    → ((r : Session) → q r ≡ true → p r ≡ true)
    → first_identity p (λ r. r.owner_id) owners rows ≡ none
    → first_identity q (λ r. r.owner_id) owners rows ≡ none
unfolding first_identity
still_none p q owners [] f e = refl
still_none p q owners (r ∷ rs) f e =
    by_tests (p r) (q r) (identity_of (find_owner (λ o. o.id == r.owner_id) owners)) (f r) e
      (still_none p q owners rs f)
  where
    by_tests :
        (a b : Bool) (i : Option ResolvedIdentity)
        → (b ≡ true → a ≡ true)
        → (if a && is_some i then i else first_identity p (λ x. x.owner_id) owners rs) ≡ none
        → (first_identity p (λ x. x.owner_id) owners rs ≡ none
            → first_identity q (λ x. x.owner_id) owners rs ≡ none)
        → (if b && is_some i then i else first_identity q (λ x. x.owner_id) owners rs) ≡ none
    by_tests true b (some i) g k ih = absurd cc
    by_tests true true none g k ih = ih k
    by_tests true false i g k ih = ground (arith, k, ih)
    by_tests false true i g k ih = absurd (ground (arith, g refl))
    by_tests false false i g k ih = ih k

-- Without the rows of a hash nothing resolves by it.
deleted_none :
    (hash : String) (later : ℕ) (owners : List Owner) (rows : List Session)
    → first_identity
        (session_valid hash later)
        (λ r. r.owner_id)
        owners
        (keep (λ r. not (r.session_hash == hash)) rows)
      ≡ none
unfolding first_identity keep
deleted_none hash later owners [] = refl
deleted_none hash later owners (r ∷ rs) =
    split_if (λ xs. first_identity (session_valid hash later) (λ x. x.owner_id) owners xs ≡ none)
      (not (r.session_hash == hash)) _ _ (λ e. ground (arith, e, deleted_none hash later owners rs))
      (λ e. deleted_none hash later owners rs)

principal_none : (o : Option ResolvedIdentity) → principal_of o ≡ none → o ≡ none
principal_none none e = refl
principal_none (some i) e = absurd cc

-- In the store that a logout leaves, its cookie opens no session, at that time or later.
pub logout-require_session :
    (hmac : String → String) (c : Crypto) (cookie : Option String) (now later : ℕ) (s : AuthStore)
    (p : Principal)
    → now ≤ later
    → require_session hmac c cookie later (logout hmac c cookie now s) ≢ returned p
unfolding logout require_session verify_session revoke_session delete_session resolve_session
logout-require_session hmac c cookie now later s p l e = by_cookie (read hmac cookie) e
  where
    by_session :
        (session_id : String) (o : Option Principal)
        → verify_session c session_id now s ≡ o
        → or_unauthorized "invalid or expired session"
            (verify_session c session_id later (revoked hmac c session_id s o))
          ≡ returned p
        → ⊥
    by_session session_id none q k =
        let gone =
          still_none (session_valid (c.token_hash session_id) now)
            (session_valid (c.token_hash session_id) later) s.owners s.sessions
            (λ r h. ground (arith, h, l))
            (principal_none
              (first_identity (session_valid (c.token_hash session_id) now) (λ r. r.owner_id)
                s.owners s.sessions)
              q) in
        absurd (cc (ap (λ o. or_unauthorized "invalid or expired session" (principal_of o)) gone))
    by_session session_id (some x) q k =
        let gone = deleted_none (c.token_hash session_id) later s.owners s.sessions in
        absurd (cc (ap (λ o. or_unauthorized "invalid or expired session" (principal_of o)) gone))

    by_cookie :
        (o : Option String)
        → or_unauthorized "invalid or expired session"
            (session_principal hmac c later (ended hmac c now s o) o)
          ≡ returned p
        → ⊥
    by_cookie none k = absurd cc
    by_cookie (some session_id) k = by_session session_id (verify_session c session_id now s) refl k
