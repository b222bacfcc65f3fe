-- ===== src/Web/Logins/Sessions.antt =====
-- What a login opens (packages/kerdoos/src/kerdoos/interfaces/web/routers/public.py).
use Prim.{absurd}
use kerdoos.Prelude.{
  ℕ, ◌+◌, ◌<◌, ◌≡◌, ◌≢◌, refl, sym, ap, ◌∙◌, String, Option, none, some, is_some, if◌then◌else◌,
  ◌==◌, arith,
}
use kerdoos.Scrape.Domain.{returned}
use kerdoos.Auth.Store.{
  Owner, AuthStore, ResolvedIdentity, find_owner, reserve_login_attempt, record_login_success,
  create_session, resolve_session,
}
use kerdoos.Auth.Service.{
  Crypto, Principal, authenticate, check_and_authenticate, create_session_for, principal_of,
  verify_session,
}
use kerdoos.Web.Cookies.{issue, read}
use kerdoos.Web.Cookies.Signed.{HasNoPoint, read-issue}
use kerdoos.Web.Guards.{require_session, or_unauthorized, session_principal}
use kerdoos.Web.Logins.{logged_in, welcomed, answered, login}
use kerdoos.Web.Logins.Identities.{authenticated, created_resolves}

module _ (hmac : String → String) (c : Crypto) where
  -- The session of a cookie that was issued for it.
  opens :
      (session_id : String) (later : ℕ) (s : AuthStore) (i : ResolvedIdentity)
      → read hmac (some (issue hmac session_id)) ≡ some session_id
      → resolve_session (c.token_hash session_id) later s ≡ some i
      → require_session hmac c (some (issue hmac session_id)) later s
        ≡ returned (record { owner_id = i.owner_id; role = i.role })
  unfolding require_session verify_session
  opens session_id later s i e k =
      ap (λ o. or_unauthorized "invalid or expired session" (session_principal hmac c later s o)) e
      ∙ ap (λ o. or_unauthorized "invalid or expired session" (principal_of o)) k

  -- What a login leaves behind: the principal it found is the one of the cookie.
  abbrev pub IsOpen : Principal → String → ℕ → AuthStore → Type 0
  IsOpen p v later s =
      (q : Principal) × (require_session hmac c (some v) later s ≡ returned q)
      × (q.owner_id ≡ p.owner_id)

  created-IsOpen :
      (p : Principal) (secret v : String) (now later : ℕ) (s t : AuthStore) (r : Owner)
      → secret ≢ ""
      → hmac secret ≢ ""
      → HasNoPoint (hmac secret)
      → later < now + c.session_ttl
      → find_owner (λ x. x.id == p.owner_id) s.owners ≡ some r
      → r.id ≡ p.owner_id
      → welcomed hmac c (create_session_for c p secret now s) ≡ (t, logged_in v)
      → IsOpen p v later t
  unfolding create_session_for
  created-IsOpen p secret v now later s t r n k h l f id e =
      let stored : create_session (c.token_hash secret) p.owner_id now (now + c.session_ttl) s ≡ t =
        cc in
      let cookie : issue hmac secret ≡ v = cc in
      let opened =
        opens secret later
          (create_session (c.token_hash secret) p.owner_id now (now + c.session_ttl) s)
          (record { owner_id = r.id; role = r.role }) (read-issue hmac secret n k h)
          (created_resolves (c.token_hash secret) p.owner_id now (now + c.session_ttl) later s r l
            f) in
      (
        record { owner_id = r.id; role = r.role },
        sym (ap (λ x. require_session hmac c (some x) later t) cookie)
            ∙ sym (ap (λ x. require_session hmac c (some (issue hmac secret)) later x) stored)
            ∙ opened,
        id,
      )

  answered-IsOpen :
      (secret v : String) (now later : ℕ) (s t : AuthStore) (o : Option Principal) (w : Option ℕ)
      → secret ≢ ""
      → hmac secret ≢ ""
      → HasNoPoint (hmac secret)
      → later < now + c.session_ttl
      → ((p : Principal)
          → o ≡ some p
          → w ≡ none
          → (r : Owner) × (find_owner (λ x. x.id == p.owner_id) s.owners ≡ some r)
            × (r.id ≡ p.owner_id))
      → answered hmac c secret now (s, o, w) ≡ (t, logged_in v)
      → (p : Principal) × (o ≡ some p) × IsOpen p v later t
  answered-IsOpen secret v now later s t none none n k h l f e = absurd cc
  answered-IsOpen secret v now later s t none (some w) n k h l f e = absurd cc
  answered-IsOpen secret v now later s t (some p) (some w) n k h l f e = absurd cc
  answered-IsOpen secret v now later s t (some p) none n k h l f e =
      let found = f p refl refl in
      (p, refl, created-IsOpen p secret v now later s t found.0 n k h l found.1 found.2 e)

record_login_success-owners :
    (key : String) (s : AuthStore) → (record_login_success key s).owners ≡ s.owners
unfolding record_login_success
record_login_success-owners key s = ground arith

-- `check_and_authenticate` once its attempt is reserved.
abbrev after_reservation :
    Crypto → String → String → AuthStore × Option ℕ → AuthStore × Option Principal × Option ℕ
after_reservation c identifier password r =
    if is_some r.1
    then (r.0, none, r.1)
    else let principal = authenticate c identifier password r.0 in
      (
        if is_some principal then record_login_success (c.normalize identifier) r.0 else r.0,
        principal,
        none,
      )

abbrev HasOwner : Principal → AuthStore → Type 0
HasOwner p s =
    (r : Owner) × (find_owner (λ x. x.id == p.owner_id) s.owners ≡ some r) × (r.id ≡ p.owner_id)

-- The owner of who is authenticated is in the store that is left.
checked_owner :
    (c : Crypto) (identifier password : String) (r : AuthStore × Option ℕ) (p : Principal)
    → (after_reservation c identifier password r).1 ≡ some p
    → HasOwner p (after_reservation c identifier password r).0
checked_owner c identifier password (kept, some wait) p e = absurd cc
checked_owner c identifier password (kept, none) p e =
    by_principal (authenticate c identifier password kept) refl e
  where
    by_principal :
        (o : Option Principal)
        → authenticate c identifier password kept ≡ o
        → o ≡ some p
        → HasOwner p
            (if is_some o then record_login_success (c.normalize identifier) kept else kept)
    by_principal none q k = absurd cc
    by_principal (some x) q k =
        let found = authenticated c identifier password kept p (q ∙ k) in
        (
          found.0,
          ap (find_owner (λ y. y.id == p.owner_id))
                (record_login_success-owners (c.normalize identifier) kept)
              ∙ found.1,
          found.2,
        )

-- A login that succeeds gives a cookie with which, until the session expires, a request to the store
-- that the login leaves comes from the owner whose password was checked. The session id and its
-- signature are not empty, and the signature has no point, as hexadecimal digits have none.
pub login-IsOpen :
    (hmac : String → String) (c : Crypto) (identifier password secret v : String) (now later : ℕ)
    (s t : AuthStore)
    → secret ≢ ""
    → hmac secret ≢ ""
    → HasNoPoint (hmac secret)
    → later < now + c.session_ttl
    → login hmac c identifier password secret now s ≡ (t, logged_in v)
    → (p : Principal) × ((check_and_authenticate c identifier password now s).1 ≡ some p)
      × IsOpen hmac c p v later t
unfolding login check_and_authenticate
login-IsOpen hmac c identifier password secret v now later s t n k h l e =
    let reserved = reserve_login_attempt (c.normalize identifier) now s in
    let x = after_reservation c identifier password reserved in
    answered-IsOpen hmac c secret v now later x.0 t x.1 x.2 n k h l
      (λ p q w. checked_owner c identifier password reserved p q) e
