-- ===== src/Auth/Service.antt =====
-- packages/kerdoos/src/kerdoos/core/app/auth.py: AuthService over the store. The password hasher, sha256
-- and the check of an email's form are parameters; minted secrets and the clock's time are arguments.
pub mod Revocation
use kerdoos.Prelude.{
  ℕ, ◌+◌, ◌≡◌, String, Bool, true, false, not, ◌&&◌, ◌||◌, Option, none, some, List, is_some,
  if◌then◌else◌, ◌==◌,
}
use kerdoos.Auth.Store.{
  AuthStore, OwnerCredentials, ResolvedIdentity, TokenInfo, lookup_active_credentials,
  reserve_login_attempt, record_login_success, create_session, resolve_session, delete_session,
  delete_owner_sessions, create_token, resolve_token, revoke_token, revoke_owner_tokens, get_email,
  set_email, list_tokens,
}

pub record Principal : Type 0 where
  pub owner_id : String
  pub role : String

-- What the service is given.
pub record Crypto : Type 0 where
  pub verify : String → String → Bool
  pub token_hash : String → String
  pub normalize : String → String
  pub email_valid : String → Bool
  pub session_ttl : ℕ
  pub token_ttl : ℕ

pub record IssuedToken : Type 0 where
  pub token_id : String
  pub token : String

abbrev pub verified : Crypto → String → Option String → OwnerCredentials → Option Principal
verified c password none creds = none
verified c password (some hash) creds =
    if c.verify hash password
    then some (record { owner_id = creds.owner_id; role = creds.role })
    else none

abbrev pub checked : Crypto → String → Option OwnerCredentials → Option Principal
checked c password none = none
checked c password (some creds) = verified c password creds.password_hash creds

unfoldable pub authenticate : Crypto → String → String → AuthStore → Option Principal
authenticate c identifier password s = checked c password (lookup_active_credentials identifier s)

unfoldable pub check_and_authenticate :
    Crypto → String → String → ℕ → AuthStore → AuthStore × Option Principal × Option ℕ
check_and_authenticate c identifier password now s =
    let key = c.normalize identifier in
    let reserved = reserve_login_attempt key now s in
    if is_some reserved.1
    then (reserved.0, none, reserved.1)
    else let principal = authenticate c identifier password reserved.0 in
      (
        if is_some principal then record_login_success key reserved.0 else reserved.0,
        principal,
        none,
      )

unfoldable pub create_session_for : Crypto → Principal → String → ℕ → AuthStore → AuthStore × String
create_session_for c p secret now s =
    (create_session (c.token_hash secret) p.owner_id now (now + c.session_ttl) s, secret)

abbrev pub principal_of : Option ResolvedIdentity → Option Principal
principal_of none = none
principal_of (some i) = some (record { owner_id = i.owner_id; role = i.role })

unfoldable pub verify_session : Crypto → String → ℕ → AuthStore → Option Principal
verify_session c session_id now s = principal_of (resolve_session (c.token_hash session_id) now s)

unfoldable pub revoke_session : Crypto → Principal → String → AuthStore → AuthStore
revoke_session c p session_id s = delete_session (c.token_hash session_id) s

unfoldable pub create_token_for :
    Crypto → Principal → String → String → ℕ → AuthStore → AuthStore × IssuedToken
create_token_for c p secret id now s = (
  create_token (c.token_hash secret) id p.owner_id now (now + c.token_ttl) s,
  record { token_id = id; token = secret },
)

unfoldable pub verify_bearer : Crypto → String → ℕ → AuthStore → Option Principal
verify_bearer c token now s = principal_of (resolve_token (c.token_hash token) now s)

unfoldable pub revoke_own_token : Principal → String → AuthStore → AuthStore
revoke_own_token p id s = revoke_token p.owner_id id s

-- `false` stands for PermissionError.
unfoldable pub revoke_all : Principal → String → AuthStore → AuthStore × Bool
revoke_all p target s =
    if not (target == p.owner_id) && not (p.role == "admin")
    then (s, false)
    else (revoke_owner_tokens target (delete_owner_sessions target s), true)

unfoldable pub get_own_email : Principal → AuthStore → Option String
get_own_email p s = get_email p.owner_id s.owners

pub data EmailOutcome : Type 0 where
  email_set email_malformed email_taken : EmailOutcome

abbrev email_outcome : AuthStore × Bool → AuthStore × EmailOutcome
email_outcome (s, true) = (s, email_set)
email_outcome (s, false) = (s, email_taken)

abbrev is_malformed : Crypto → Option String → Bool
is_malformed c none = false
is_malformed c (some e) = not (c.email_valid e)

unfoldable pub set_own_email :
    Crypto → Principal → Option String → AuthStore → AuthStore × EmailOutcome
set_own_email c p email s =
    if is_malformed c email
    then (s, email_malformed)
    else email_outcome (set_email p.owner_id email s)

unfoldable pub list_own_tokens : Principal → ℕ → AuthStore → List TokenInfo
list_own_tokens p now s = list_tokens p.owner_id now s
