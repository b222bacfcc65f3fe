-- ===== src/Auth/Store.antt =====
-- packages/kerdoos/src/kerdoos/registry/auth_store.py: the tables of config.db that hold owners, login
-- attempts, sessions and tokens, and each method as a function of them. A stamp is a number: the
-- stored ISO texts compare as their times do. A method is one step: the two
-- connections that reserve_login_attempt opens are not interleaved with other requests.
pub mod RateLimit
use Prim.Native.Nat.{◌-◌}
use kerdoos.Prelude.{
  ℕ, zero, suc, ◌+◌, ◌≡◌, String, Bool, true, false, not, ◌&&◌, ◌||◌, Option, none, some, List, [],
  ◌∷◌, leb, ltb, length, keep, some_in, is_some, if◌then◌else◌, ◌==◌, map,
}
use kerdoos.Prelude.Dict.{get, put}

pub record Owner : Type 0 where
  pub id : String
  pub name : String
  pub email : Option String
  pub role : String
  pub active : Bool
  pub password_hash : Option String

pub record OwnerCredentials : Type 0 where
  pub owner_id : String
  pub role : String
  pub password_hash : Option String

pub record ResolvedIdentity : Type 0 where
  pub owner_id : String
  pub role : String

pub record Session : Type 0 where
  pub session_hash : String
  pub owner_id : String
  pub created_at : ℕ
  pub expires_at : ℕ

pub record Token : Type 0 where
  pub token_hash : String
  pub id : String
  pub owner_id : String
  pub created_at : ℕ
  pub expires_at : ℕ
  pub active : Bool

pub record TokenInfo : Type 0 where
  pub token_id : String
  pub created_at : ℕ
  pub expires_at : ℕ

pub record Attempts : Type 0 where
  pub failure_count : ℕ
  pub window_start : ℕ

pub record AuthStore : Type 0 where
  pub max_attempts : ℕ
  pub window_seconds : ℕ
  pub row_cap : ℕ
  pub owners : List Owner
  pub login_attempts : List (String × Attempts)
  pub sessions : List Session
  pub tokens : List Token

-- The first active owner that a test picks, as `fetchone` of the WHERE clause.
unfoldable pub find_owner : (Owner → Bool) → List Owner → Option Owner
find_owner p [] = none
find_owner p (o ∷ os) = if p o && o.active then some o else find_owner p os

abbrev pub has_email : String → Option String → Bool
has_email e none = false
has_email e (some f) = f == e

abbrev pub credentials_of : Owner → OwnerCredentials
credentials_of o = record { owner_id = o.id; role = o.role; password_hash = o.password_hash }

abbrev pub or_else : Option Owner → Option Owner → Option OwnerCredentials
or_else (some o) other = some (credentials_of o)
or_else none (some o) = some (credentials_of o)
or_else none none = none

-- By name first, then by email.
unfoldable pub lookup_active_credentials : String → AuthStore → Option OwnerCredentials
lookup_active_credentials identifier s =
    or_else (find_owner (λ o. o.name == identifier) s.owners)
      (find_owner (λ o. has_email identifier o.email) s.owners)

-- `window_start > now - window`
abbrev pub is_open : ℕ → ℕ → Attempts → Bool
is_open window now row = ltb now (row.window_start + window)

abbrev pub is_spent : ℕ → Option Attempts → Bool
is_spent bound none = false
is_spent bound (some row) = leb bound row.failure_count

abbrev pub wait_for : ℕ → ℕ → Option Attempts → Option ℕ
wait_for window now none = none
wait_for window now (some row) = some (row.window_start + window - now)

-- The first key with the least window start.
abbrev older : String × Attempts → Option (String × Attempts) → String × Attempts
older e none = e
older e (some f) = if leb e.1.window_start f.1.window_start then e else f

unfoldable pub oldest : List (String × Attempts) → Option (String × Attempts)
oldest [] = none
oldest (e ∷ d) = some (older e (oldest d))

unfoldable pub delete_key : String → List (String × Attempts) → List (String × Attempts)
delete_key k d = keep (λ e. not (e.0 == k)) d

abbrev delete_found :
    Option (String × Attempts) → List (String × Attempts) → List (String × Attempts)
delete_found none d = d
delete_found (some e) d = delete_key e.0 d

-- The eviction that makes room for a key that is not there.
unfoldable pub make_room : ℕ → String → List (String × Attempts) → List (String × Attempts)
make_room cap key d =
    if is_some (get key d) then d else if leb cap (length d) then delete_found (oldest d) d else d

abbrev pub counted : ℕ → Option Attempts → Attempts
counted now none = record { failure_count = 1; window_start = now }
counted now (some row) = record row { failure_count = suc row.failure_count }

abbrev pub is_over : ℕ → Option Attempts → Bool
is_over bound none = false
is_over bound (some row) = ltb bound row.failure_count

-- The rows after the expired ones are deleted, room is made and the attempt is counted.
unfoldable pub reserved : ℕ → ℕ → ℕ → String → List (String × Attempts) → List (String × Attempts)
reserved window cap now key d =
    let room = make_room cap key (keep (λ e. is_open window now e.1) d) in
    put key (counted now (get key room)) room

-- `none` grants the attempt; a number is the wait.
unfoldable pub reserve_login_attempt : String → ℕ → AuthStore → AuthStore × Option ℕ
reserve_login_attempt key now s =
    if leb s.max_attempts 0
    then (s, none)
    else let row = get key (keep (λ e. is_open s.window_seconds now e.1) s.login_attempts) in
      if is_spent s.max_attempts row
      then (s, wait_for s.window_seconds now row)
      else let rows = reserved s.window_seconds s.row_cap now key s.login_attempts in
        (
          record s { login_attempts = rows },
          if is_over s.max_attempts (get key rows)
              then wait_for s.window_seconds now (get key rows)
              else none,
        )

unfoldable pub record_login_success : String → AuthStore → AuthStore
record_login_success key s =
    if leb s.max_attempts 0
    then s
    else record s { login_attempts = delete_key key s.login_attempts }

unfoldable pub create_session : String → String → ℕ → ℕ → AuthStore → AuthStore
create_session hash owner created expires s = record s {
  sessions =
      record { session_hash = hash; owner_id = owner; created_at = created; expires_at = expires }
      ∷ s.sessions;
}

abbrev pub identity_of : Option Owner → Option ResolvedIdentity
identity_of none = none
identity_of (some o) = some (record { owner_id = o.id; role = o.role })

-- The first row that passes the test and whose owner is there and active: the join.
unfoldable pub first_identity {ℓ} :
    {A : Type ℓ} → (A → Bool) → (A → String) → List Owner → List A → Option ResolvedIdentity
first_identity p owner owners [] = none
first_identity p owner owners (r ∷ rs) =
    let rest = first_identity p owner owners rs in
    let found = identity_of (find_owner (λ o. o.id == owner r) owners) in
    if p r && is_some found then found else rest

abbrev pub session_valid : String → ℕ → Session → Bool
session_valid hash now r = r.session_hash == hash && ltb now r.expires_at

unfoldable pub resolve_session : String → ℕ → AuthStore → Option ResolvedIdentity
resolve_session hash now s =
    first_identity (session_valid hash now) (λ r. r.owner_id) s.owners s.sessions

unfoldable pub delete_session : String → AuthStore → AuthStore
delete_session hash s = record s { sessions = keep (λ r. not (r.session_hash == hash)) s.sessions }

unfoldable pub delete_owner_sessions : String → AuthStore → AuthStore
delete_owner_sessions owner s = record s {
  sessions = keep (λ r. not (r.owner_id == owner)) s.sessions;
}

unfoldable pub create_token : String → String → String → ℕ → ℕ → AuthStore → AuthStore
create_token hash id owner created expires s = record s {
  tokens =
      record {
        token_hash = hash;
        id = id;
        owner_id = owner;
        created_at = created;
        expires_at = expires;
        active = true;
      }
      ∷ s.tokens;
}

abbrev pub token_valid : String → ℕ → Token → Bool
token_valid hash now r = r.token_hash == hash && r.active && ltb now r.expires_at

unfoldable pub resolve_token : String → ℕ → AuthStore → Option ResolvedIdentity
resolve_token hash now s = first_identity (token_valid hash now) (λ r. r.owner_id) s.owners s.tokens

-- UPDATE tokens SET state = 'disabled' WHERE …
unfoldable pub disable : (Token → Bool) → List Token → List Token
disable p [] = []
disable p (r ∷ rs) = (if p r then record r { active = false } else r) ∷ disable p rs

unfoldable pub revoke_token : String → String → AuthStore → AuthStore
revoke_token owner id s = record s {
  tokens = disable (λ r. r.owner_id == owner && r.id == id) s.tokens;
}

unfoldable pub revoke_owner_tokens : String → AuthStore → AuthStore
revoke_owner_tokens owner s = record s { tokens = disable (λ r. r.owner_id == owner) s.tokens }

-- The owner of an id, whatever its state.
unfoldable pub get_email : String → List Owner → Option String
get_email id [] = none
get_email id (o ∷ os) = if o.id == id then o.email else get_email id os

unfoldable pub put_email : String → Option String → List Owner → List Owner
put_email id email [] = []
put_email id email (o ∷ os) =
    (if o.id == id then record o { email = email } else o) ∷ put_email id email os

abbrev pub same_email : Option String → Option String → Bool
same_email none f = false
same_email (some e) f = has_email e f

-- What the unique index on the emails that are set refuses: another row with the same email, once
-- a row has been changed.
abbrev pub is_taken : String → Option String → List Owner → Bool
is_taken id email owners =
    some_in (λ o. o.id == id) owners
    && some_in (λ o. not (o.id == id) && same_email email o.email) owners

-- `false` stands for EmailAlreadyTakenError.
unfoldable pub set_email : String → Option String → AuthStore → AuthStore × Bool
set_email id email s =
    if is_taken id email s.owners
    then (s, false)
    else (record s { owners = put_email id email s.owners }, true)

abbrev token_info : Token → TokenInfo
token_info r = record { token_id = r.id; created_at = r.created_at; expires_at = r.expires_at }

unfoldable pub insert_by_created : Token → List Token → List Token
insert_by_created r [] = r ∷ []
insert_by_created r (t ∷ ts) =
    let rest = insert_by_created r ts in
    if leb t.created_at r.created_at then r ∷ t ∷ ts else t ∷ rest

-- ORDER BY created_at DESC
unfoldable pub by_created : List Token → List Token
by_created [] = []
by_created (r ∷ rs) = insert_by_created r (by_created rs)

unfoldable pub list_tokens : String → ℕ → AuthStore → List TokenInfo
list_tokens owner now s =
    map token_info
      (by_created (keep (λ r. r.owner_id == owner && r.active && ltb now r.expires_at) s.tokens))
