-- ===== src/Web/Guards.antt =====
-- packages/kerdoos/src/kerdoos/interfaces/web/deps.py and interfaces/mcp/auth.py: who a request comes
-- from.
use kerdoos.Prelude.{ℕ, String, not, ◌&&◌, Option, none, some, List, [], ◌∷◌, if◌then◌else◌, ◌==◌}
use kerdoos.Scrape.Domain.{Exc, other, Outcome, returned, raised}
use kerdoos.Auth.Store.{AuthStore}
use kerdoos.Auth.Service.{Crypto, Principal, verify_session, verify_bearer}
use kerdoos.Egress.Texts.{partition}
use kerdoos.Web.Cookies.{read}

abbrev pub unauthorized : String → Exc
unauthorized detail = other "HTTPException 401" detail

abbrev pub or_unauthorized : String → Option Principal → Outcome Principal
or_unauthorized detail none = raised (unauthorized detail)
or_unauthorized detail (some p) = returned p

module _ (hmac : String → String) (c : Crypto) where
  abbrev pub session_principal : ℕ → AuthStore → Option String → Option Principal
  session_principal now s none = none
  session_principal now s (some session_id) = verify_session c session_id now s

  -- The dependency `verify_session`, of the cookie.
  unfoldable pub require_session : Option String → ℕ → AuthStore → Outcome Principal
  unfolding read verify_session
  require_session cookie now s =
      or_unauthorized "invalid or expired session" (session_principal now s (read hmac cookie))

  abbrev pub or_forbidden : Outcome Principal → Outcome Principal
  or_forbidden (raised e) = raised e
  or_forbidden (returned p) =
      if p.role == "admin"
      then returned p
      else raised (other "HTTPException 403" "admin role required")

  unfoldable pub require_admin : Option String → ℕ → AuthStore → Outcome Principal
  unfolding require_session
  require_admin cookie now s = or_forbidden (require_session cookie now s)

  -- The two sides of the first blank of the Authorization header; `lower` is `str.lower`.
  module _ (lower : String → String) where
    abbrev pub bearer_principal : ℕ → AuthStore → Option (String × String) → Option Principal
    bearer_principal now s none = none
    bearer_principal now s (some (scheme, token)) =
        if (lower scheme == "bearer") && not (token == "")
        then verify_bearer c token now s
        else none

    unfoldable pub require_bearer : String → ℕ → AuthStore → Outcome Principal
    unfolding partition verify_bearer
    require_bearer header now s =
        or_unauthorized "invalid or expired token" (bearer_principal now s (partition " " header))

-- `AccessToken` of the MCP SDK.
pub record AccessToken : Type 0 where
  pub token : String
  pub subject : Option String
  pub scopes : List String

abbrev pub access_of : String → Option Principal → Option AccessToken
access_of token none = none
access_of token (some p) =
    some (record { token = token; subject = some p.owner_id; scopes = p.role ∷ [] })

unfoldable pub verify_token : Crypto → String → ℕ → AuthStore → Option AccessToken
unfolding verify_bearer
verify_token c token now s = access_of token (verify_bearer c token now s)

abbrev pub no_principal : Exc
no_principal = other "PermissionError" "no authenticated principal for this MCP request"

abbrev pub sole_scope : Option String → List String → Outcome Principal
sole_scope none scopes = raised no_principal
sole_scope (some subject) [] = raised no_principal
sole_scope (some subject) (role ∷ []) =
    if subject == ""
    then raised no_principal
    else returned (record { owner_id = subject; role = role })
sole_scope (some subject) (role ∷ next ∷ rest) = raised no_principal

unfoldable pub current_principal : Option AccessToken → Outcome Principal
current_principal none = raised no_principal
current_principal (some access) = sole_scope access.subject access.scopes
