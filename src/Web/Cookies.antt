-- ===== src/Web/Cookies.antt =====
-- packages/kerdoos/src/kerdoos/interfaces/web/security.py (`SessionCookie`) and csrf.py. The HMAC of a
-- text under the session secret, in hexadecimal, is a parameter: both files use the one secret.
pub mod Signed
use Prim.{tt}
use Prim.Native.Char.{Char, code}
use Prim.Native.String
use kerdoos.Prelude.{
  String, Bool, true, false, not, ◌||◌, Option, none, some, nat_eq, if◌then◌else◌, ◌==◌, List, [],
  ◌∷◌, some_in, get_or,
}
use kerdoos.Scrape.Domain.{Outcome, returned, raised, Exc, other}

abbrev or_here : Char → String → Option (String × String) → Option (String × String)
or_here c s (some (head, tail)) = some (String.◌∷◌ c head, tail)
or_here c s none = if nat_eq (code c) b'.' then some (String.[], s) else none

-- `value.rpartition(".")` for a point that is there.
unfoldable pub last_point : String → Option (String × String)
last_point String.[] = none
last_point (String.◌∷◌ c s) = or_here c s (last_point s)

module _ (hmac : String → String) where
  unfoldable pub issue : String → String
  issue session_id = String.◌++◌ session_id (String.◌∷◌ "." (hmac session_id))

  abbrev pub checked : Option (String × String) → Option String
  checked none = none
  checked (some (session_id, signature)) =
      if (session_id == "") || (signature == "")
      then none
      else if hmac session_id == signature
      then some session_id
      else none

  unfoldable pub read : Option String → Option String
  unfolding last_point
  read none = none
  read (some cookie_value) = checked (last_point cookie_value)

  unfoldable pub issue_csrf : String → String
  issue_csrf session_id = hmac (String.◌++◌ "csrf:" session_id)

  -- `csrf_token_for`
  abbrev pub token_or_empty : Option String → String
  token_or_empty none = ""
  token_or_empty (some session_id) = issue_csrf session_id

  unfoldable pub csrf_token_for : Option String → String
  unfolding issue_csrf read
  csrf_token_for cookie = token_or_empty (read cookie)

  abbrev pub safe_methods : List String
  safe_methods = "GET" ∷ "HEAD" ∷ "OPTIONS" ∷ "TRACE" ∷ []

  -- The header or, where it is absent or empty, the field of the form.
  abbrev pub submitted : Option String → Option String → String
  submitted header field = if get_or header "" == "" then get_or field "" else get_or header ""

  abbrev pub forbidden : String → Exc
  forbidden detail = other "HTTPException 403" detail

  abbrev pub matched : String → Option String → Outcome (Unit {0})
  matched given none = raised (forbidden "missing session")
  matched given (some session_id) =
      if (given == "") || not (issue_csrf session_id == given)
      then raised (forbidden "invalid csrf token")
      else returned tt

  -- The method, the cookie, the header and the field of a request.
  unfoldable pub verify_csrf :
      String → Option String → Option String → Option String → Outcome (Unit {0})
  unfolding some_in issue_csrf read
  verify_csrf method cookie header field =
      if some_in (λ m. m == method) safe_methods
      then returned tt
      else matched (submitted header field) (read cookie)
