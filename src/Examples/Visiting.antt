-- ===== src/Examples/Visiting.antt =====
-- Sessions, cookies and fetches at concrete inputs.
use Prim.Native.String
use kerdoos.Prelude.{
  ℕ, zero, suc, ◌≤◌, ◌≡◌, ◌≢◌, ◌↔◌, refl, String, true, false, none, some, List, [], ◌∷◌, ◌==◌,
  arith, All, length, some_in,
}
use kerdoos.Scrape.Domain.{Outcome, returned}
use kerdoos.Prelude.{keep}
use kerdoos.Prelude.Dict.{get, put}
use kerdoos.Auth.Store.{
  AuthStore, reserve_login_attempt, reserved, make_room, lookup_active_credentials, find_owner,
}
use kerdoos.Auth.Service.{Crypto, Principal, check_and_authenticate, authenticate}
use kerdoos.Egress.Texts.{all_chars}
use kerdoos.Web.Cookies.{issue, read, issue_csrf, submitted, verify_csrf}
use kerdoos.Web.Cookies.Signed.{read_iff-issue, verify_csrf-issue_csrf}
use kerdoos.Web.Guards.{require_session}
use kerdoos.Web.Logins.{login, logout}
use kerdoos.Web.Logins.Sessions.{IsOpen, login-IsOpen}
use kerdoos.Web.Logins.Endings.{logout-require_session}
use kerdoos.Egress.Safety.{ValidatedTarget}
use kerdoos.Fetching.Hops.{Tier, Reply, Tools, fetch}
use kerdoos.Fetching.Hops.Pinned.{IsWalk, IsPinnedRequest, IsCapped, fetch-IsPinnedRequest}
use kerdoos.Fetching.Browser.{
  starts, caller_claims, counts, finishes, thread_claims, steps, new_tier, Location,
  check_final_document, is_hostname_shaped, host_allowed,
}
use kerdoos.Fetching.Browser.Ceiling.{IsCounted, steps-IsCounted}
use kerdoos.Fetching.Browser.Documents.{IsSameDocument, check_final_document-IsSameDocument}
use kerdoos.Examples.Guarding.Wire.{net, is_shop}

abbrev signature : String → String
signature text = String.◌++◌ "5eal-" text

abbrev crypto : Crypto
crypto = record {
  verify = λ hash password. hash == password;
  token_hash = λ secret. secret;
  normalize = λ identifier. identifier;
  email_valid = λ email. true;
  session_ttl = 3600;
  token_ttl = 7200;
}

abbrev store : AuthStore
store = record {
  max_attempts = 3;
  window_seconds = 60;
  row_cap = 10;
  owners =
      record {
        id = "1";
        name = "alice";
        email = none;
        role = "user";
        active = true;
        password_hash = some "pw";
      }
      ∷ [];
  login_attempts = [];
  sessions = [];
  tokens = [];
}

abbrev after_login : AuthStore
after_login = (login signature crypto "alice" "pw" "cafe" 100 store).0

login-IsOpen_example :
    (p : Principal) × ((check_and_authenticate crypto "alice" "pw" 100 store).1 ≡ some p)
    × IsOpen signature crypto p "cafe.5eal-cafe" 3000 after_login
unfolding login all_chars reserve_login_attempt get keep reserved put make_room authenticate
    lookup_active_credentials find_owner
login-IsOpen_example =
    login-IsOpen signature crypto "alice" "pw" "cafe" "cafe.5eal-cafe" 100 3000 store after_login
      (λ e. cc) (λ e. cc) refl (omega arith) refl

logout-require_session_example :
    require_session signature crypto
      (some "cafe.5eal-cafe")
      200
      (logout signature crypto (some "cafe.5eal-cafe") 150 after_login)
    ≢ returned (record { owner_id = "1"; role = "user" })
logout-require_session_example =
    logout-require_session signature crypto (some "cafe.5eal-cafe") 150 200 after_login
      (record { owner_id = "1"; role = "user" }) (omega arith)

read_iff-issue_example :
    (read signature (some "cafe.5eal-cafe") ≡ some "cafe")
    ↔ ("cafe.5eal-cafe" ≡ issue signature "cafe")
unfolding all_chars
read_iff-issue_example = read_iff-issue signature "cafe.5eal-cafe" "cafe" (λ e. cc) (λ e. cc) refl

verify_csrf-issue_csrf_example :
    (v session_id : String) × (some "cafe.5eal-cafe" ≡ some v)
    × (v ≡ issue signature session_id)
    × (submitted signature (some "5eal-csrf:cafe") none ≡ issue_csrf signature session_id)
unfolding verify_csrf some_in
verify_csrf-issue_csrf_example =
    verify_csrf-issue_csrf signature "POST" (some "cafe.5eal-cafe") (some "5eal-csrf:cafe") none
      refl refl

-- A server that redirects once to its own second page.
abbrev replies : ℕ → String → ValidatedTarget → Outcome Reply
replies zero url t = returned (record {
  is_redirect = true;
  status_code = 302;
  location = some "/2";
  encoding = none;
  chunks = [];
})
replies (suc n) url t = returned (record {
  is_redirect = false;
  status_code = 200;
  location = none;
  encoding = none;
  chunks = "<html>" ∷ [];
})

abbrev first_chunk : List String → String
first_chunk [] = ""
first_chunk (c ∷ cs) = c

abbrev tools : Tools
tools = record {
  get = replies;
  urljoin = λ base location. String.◌++◌ "https://kabum.com.br" location;
  decode = λ encoding chunks. first_chunk chunks;
  lower = λ s. s;
}

fetch-IsPinnedRequest_example :
    All
      (IsPinnedRequest (λ r. net) is_shop tools Tier.http)
      (fetch (λ r. net) is_shop tools Tier.http "https://kabum.com.br/1").0
    × IsWalk
        (λ r. net)
        is_shop
        tools
        Tier.http
        0
        "https://kabum.com.br/1"
        (fetch (λ r. net) is_shop tools Tier.http "https://kabum.com.br/1").0
    × (length (fetch (λ r. net) is_shop tools Tier.http "https://kabum.com.br/1").0 ≤ 6)
    × IsCapped
        (λ r. net)
        is_shop
        tools
        Tier.http
        (fetch (λ r. net) is_shop tools Tier.http "https://kabum.com.br/1").1
fetch-IsPinnedRequest_example =
    fetch-IsPinnedRequest (λ r. net) is_shop tools Tier.http "https://kabum.com.br/1"

steps-IsCounted_example : IsCounted (
    steps 5
      (starts "a"
        ∷ starts "b"
        ∷ caller_claims "a"
        ∷ thread_claims "b"
        ∷ counts "a"
        ∷ finishes "b"
        ∷ [])
      new_tier)
steps-IsCounted_example = steps-IsCounted 5 (
    starts "a"
    ∷ starts "b"
    ∷ caller_claims "a"
    ∷ thread_claims "b"
    ∷ counts "a"
    ∷ finishes "b"
    ∷ [])

abbrev located : String → Location
located url = record {
  scheme = "https";
  hostname = "kabum.com.br";
  port = none;
  has_userinfo = false;
}

check_final_document-IsSameDocument_example :
    IsSameDocument located
      (λ u. "https://kabum.com.br/1")
      "https://kabum.com.br/1"
      "https://kabum.com.br/1"
      (some "https://kabum.com.br/1#x")
unfolding check_final_document
check_final_document-IsSameDocument_example =
    check_final_document-IsSameDocument located (λ u. "https://kabum.com.br/1")
      "https://kabum.com.br/1" "https://kabum.com.br/1" (some "https://kabum.com.br/1#x") refl

-- A line feed at the end of a label goes through, a tab does not.
line_feed_shaped :
    (host_allowed (λ s. s) (λ h. false) ("kabum.com.br" ∷ []) "evil.com\n.kabum.com.br" ≡ true)
    × (is_hostname_shaped "evil.com\t.kabum.com.br" ≡ false)
unfolding host_allowed
line_feed_shaped = (refl, refl)
