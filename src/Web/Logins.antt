-- ===== src/Web/Logins.antt =====
-- packages/kerdoos/src/kerdoos/interfaces/web/routers/public.py: login and logout. The JSON routes and
-- the HTML routes make the same calls; a response is what they answer with. The secret of a session
-- and the clock are arguments.
pub mod Identities
pub mod Sessions
pub mod Endings
use kerdoos.Prelude.{ℕ, suc, ◌/◌, String, Bool, true, false, Option, none, some, if◌then◌else◌}
use kerdoos.Auth.Store.{AuthStore}
use kerdoos.Auth.Service.{
  Crypto, Principal, check_and_authenticate, create_session_for, verify_session, revoke_session,
}
use kerdoos.Web.Cookies.{issue, read}

-- 429 with its `Retry-After`, 401, or success with the value of the cookie.
pub data LoginResponse : Type 0 where
  too_many : ℕ → LoginResponse
  refused : LoginResponse
  logged_in : String → LoginResponse

module _ (hmac : String → String) (c : Crypto) where
  abbrev pub welcomed : AuthStore × String → AuthStore × LoginResponse
  welcomed (s, session_id) = (s, logged_in (issue hmac session_id))

  abbrev pub answered :
      String → ℕ → AuthStore × Option Principal × Option ℕ → AuthStore × LoginResponse
  answered secret now (s, principal, some retry_after) = (s, too_many (suc retry_after))
  answered secret now (s, none, none) = (s, refused)
  answered secret now (s, some principal, none) =
      welcomed (create_session_for c principal secret now s)

  unfoldable pub login : String → String → String → ℕ → AuthStore → AuthStore × LoginResponse
  unfolding check_and_authenticate create_session_for issue
  login identifier password secret now s =
      answered secret now (check_and_authenticate c identifier password now s)

  abbrev pub revoked : String → AuthStore → Option Principal → AuthStore
  revoked session_id s none = s
  revoked session_id s (some principal) = revoke_session c principal session_id s

  abbrev pub ended : ℕ → AuthStore → Option String → AuthStore
  ended now s none = s
  ended now s (some session_id) = revoked session_id s (verify_session c session_id now s)

  -- The cookie is deleted in every case.
  unfoldable pub logout : Option String → ℕ → AuthStore → AuthStore
  unfolding read verify_session revoke_session
  logout cookie now s = ended now s (read hmac cookie)
