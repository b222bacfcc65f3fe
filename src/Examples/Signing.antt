-- ===== src/Examples/Signing.antt =====
-- The login and the revocation at concrete inputs.
use Prim.{tt}
use kerdoos.Prelude.{◌+◌, ◌≤◌, ◌≡◌, refl, none, some, true, false, [], ◌∷◌, ◌==◌, arith}
use kerdoos.Prelude.Dict.{get}
use kerdoos.Auth.Store.{AuthStore}
use kerdoos.Auth.Store.RateLimit.{granted, granted-bounded, Tracked}
use kerdoos.Auth.Service.{Crypto, Principal, verify_session, verify_bearer, revoke_all}
use kerdoos.Auth.Service.Revocation.{revoke_all-cuts}

abbrev crypto : Crypto
crypto = record {
  verify = λ hash password. hash == password;
  token_hash = λ secret. secret;
  normalize = λ identifier. identifier;
  email_valid = λ email. true;
  session_ttl = 3600;
  token_ttl = 7200;
}

abbrev store : AuthStore
store = record {
  max_attempts = 3;
  window_seconds = 60;
  row_cap = 10;
  owners =
      record {
        id = "1";
        name = "alice";
        email = none;
        role = "user";
        active = true;
        password_hash = none;
      }
      ∷ record {
        id = "2";
        name = "bob";
        email = none;
        role = "admin";
        active = true;
        password_hash = none;
      }
      ∷ [];
  login_attempts = ("alice", record { failure_count = 1; window_start = 100 }) ∷ [];
  sessions =
      record { session_hash = "x"; owner_id = "1"; created_at = 0; expires_at = 500 }
      ∷ record { session_hash = "y"; owner_id = "2"; created_at = 0; expires_at = 500 }
      ∷ [];
  tokens =
      record {
        token_hash = "t";
        id = "t1";
        owner_id = "1";
        created_at = 0;
        expires_at = 500;
        active = true;
      }
      ∷ [];
}

abbrev admin : Principal
admin = record { owner_id = "2"; role = "admin" }

granted-bounded_example : granted "alice" (101 ∷ 102 ∷ 103 ∷ 104 ∷ []) store + 1 ≤ 3
unfolding Tracked get
granted-bounded_example =
    granted-bounded "alice" (101 ∷ 102 ∷ 103 ∷ 104 ∷ []) store 1 100 (omega arith) refl
      (omega arith) (omega arith, (omega arith, (omega arith, (omega arith, tt))))

revoke_all-cuts_example :
    (verify_session crypto "y" 7 (revoke_all admin "1" store).0 ≡ some admin
      → (admin.owner_id == "1") ≡ false)
    × (verify_bearer crypto "y" 7 (revoke_all admin "1" store).0 ≡ some admin
        → (admin.owner_id == "1") ≡ false)
    × ((admin.owner_id == "1") ≡ false
        → verify_session crypto "y" 7 store ≡ some admin
        → verify_session crypto "y" 7 (revoke_all admin "1" store).0 ≡ some admin)
    × ((admin.owner_id == "1") ≡ false
        → verify_bearer crypto "y" 7 store ≡ some admin
        → verify_bearer crypto "y" 7 (revoke_all admin "1" store).0 ≡ some admin)
revoke_all-cuts_example = revoke_all-cuts crypto admin "1" store refl "y" 7 admin
