-- ===== src/Web/Cookies/Signed.antt =====
-- What a signed cookie and a CSRF token show (packages/kerdoos/src/kerdoos/interfaces/web).
use Prim.{tt, absurd}
use Prim.Native.Char.{code}
use Prim.Native.String
use text.Mathlib.TextEquality.{Char-path}
use text.Mathlib.TextLemmas.{nil-append, cons-append}
use kerdoos.Prelude.{
  ◌≡◌, ◌≢◌, refl, sym, ap, ◌∙◌, String, Bool, true, false, not, ◌||◌, ◌↔◌, Option, none, some,
  nat_eq, if◌then◌else◌, ◌==◌, arith, some_in, eq_of_test, test_of_ne, eq_refl,
}
use kerdoos.Egress.Texts.{all_chars}
use kerdoos.Scrape.Domain.{Outcome, returned, raised}
use kerdoos.Web.Cookies.{
  last_point, or_here, issue, checked, read, issue_csrf, safe_methods, submitted, matched,
  verify_csrf, forbidden,
}

-- The two sides of the last point make the text.
point_splits : (v h t : String) → last_point v ≡ some (h, t) → v ≡ String.◌++◌ h (String.◌∷◌ "." t)
unfolding last_point
point_splits String.[] h t e = absurd cc
point_splits (String.◌∷◌ c s) h t e = here_or_later (point_splits s) (last_point s) refl e
  where
    at_point :
        (b : Bool)
        → nat_eq (code c) b'.' ≡ b
        → if◌then◌else◌ {A = Option (String × String)} b (some (String.[], s)) none ≡ some (h, t)
        → String.◌∷◌ c s ≡ String.◌++◌ h (String.◌∷◌ "." t)
    at_point true p q =
        let same : String.[] ≡ h = cc in
        let rest : s ≡ t = cc in
        let point : c ≡ "." = Char-path c "." (ground (arith, p)) in
        ap (λ d. String.◌∷◌ d s) point
        ∙ ap (λ r. String.◌∷◌ "." r) rest
        ∙ sym (nil-append (String.◌∷◌ "." t))
        ∙ ap (λ r. String.◌++◌ r (String.◌∷◌ "." t)) same
    at_point false p q = absurd cc

    here_or_later :
        ((k r : String) → last_point s ≡ some (k, r) → s ≡ String.◌++◌ k (String.◌∷◌ "." r))
        → (o : Option (String × String)) → last_point s ≡ o
        → or_here c s o ≡ some (h, t)
        → String.◌∷◌ c s ≡ String.◌++◌ h (String.◌∷◌ "." t)
    here_or_later later none p q = at_point (nat_eq (code c) b'.') refl q
    here_or_later later (some (k, r)) p q =
        let same : String.◌∷◌ c k ≡ h = cc in
        let rest : r ≡ t = cc in
        ap (λ x. String.◌∷◌ c x) (later k r p)
        ∙ sym (cons-append c k (String.◌∷◌ "." r))
        ∙ ap (λ x. String.◌++◌ x (String.◌∷◌ "." r)) same
        ∙ ap (λ x. String.◌++◌ h (String.◌∷◌ "." x)) rest

-- A text without a point.
abbrev pub HasNoPoint : String → Type 0
HasNoPoint t = all_chars (λ c. not (nat_eq (code c) b'.')) t ≡ true

no_point : (t : String) → HasNoPoint t → last_point t ≡ none
unfolding last_point all_chars
no_point String.[] h = refl
no_point (String.◌∷◌ c s) h =
    let here : nat_eq (code c) b'.' ≡ false = ground (arith, h) in
    ap (or_here c s) (no_point s (ground (arith, h)))
    ∙ ap (λ b. if◌then◌else◌ {A = Option (String × String)} b (some (String.[], s)) none) here

point_found :
    (s t : String) → HasNoPoint t → last_point (String.◌++◌ s (String.◌∷◌ "." t)) ≡ some (s, t)
unfolding last_point
point_found String.[] t h =
    ap last_point (nil-append (String.◌∷◌ "." t)) ∙ ap (or_here "." t) (no_point t h)
point_found (String.◌∷◌ c s) t h =
    ap last_point (cons-append c s (String.◌∷◌ "." t))
    ∙ ap (or_here c (String.◌++◌ s (String.◌∷◌ "." t))) (point_found s t h)

module _ (hmac : String → String) where
  checked-issue :
      (v : String) (o : Option (String × String)) (session_id : String)
      → ((h t : String) → o ≡ some (h, t) → v ≡ String.◌++◌ h (String.◌∷◌ "." t))
      → checked hmac o ≡ some session_id
      → v ≡ issue hmac session_id
  unfolding issue
  checked-issue v none session_id f e = absurd cc
  checked-issue v (some (h, t)) session_id f e = tests ((h == "") || (t == "")) (hmac h == t) refl e
    where
      tests :
          (empty equal : Bool)
          → (hmac h == t) ≡ equal
          → (if empty then none else if equal then some h else none) ≡ some session_id
          → v ≡ String.◌++◌ session_id (String.◌∷◌ "." (hmac session_id))
      tests true equal p q = absurd cc
      tests false false p q = absurd cc
      tests false true p q =
          let same : h ≡ session_id = cc in
          f h t refl
          ∙ ap (λ x. String.◌++◌ h (String.◌∷◌ "." x)) (sym (eq_of_test (hmac h) t p))
          ∙ ap (λ x. String.◌++◌ x (String.◌∷◌ "." (hmac x))) same

  -- A cookie that is read is the one that was issued for its session.
  pub read-issue_only :
      (v session_id : String) → read hmac (some v) ≡ some session_id → v ≡ issue hmac session_id
  unfolding read
  read-issue_only v session_id e = checked-issue v (last_point v) session_id (point_splits v) e

  -- Where the signature has no point, as hexadecimal digits have none, and neither it nor the session
  -- is empty, what is issued is read.
  pub read-issue :
      (session_id : String)
      → session_id ≢ ""
      → hmac session_id ≢ ""
      → HasNoPoint (hmac session_id)
      → read hmac (some (issue hmac session_id)) ≡ some session_id
  unfolding read issue
  read-issue session_id n k h =
      ap (checked hmac) (point_found session_id (hmac session_id) h)
      ∙ ground (
        arith,
        test_of_ne session_id "" n,
        test_of_ne (hmac session_id) "" k,
        eq_refl (hmac session_id),
      )

-- A cookie is accepted exactly when it was issued for the session that it gives: what is issued is
-- read, and a text that is read is the one that was issued. The session id and its signature are not
-- empty, and the signature has no point, as hexadecimal digits have none.
pub read_iff-issue :
    (hmac : String → String) (v session_id : String)
    → session_id ≢ ""
    → hmac session_id ≢ ""
    → HasNoPoint (hmac session_id)
    → (read hmac (some v) ≡ some session_id) ↔ (v ≡ issue hmac session_id)
read_iff-issue hmac v session_id n k h = (
  read-issue_only hmac v session_id,
  λ e. ap (λ x. read hmac (some x)) e ∙ read-issue hmac session_id n k h,
)

matched-issue_csrf :
    (hmac : String → String) (given : String) (o : Option String)
    → matched hmac given o ≡ returned tt
    → (session_id : String) × (o ≡ some session_id) × (given ≡ issue_csrf hmac session_id)
matched-issue_csrf hmac given none e = absurd cc
matched-issue_csrf hmac given (some session_id) e =
    (session_id, refl, tests (given == "") (issue_csrf hmac session_id == given) refl e)
  where
    tests :
        (empty equal : Bool)
        → (issue_csrf hmac session_id == given) ≡ equal
        → if◌then◌else◌ {A = Outcome (Unit {0})}
            (empty || not equal)
            (raised (forbidden hmac "invalid csrf token"))
            (returned tt)
          ≡ returned tt
        → given ≡ issue_csrf hmac session_id
    tests true equal p q = absurd cc
    tests false false p q = absurd cc
    tests false true p q = sym (eq_of_test (issue_csrf hmac session_id) given p)

-- A request whose method is not one of the safe ones passes only with a cookie that was issued for a
-- session and the CSRF token of that same session, in the header or, failing that, in the form.
pub verify_csrf-issue_csrf :
    (hmac : String → String) (method : String) (cookie header field : Option String)
    → some_in (λ m. m == method) (safe_methods hmac) ≡ false
    → verify_csrf hmac method cookie header field ≡ returned tt
    → (v session_id : String) × (cookie ≡ some v)
      × (v ≡ issue hmac session_id)
      × (submitted hmac header field ≡ issue_csrf hmac session_id)
unfolding verify_csrf
verify_csrf-issue_csrf hmac method none header field u e = absurd (ground (arith, u, e))
verify_csrf-issue_csrf hmac method (some v) header field u e =
    let found =
      matched-issue_csrf hmac (submitted hmac header field) (read hmac (some v))
        (ground (arith, u, e)) in
    (v, found.0, refl, read-issue_only hmac v found.0 found.1, found.2)
