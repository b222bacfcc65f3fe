-- ===== src/Auth/Service/Revocation.antt =====
-- Revocation in core/app/auth.py.
use Prim.{tt, absurd}
use mathlib.Core.Path.{subst}
use kerdoos.Prelude.{
  ℕ, ◌≡◌, refl, sym, ap, ◌∙◌, String, Bool, true, false, not, ◌&&◌, ◌||◌, Option, none, some, List,
  [], ◌∷◌, keep, is_some, if◌then◌else◌, ◌==◌, arith, eq_iff, All, Bool-cases, Option-cases, ◌⊎◌,
  inl, inr,
}
use kerdoos.Auth.Store.{
  Owner, Token, AuthStore, ResolvedIdentity, find_owner, identity_of, first_identity, session_valid,
  token_valid, resolve_session, resolve_token, delete_owner_sessions, revoke_owner_tokens, disable,
}
use kerdoos.Auth.Service.{
  Crypto, Principal, principal_of, verify_session, verify_bearer, revoke_all,
}

-- Who may revoke: the owner and an admin.
abbrev pub may_revoke : Principal → String → Bool
may_revoke p target = target == p.owner_id || p.role == "admin"

revoke_all-allowed :
    (p : Principal) (target : String) (s : AuthStore)
    → may_revoke p target ≡ true
    → revoke_all p target s ≡ (revoke_owner_tokens target (delete_owner_sessions target s), true)
unfolding revoke_all
revoke_all-allowed p target s h = ground (arith, h)

some-inj {ℓ} : {A : Type ℓ} (a b : A) → some a ≡ some b → a ≡ b
some-inj a b h = cc

found_owner :
    (id : String) (owners : List Owner) (o : Owner)
    → find_owner (λ r. r.id == id) owners ≡ some o
    → o.id ≡ id
unfolding find_owner
found_owner id [] o h = absurd (ground (arith, h))
found_owner id (r ∷ rs) o h = elim (Bool-cases (r.id == id && r.active)) [
  | inl e ↦ ground (arith, e, eq_iff r.id id, ap (λ x. x.id) (some-inj r o (ground (arith, e, h))))
  | inr e ↦ found_owner id rs o (ground (arith, e, h))
]

found_identity :
    (id : String) (owners : List Owner) (i : ResolvedIdentity)
    → identity_of (find_owner (λ r. r.id == id) owners) ≡ some i
    → i.owner_id ≡ id
found_identity id owners i h = elim (Option-cases (find_owner (λ r. r.id == id) owners)) [
  | inl e ↦ absurd (ground (arith, e, h))
  | inr (o, e) ↦
      let same : record { owner_id = o.id; role = o.role } ≡ i =
        some-inj (record { owner_id = o.id; role = o.role }) i (sym (ap identity_of e) ∙ h) in
      sym (ap (λ x. x.owner_id) same) ∙ found_owner id owners o e
]

module _ {A : Type 0} (p : A → Bool) (owner : A → String) (owners : List Owner)
    (target : String) where
  abbrev found : A → Option ResolvedIdentity
  found r = identity_of (find_owner (λ o. o.id == owner r) owners)

  -- No row of the target passes the test.
  abbrev Shut : List A → Type 0
  Shut rows = All (λ r. (owner r == target) ≡ true → p r ≡ false) rows

  head_or_rest :
      (x : Bool) (f rest : Option ResolvedIdentity) (i : ResolvedIdentity)
      → (if x && is_some f then f else rest) ≡ some i
      → ((x ≡ true) × (f ≡ some i)) ⊎ (rest ≡ some i)
  head_or_rest true (some j) rest i h = inl (refl, h)
  head_or_rest true none rest i h = inr h
  head_or_rest false f rest i h = inr h

  cut :
      (rows : List A) (i : ResolvedIdentity)
      → Shut rows
      → first_identity p owner owners rows ≡ some i
      → (i.owner_id == target) ≡ false
  unfolding first_identity
  cut [] i shut h = absurd (ground (arith, h))
  cut (r ∷ rs) i shut h =
      elim (head_or_rest (p r) (found r) (first_identity p owner owners rs) i h) [
        | inl (passes, e) ↦ ground (
          arith,
          passes,
          shut.0,
          eq_iff i.owner_id target,
          eq_iff (owner r) target,
          found_identity (owner r) owners i e,
        )
        | inr e ↦ cut rs i shut.1 e
      ]

  keep_by :
      (r : A) (rest : List A) (b : Bool)
      → (owner r == target) ≡ b
      → Shut rest
      → Shut (if not b then r ∷ rest else rest)
  keep_by r rest true e h = h
  keep_by r rest false e h = ((λ same. absurd (ground (arith, e, same))), h)

  Shut-keep : (rows : List A) → Shut (keep (λ r. not (owner r == target)) rows)
  unfolding keep
  Shut-keep [] = tt
  Shut-keep (r ∷ rs) =
      keep_by r (keep (λ x. not (owner x == target)) rs) (owner r == target) refl (Shut-keep rs)

  same_head :
      (x : Bool) (f rest left : Option ResolvedIdentity) (i : ResolvedIdentity)
      → (rest ≡ some i → left ≡ some i)
      → (if x && is_some f then f else rest) ≡ some i
      → (if x && is_some f then f else left) ≡ some i
  same_head true (some j) rest left i ih h = h
  same_head true none rest left i ih h = ih h
  same_head false f rest left i ih h = ih h

  -- A row of the target gives no identity but the target's.
  past_head :
      (r : A) (rest : List A) (i : ResolvedIdentity)
      → (owner r == target) ≡ true
      → (i.owner_id == target) ≡ false
      → first_identity p owner owners (r ∷ rest) ≡ some i
      → first_identity p owner owners rest ≡ some i
  unfolding first_identity
  past_head r rest i e other h =
      elim (head_or_rest (p r) (found r) (first_identity p owner owners rest) i h) [
        | inl (passes, hit) ↦ absurd (
            ground (
              arith,
              e,
              other,
              eq_iff i.owner_id target,
              eq_iff (owner r) target,
              found_identity (owner r) owners i hit,
            ))
        | inr later ↦ later
      ]

  spared_by :
      (r : A) (rest left : List A) (i : ResolvedIdentity) (b : Bool)
      → (owner r == target) ≡ b
      → (i.owner_id == target) ≡ false
      → (first_identity p owner owners rest ≡ some i → first_identity p owner owners left ≡ some i)
      → first_identity p owner owners (r ∷ rest) ≡ some i
      → first_identity p owner owners (if not b then r ∷ left else left) ≡ some i
  unfolding first_identity
  spared_by r rest left i true e other ih h = ih (past_head r rest i e other h)
  spared_by r rest left i false e other ih h =
      same_head (p r) (found r) (first_identity p owner owners rest)
        (first_identity p owner owners left) i ih h

  -- An identity that is not the target's does not rest on the target's rows.
  spared :
      (rows : List A) (i : ResolvedIdentity)
      → (i.owner_id == target) ≡ false
      → first_identity p owner owners rows ≡ some i
      → first_identity p owner owners (keep (λ r. not (owner r == target)) rows) ≡ some i
  unfolding keep
  spared [] i other h = h
  spared (r ∷ rs) i other h =
      spared_by r rs (keep (λ x. not (owner x == target)) rs) i (owner r == target) refl other
        (spared rs i other) h

module _ (hash : String) (now : ℕ) (owners : List Owner) (target : String) where
  abbrev left_over : List Token → List Token
  left_over rows = disable (λ r. r.owner_id == target) rows

  abbrev first_token : List Token → Option ResolvedIdentity
  first_token rows = first_identity (token_valid hash now) (λ r. r.owner_id) owners rows

  disabled_by :
      (r : Token) (b : Bool)
      → (r.owner_id == target) ≡ b
      → ((if b then record r { active = false } else r).owner_id == target) ≡ true
      → token_valid hash now (if b then record r { active = false } else r) ≡ false
  disabled_by r true e h = ground arith
  disabled_by r false e h = absurd (ground (arith, e, h))

  Shut-disable :
      (rows : List Token)
      → Shut (token_valid hash now) (λ r. r.owner_id) owners target (left_over rows)
  unfolding disable
  Shut-disable [] = tt
  Shut-disable (r ∷ rs) = (disabled_by r (r.owner_id == target) refl, Shut-disable rs)

  spared_token_by :
      (r : Token) (rest : List Token) (i : ResolvedIdentity) (b : Bool)
      → (r.owner_id == target) ≡ b
      → (i.owner_id == target) ≡ false
      → (first_token rest ≡ some i → first_token (left_over rest) ≡ some i)
      → first_token (r ∷ rest) ≡ some i
      → first_token ((if b then record r { active = false } else r) ∷ left_over rest) ≡ some i
  unfolding first_identity
  spared_token_by r rest i true e other ih h = ground (
    arith,
    ih (past_head (token_valid hash now) (λ x. x.owner_id) owners target r rest i e other h),
  )
  spared_token_by r rest i false e other ih h =
      same_head (token_valid hash now) (λ x. x.owner_id) owners target (token_valid hash now r)
        (identity_of (find_owner (λ o. o.id == r.owner_id) owners)) (first_token rest)
        (first_token (left_over rest)) i ih h

  spared_token :
      (rows : List Token) (i : ResolvedIdentity)
      → (i.owner_id == target) ≡ false
      → first_token rows ≡ some i
      → first_token (left_over rows) ≡ some i
  unfolding disable
  spared_token [] i other h = h
  spared_token (r ∷ rs) i other h =
      spared_token_by r rs i (r.owner_id == target) refl other (spared_token rs i other) h

principal-some :
    (o : Option ResolvedIdentity) (q : Principal)
    → principal_of o ≡ some q
    → o ≡ some (record { owner_id = q.owner_id; role = q.role })
principal-some none q h = absurd (ground (arith, h))
principal-some (some i) q h =
    ground (arith, some-inj (record { owner_id = i.owner_id; role = i.role }) q h)

-- After a revocation that is allowed, no session id and no bearer token, at any time, gives the
-- revoked owner; and each one that gave another principal before gives it still.
pub revoke_all-cuts :
    (c : Crypto) (p : Principal) (target : String) (s : AuthStore)
    → may_revoke p target ≡ true
    → (secret : String) (now : ℕ) (q : Principal)
    → (verify_session c secret now (revoke_all p target s).0 ≡ some q
        → (q.owner_id == target) ≡ false)
      × (verify_bearer c secret now (revoke_all p target s).0 ≡ some q
          → (q.owner_id == target) ≡ false)
      × ((q.owner_id == target) ≡ false
          → verify_session c secret now s ≡ some q
          → verify_session c secret now (revoke_all p target s).0 ≡ some q)
      × ((q.owner_id == target) ≡ false
          → verify_bearer c secret now s ≡ some q
          → verify_bearer c secret now (revoke_all p target s).0 ≡ some q)
unfolding verify_session verify_bearer resolve_session resolve_token delete_owner_sessions
    revoke_owner_tokens
revoke_all-cuts c p target s may secret now q =
    subst
      (λ r.
        (verify_session c secret now r.0 ≡ some q → (q.owner_id == target) ≡ false)
        × (verify_bearer c secret now r.0 ≡ some q → (q.owner_id == target) ≡ false)
        × ((q.owner_id == target) ≡ false
            → verify_session c secret now s ≡ some q
            → verify_session c secret now r.0 ≡ some q)
        × ((q.owner_id == target) ≡ false
            → verify_bearer c secret now s ≡ some q
            → verify_bearer c secret now r.0 ≡ some q))
      (sym (revoke_all-allowed p target s may))
      (let hash = c.token_hash secret in
        let i : ResolvedIdentity = record { owner_id = q.owner_id; role = q.role } in
        (
          (λ h.
              cut (session_valid hash now) (λ r. r.owner_id) s.owners target
                (keep (λ r. not (r.owner_id == target)) s.sessions) i
                (Shut-keep (session_valid hash now) (λ r. r.owner_id) s.owners target s.sessions)
                (principal-some
                  (resolve_session hash now
                    (revoke_owner_tokens target (delete_owner_sessions target s)))
                  q h)),
          (λ h.
              cut (token_valid hash now) (λ r. r.owner_id) s.owners target
                (disable (λ r. r.owner_id == target) s.tokens) i
                (Shut-disable hash now s.owners target s.tokens)
                (principal-some
                  (resolve_token hash now
                    (revoke_owner_tokens target (delete_owner_sessions target s)))
                  q h)),
          (λ other h. ap principal_of (
              spared (session_valid hash now) (λ r. r.owner_id) s.owners target s.sessions i other
                (principal-some (resolve_session hash now s) q h))),
          (λ other h. ap principal_of (
              spared_token hash now s.owners target s.tokens i other
                (principal-some (resolve_token hash now s) q h))),
        ))
