-- ===== src/Fetching/Hops/Pinned.antt =====
-- The requests of the http and tls tiers (packages/autolycos/src/autolycos/adapters).
use Prim.{tt, absurd}
use kerdoos.Prelude.{◌⊎◌, inl, inr, split_if}
use kerdoos.Prelude.{
  ℕ, zero, suc, ◌+◌, ◌≤◌, ◌≡◌, refl, ap, String, Bool, true, false, Option, none, some, List, [],
  ◌∷◌, ltb, if◌then◌else◌, ◌==◌, arith, All, either_if, length, some_in,
}
use kerdoos.Prelude.Rows.{All-weaken}
use kerdoos.Scrape.Domain.{fetch_error, Outcome, returned, raised, FetchResult}
use kerdoos.Egress.Texts.{size}
use kerdoos.Egress.Safety.{Net, ValidatedTarget, validate_target, allowed_schemes}
use kerdoos.Egress.Safety.Pins.{IsPinned}
use kerdoos.Egress.Safety.Targets.{validate_target-IsPinned}
use kerdoos.Fetching.Challenge.{looks_challenged}
use kerdoos.Fetching.Hops.{
  max_html_bytes, Tier, Reply, Tools, read_capped, with_chunk, has_redirect, Request, Walk, walked,
  encoding_of, page_or_error, follow, on_reply, on_target, fetch_hops, fetch,
}

unfoldable pub total_size : List String → ℕ
total_size [] = 0
total_size (c ∷ cs) = size c + total_size cs

with_chunk-returned :
    (c : String) (o : Outcome (List String)) (cs : List String)
    → with_chunk c o ≡ returned cs
    → (ds : List String) × (o ≡ returned ds) × (c ∷ ds ≡ cs)
with_chunk-returned c (raised e) cs h = absurd cc
with_chunk-returned c (returned ds) cs h = (ds, refl, cc)

-- What is read keeps within the cap.
read_capped-le :
    (total : ℕ) (chunks cs : List String)
    → total ≤ max_html_bytes
    → read_capped total chunks ≡ returned cs
    → total + total_size cs ≤ max_html_bytes
unfolding read_capped total_size
read_capped-le total [] cs h e = let none : [] ≡ cs = cc in omega (arith, h, ap total_size none)
read_capped-le total (c ∷ rest) cs h e =
    by_tests (c == "") (ltb max_html_bytes (total + size c)) refl e (read_capped-le total rest cs h)
      (λ ds. read_capped-le (total + size c) rest ds)
  where
    by_tests :
        (empty over : Bool)
        → ltb max_html_bytes (total + size c) ≡ over
        → (if empty
            then read_capped total rest
            else if over
            then raised (fetch_error "response exceeds the cap")
            else with_chunk c (read_capped (total + size c) rest))
          ≡ returned cs
        → (read_capped total rest ≡ returned cs → total + total_size cs ≤ max_html_bytes)
        → ((ds : List String)
            → total + size c ≤ max_html_bytes
            → read_capped (total + size c) rest ≡ returned ds
            → total + size c + total_size ds ≤ max_html_bytes)
        → total + total_size cs ≤ max_html_bytes
    by_tests true over p k f g = f k
    by_tests false true p k f g = absurd cc
    by_tests false false p k f g =
        let found = with_chunk-returned c (read_capped (total + size c) rest) cs k in
        omega (arith, ap total_size found.2, g found.0 (ground (arith, p)) found.1)

module _ (net : ℕ → Net) (allowed : String → Bool) (tools : Tools) (tier : Tier) where
  -- The url of the request passed the gate at its hop, which gave the target.
  abbrev pub IsValidated : Request → Type 0
  IsValidated q = validate_target (net q.hop) q.url allowed ≡ returned q.target

  -- A page that is returned: at most so many bytes, decoded and judged.
  abbrev pub IsCapped : Outcome FetchResult → Type 0
  IsCapped (raised e) = Unit {0}
  IsCapped (returned page) =
      (encoding : String) × (cs : List String) × (total_size cs ≤ max_html_bytes)
      × (page.html ≡ tools.decode encoding cs)
      × (page.challenged ≡ looks_challenged tools.lower page.status page.html)

  abbrev pub IsGuarded : ℕ → Walk → Type 0
  IsGuarded n (log, o) = All IsValidated log × (length log ≤ n) × IsCapped o

  page-IsCapped :
      (r : Reply) (chunks : List String) (o : Outcome (List String))
      → read_capped 0 chunks ≡ o
      → IsCapped (page_or_error net allowed tools tier r o)
  page-IsCapped r chunks (raised e) h = tt
  page-IsCapped r chunks (returned cs) h = (
    encoding_of net allowed tools tier r.encoding,
    cs,
    omega (arith, read_capped-le 0 chunks cs (omega arith) h),
    refl,
    refl,
  )

  follow-IsGuarded :
      (n : ℕ) (current : String) (location : Option String) (next : String → Walk)
      → ((url : String) → IsGuarded n (next url))
      → IsGuarded n (follow net allowed tools tier current location next)
  follow-IsGuarded n current none next h = (tt, omega arith, tt)
  follow-IsGuarded n current (some location) next h =
      either_if (IsGuarded n) (location == "") _ _ (tt, omega arith, tt)
        (h (tools.urljoin current location))

  reply-IsGuarded :
      (n : ℕ) (current : String) (o : Outcome Reply) (next : String → Walk)
      → ((url : String) → IsGuarded n (next url))
      → IsGuarded n (on_reply net allowed tools tier current o next)
  reply-IsGuarded n current (raised e) next h = (tt, omega arith, tt)
  reply-IsGuarded n current (returned r) next h =
      either_if (IsGuarded n) (has_redirect tier r) _ _
        (follow-IsGuarded n current r.location next h)
        (tt, omega arith, page-IsCapped r r.chunks (read_capped 0 r.chunks) refl)

  walked-IsGuarded :
      (n : ℕ) (q : Request) (w : Walk)
      → IsValidated q
      → IsGuarded n w
      → IsGuarded (suc n) (walked q w)
  walked-IsGuarded n q (log, o) v h = ((v, h.0), omega (arith, h.1), h.2)

  target-IsGuarded :
      (n hop : ℕ) (current : String) (o : Outcome ValidatedTarget) (next : String → Walk)
      → validate_target (net hop) current allowed ≡ o
      → ((url : String) → IsGuarded n (next url))
      → IsGuarded (suc n) (on_target net allowed tools tier hop current o next)
  target-IsGuarded n hop current (raised e) next v h = (tt, omega arith, tt)
  target-IsGuarded n hop current (returned t) next v h =
      walked-IsGuarded n (record { hop = hop; url = current; target = t }) _ v
        (reply-IsGuarded n current (tools.get hop current t) next h)

  hops-IsGuarded :
      (left hop : ℕ) (current : String)
      → IsGuarded left (fetch_hops net allowed tools tier left hop current)
  unfolding fetch_hops
  hops-IsGuarded zero hop current = (tt, omega arith, tt)
  hops-IsGuarded (suc left) hop current =
      target-IsGuarded left hop current (validate_target (net hop) current allowed) _ refl
        (hops-IsGuarded left (suc hop))

  -- The url of the request passed the gate at its hop, and the request goes to the address that was
  -- checked then, of a host that the policy allows.
  abbrev pub IsPinnedRequest : Request → Type 0
  IsPinnedRequest q =
      IsValidated q
      × (some_in (λ s. s == q.target.scheme) allowed_schemes ≡ true)
      × (allowed q.target.host ≡ true)
      × IsPinned (net q.hop) q.target.host q.target.port q.target.ip

  -- The answer to a request is a redirect to a location.
  abbrev pub RedirectsTo : Request → String → Type 0
  RedirectsTo q location =
      (r : Reply) × (tools.get q.hop q.url q.target ≡ returned r)
      × (has_redirect tier r ≡ true)
      × (r.location ≡ some location)

  -- The first request is for the url, and each further one for the location that the answer to the
  -- one before it redirects to.
  abbrev pub IsWalk : ℕ → String → List Request → Type 0
  IsWalk hop url [] = Unit {0}
  IsWalk hop url (q ∷ qs) =
      (q.url ≡ url)
      × (q.hop ≡ hop)
      × ((qs ≡ [])
          ⊎ ((location : String) × RedirectsTo q location
              × IsWalk (suc hop) (tools.urljoin url location) qs))

  -- How the walk goes on after a request for the url.
  abbrev GoesOn : Request → List Request → Type 0
  GoesOn q qs =
      (qs ≡ [])
      ⊎ ((location : String) × RedirectsTo q location
          × IsWalk (suc q.hop) (tools.urljoin q.url location) qs)

  module _ (q : Request) (next : String → Walk)
      (walks : (url : String) → IsWalk (suc q.hop) url (next url).0) where
    follow-GoesOn :
        (r : Reply) (location : Option String)
        → tools.get q.hop q.url q.target ≡ returned r
        → has_redirect tier r ≡ true
        → r.location ≡ location
        → GoesOn q (follow net allowed tools tier q.url location next).0
    follow-GoesOn r none e k l = inl refl
    follow-GoesOn r (some location) e k l =
        either_if (λ (w : Walk). GoesOn q w.0) (location == "") _ _ (inl refl)
          (inr (location, (r, e, k, l), walks (tools.urljoin q.url location)))

    reply-GoesOn :
        (o : Outcome Reply)
        → tools.get q.hop q.url q.target ≡ o
        → GoesOn q (on_reply net allowed tools tier q.url o next).0
    reply-GoesOn (raised x) e = inl refl
    reply-GoesOn (returned r) e =
        split_if (λ (w : Walk). GoesOn q w.0) (has_redirect tier r) _ _
          (λ k. follow-GoesOn r r.location e k refl) (λ k. inl refl)

  target-IsWalk :
      (hop : ℕ) (current : String) (o : Outcome ValidatedTarget) (next : String → Walk)
      → ((url : String) → IsWalk (suc hop) url (next url).0)
      → IsWalk hop current (on_target net allowed tools tier hop current o next).0
  target-IsWalk hop current (raised x) next h = tt
  target-IsWalk hop current (returned t) next h =
      let q : Request = record { hop = hop; url = current; target = t } in
      (refl, refl, reply-GoesOn q next h (tools.get hop current t) refl)

  hops-IsWalk :
      (left hop : ℕ) (current : String)
      → IsWalk hop current (fetch_hops net allowed tools tier left hop current).0
  unfolding fetch_hops
  hops-IsWalk zero hop current = tt
  hops-IsWalk (suc left) hop current =
      target-IsWalk hop current (validate_target (net hop) current allowed) _
        (hops-IsWalk left (suc hop))

-- However the servers redirect, and whatever the DNS answers at each hop: a fetch of the http or the
-- tls tier sends at most six requests, the first for its url and each further one for the location
-- that the answer before it gave. The url of each passed the gate at its hop, with an http or https
-- scheme and a host that the policy allows, and the request goes to the address that was safe then. A
-- page that is returned was decoded from at most 5 MiB, and its `challenged` is that of its status
-- and text.
pub fetch-IsPinnedRequest :
    (net : ℕ → Net) (allowed : String → Bool) (tools : Tools) (tier : Tier) (url : String)
    → All (IsPinnedRequest net allowed tools tier) (fetch net allowed tools tier url).0
      × IsWalk net allowed tools tier 0 url (fetch net allowed tools tier url).0
      × (length (fetch net allowed tools tier url).0 ≤ 6)
      × IsCapped net allowed tools tier (fetch net allowed tools tier url).1
unfolding fetch
fetch-IsPinnedRequest net allowed tools tier url =
    let g = hops-IsGuarded net allowed tools tier 6 0 url in
    (
      All-weaken (IsValidated net allowed tools tier) (IsPinnedRequest net allowed tools tier)
          (λ q v.
            let p = validate_target-IsPinned (net q.hop) q.url allowed q.target v in
            (v, p.0, p.1, p.2))
          (fetch net allowed tools tier url).0 g.0,
      hops-IsWalk net allowed tools tier 6 0 url,
      g.1,
      g.2,
    )
