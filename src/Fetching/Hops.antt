-- ===== src/Fetching/Hops.antt =====
-- packages/autolycos/src/autolycos/adapters/http.py and tls.py: the walk along redirects. What the
-- tool (requests, curl_cffi) answers for a target is a parameter, and so are urljoin and the decoding;
-- `net r` is what the DNS and the parsing of urls do at the r-th hop.
pub mod Pinned
use Prim.Native.String
use kerdoos.Prelude.{
  ℕ, zero, suc, ◌+◌, ◌*◌, String, Bool, true, false, not, ◌||◌, Option, none, some, List, [], ◌∷◌,
  nat_eq, ltb, if◌then◌else◌, ◌==◌, some_in, is_some,
}
use kerdoos.Scrape.Domain.{Exc, fetch_error, other, Outcome, returned, raised, FetchResult}
use kerdoos.Egress.Texts.{size}
use kerdoos.Egress.Safety.{Net, ValidatedTarget, validate_target}
use kerdoos.Fetching.Challenge.{looks_challenged, contains}

abbrev pub max_html_bytes : ℕ
max_html_bytes = 5 * 1024 * 1024

abbrev pub max_redirects : ℕ
max_redirects = 5

-- The two tiers: requests also tells a redirect itself, and curl_cffi is imported at each hop.
pub data Tier : Type 0 where
  http tls : Tier

abbrev pub method_name : Tier → String
method_name http = "http"
method_name tls = "tls"

-- A reply, with its `is_redirect`; a byte of a chunk is the character of its code.
pub record Reply : Type 0 where
  pub is_redirect : Bool
  pub status_code : ℕ
  pub location : Option String
  pub encoding : Option String
  pub chunks : List String

pub record Tools : Type 0 where
  -- The answer at a hop to a url whose connection is pinned to a target.
  pub get : ℕ → String → ValidatedTarget → Outcome Reply
  pub urljoin : String → String → String
  pub decode : String → List String → String
  pub lower : String → String

-- `_read_capped`, from the bytes that were read so far.
abbrev pub with_chunk : String → Outcome (List String) → Outcome (List String)
with_chunk chunk (raised e) = raised e
with_chunk chunk (returned rest) = returned (chunk ∷ rest)

unfoldable pub read_capped : ℕ → List String → Outcome (List String)
unfolding size
read_capped total [] = returned []
read_capped total (chunk ∷ rest) =
    let skipped = read_capped total rest in
    let read = with_chunk chunk (read_capped (total + size chunk) rest) in
    if chunk == ""
    then skipped
    else if ltb max_html_bytes (total + size chunk)
    then raised (fetch_error "response exceeds the cap")
    else read

abbrev pub redirect_codes : List ℕ
redirect_codes = 301 ∷ 302 ∷ 303 ∷ 307 ∷ 308 ∷ []

abbrev pub has_redirect : Tier → Reply → Bool
has_redirect http r = r.is_redirect || some_in (nat_eq r.status_code) redirect_codes
has_redirect tls r = some_in (nat_eq r.status_code) redirect_codes

-- A request that is sent.
pub record Request : Type 0 where
  pub hop : ℕ
  pub url : String
  pub target : ValidatedTarget

-- The requests of a fetch, and how it ends.
abbrev pub Walk : Type 0
Walk = List Request × Outcome FetchResult

abbrev pub walked : Request → Walk → Walk
walked q (log, o) = (q ∷ log, o)

module _ (net : ℕ → Net) (allowed : String → Bool) (tools : Tools) (tier : Tier) where
  open tools use {get, urljoin, decode, lower}

  abbrev pub page_of : ℕ → String → FetchResult
  page_of status text = record {
    html = text;
    status = status;
    method = method_name tier;
    challenged = looks_challenged lower status text;
  }

  -- `resp.encoding or "utf-8"`
  abbrev pub encoding_of : Option String → String
  encoding_of none = "utf-8"
  encoding_of (some e) = if e == "" then "utf-8" else e

  abbrev pub page_or_error : Reply → Outcome (List String) → Outcome FetchResult
  page_or_error r (raised e) = raised e
  page_or_error r (returned chunks) =
      returned (page_of r.status_code (decode (encoding_of r.encoding) chunks))

  -- The next hop, of the url that the location gives.
  abbrev pub follow : String → Option String → (String → Walk) → Walk
  follow current none next = ([], raised (fetch_error "redirect without Location header"))
  follow current (some location) next =
      if location == ""
      then ([], raised (fetch_error "redirect without Location header"))
      else next (urljoin current location)

  abbrev pub on_reply : String → Outcome Reply → (String → Walk) → Walk
  on_reply current (raised e) next = ([], raised e)
  on_reply current (returned r) next =
      if has_redirect tier r
      then follow current r.location next
      else ([], page_or_error r (read_capped 0 r.chunks))

  abbrev pub on_target : ℕ → String → Outcome ValidatedTarget → (String → Walk) → Walk
  on_target hop current (raised e) next = ([], raised e)
  on_target hop current (returned target) next =
      walked (record { hop = hop; url = current; target = target })
        (on_reply current (get hop current target) next)

  -- `for _ in range(MAX_REDIRECTS + 1)`, the rounds left.
  unfoldable pub fetch_hops : ℕ → ℕ → String → Walk
  unfolding validate_target read_capped some_in looks_challenged
  fetch_hops zero hop current = ([], raised (fetch_error "too many redirects"))
  fetch_hops (suc left) hop current =
      on_target hop current (validate_target (net hop) current allowed) (fetch_hops left (suc hop))

  unfoldable pub fetch : String → Walk
  unfolding fetch_hops
  fetch url = fetch_hops (suc max_redirects) 0 url
