-- ===== src/Fetching/Browser.antt =====
-- packages/autolycos/src/autolycos/adapters/browser.py: which hosts a page may load, which document
-- counts as the one that was asked for, and the threads that a fetch may leave behind. Patchright,
-- the threads and the processes are not modelled; what they do is an event.
pub mod Documents
pub mod Ceiling
use Prim.{tt}
use Prim.Native.Char.{Char, code}
use Prim.Native.String
use kerdoos.Prelude.{
  ℕ, zero, suc, ◌+◌, ◌-◌, String, Bool, true, false, not, ◌&&◌, ◌||◌, Option, none, some, List, [],
  ◌∷◌, nat_eq, ltb, leb, if◌then◌else◌, ◌==◌, some_in, get_or, is_some,
}
use kerdoos.Scrape.Domain.{Exc, fetch_error, other, Outcome, returned, raised}
use kerdoos.Egress.Texts.{size, all_chars, ends_with, rstrip, labels}
use kerdoos.Egress.Safety.{Net}

-- `[a-z0-9_]`, and `[a-z0-9_-]`
abbrev pub is_edge : Char → Bool
is_edge c =
    (leb 97 (code c) && leb (code c) 122)
    || (leb 48 (code c) && leb (code c) 57)
    || nat_eq (code c) b'_'

abbrev pub is_inner : Char → Bool
is_inner c = is_edge c || nat_eq (code c) b'-'

-- `$` also matches in front of a line feed that ends the text.
unfoldable pub ends_label : String → Bool
ends_label String.[] = false
ends_label (String.◌∷◌ c s) =
    if (s == "") || (s == "\n") then is_edge c else is_inner c && ends_label s

abbrev pub starts_label : String → Bool
starts_label String.[] = false
starts_label (String.◌∷◌ c s) = is_edge c

-- `_HOSTNAME_LABEL_RE.match`: at most 63 characters, and the line feed.
abbrev pub is_hostname_label : String → Bool
is_hostname_label l =
    starts_label l && ends_label l && leb (size l) (if ends_with "\n" l then 64 else 63)

unfoldable pub is_hostname_shaped : String → Bool
unfolding ends_label size ends_with some_in labels
is_hostname_shaped host =
    if (host == "") || ltb 253 (size host)
    then false
    else not (some_in (λ l. not (is_hostname_label l)) (labels host))

-- The lists of the fetcher: the policy of navigation, and the normalised CDN hosts.
module _ (lower : String → String) (domain_allowed : String → Bool)
    (subresource_domains : List String) where
  unfoldable pub subresource_allowed : String → Bool
  unfolding some_in ends_with
  subresource_allowed host =
      some_in (λ d. (host == d) || ends_with (String.◌∷◌ "." d) host) subresource_domains

  unfoldable pub host_allowed : String → Bool
  unfolding is_hostname_shaped subresource_allowed rstrip
  host_allowed host =
      let normal = rstrip (lower host) in
      is_hostname_shaped normal && (domain_allowed normal || subresource_allowed normal)

-- What `urlsplit` gives of a url; an absent hostname counts as "".
pub record Location : Type 0 where
  pub scheme : String
  pub hostname : String
  pub port : Option (Option ℕ)
  pub has_userinfo : Bool

abbrev pub default_port : String → Option ℕ
default_port scheme =
    if scheme == "http" then some 80 else if scheme == "https" then some 443 else none

-- A port that cannot be read is `none`.
abbrev pub port_or_default : String → Option (Option ℕ) → Option ℕ
port_or_default scheme none = none
port_or_default scheme (some none) = default_port scheme
port_or_default scheme (some (some p)) = some p

unfoldable pub effective_port : Location → Option ℕ
effective_port l = port_or_default l.scheme l.port

abbrev pub same_port : Option ℕ → Option ℕ → Bool
same_port none none = true
same_port (some p) (some q) = nat_eq p q
same_port p q = false

abbrev pub Checked : Type 0
Checked = Outcome (Unit {0})

abbrev pub refused : String → Checked
refused m = raised (fetch_error m)

-- One round of the loop of `_check_final_document`.
unfoldable pub check_location : Location → Location → Checked
unfolding effective_port rstrip
check_location requested final =
    if final.has_userinfo
    then refused "final document contains userinfo"
    else if not (is_some (default_port final.scheme))
        || not (rstrip final.hostname == rstrip requested.hostname)
    then refused "final document is not on the requested host"
    else if (requested.scheme == "https") && not (final.scheme == "https")
    then refused "final document fell back from a requested https URL"
    else if not (same_port (effective_port final) (effective_port requested))
        && not (same_port (effective_port final) (default_port final.scheme))
    then refused "final document is not on the requested port"
    else returned tt

abbrev pub then_check : Checked → Checked → Checked
then_check (raised e) next = raised e
then_check (returned u) next = next

-- `urldefrag` leaves the url without its fragment.
module _ (urlsplit : String → Location) (urldefrag : String → String) where
  abbrev pub check_uri : String → Location → Option String → Checked
  check_uri final_url requested none = returned tt
  check_uri final_url requested (some uri) = then_check (check_location requested (urlsplit uri)) (
      if urldefrag final_url == urldefrag uri
      then returned tt
      else refused "final document URI does not match page URL")

  unfoldable pub check_final_document : String → String → Option String → Checked
  unfolding check_location
  check_final_document final_url requested_url document_uri =
      then_check (check_location (urlsplit requested_url) (urlsplit final_url))
        (check_uri final_url (urlsplit requested_url) document_uri)

-- Who has the outcome of a fetch: its thread, or the caller whose deadline fired.
pub data Claimant : Type 0 where
  runner caller : Claimant

-- `released` when the caller is done with `_count_abandoned`; `finished` and `counted` are `liveness`.
pub record Fetch : Type 0 where
  pub marker : String
  pub claimed : Option Claimant
  pub has_outcome : Bool
  pub released : Bool
  pub finished : Bool
  pub counted : Bool

-- `_abandoned_fetch_thread_count`, and the fetches that were started.
pub record Tier : Type 0 where
  pub abandoned : ℕ
  pub fetches : List Fetch

abbrev pub is_caller : Option Claimant → Bool
is_caller none = false
is_caller (some runner) = false
is_caller (some caller) = true

-- What happens to a fetch, by its marker: it starts; the caller or its thread claims the outcome; the
-- caller counts its thread as abandoned; the thread ends. What cannot happen changes nothing.
pub data Event : Type 0 where
  starts caller_claims thread_claims counts finishes : String → Event

abbrev pub new_fetch : String → Fetch
new_fetch marker = record {
  marker = marker;
  claimed = none;
  has_outcome = false;
  released = false;
  finished = false;
  counted = false;
}

-- The change of one fetch, and of the count.
pub data Change : Type 0 where
  stays up down : Change

abbrev pub applied : Change → ℕ → ℕ
applied stays n = n
applied up n = suc n
applied down n = n - 1

abbrev pub claim : Claimant → Bool → Fetch → Fetch × Change
claim who outcome f =
    if is_some f.claimed
    then (f, stays)
    else (record f { claimed = some who; has_outcome = outcome }, stays)

-- `_count_abandoned`, which only the caller that claimed the outcome calls, once.
abbrev pub count_abandoned : Fetch → Fetch × Change
count_abandoned f =
    if is_caller f.claimed && not f.released
    then (if f.finished
        then (record f { released = true }, stays)
        else (record f { released = true; counted = true }, up))
    else (f, stays)

-- The `finally` of `_run`, after the thread has tried to claim.
abbrev pub finish : Fetch → Fetch × Change
finish f =
    if is_some f.claimed && not f.finished
    then (record f { finished = true }, if f.counted then down else stays)
    else (f, stays)

unfoldable pub on_fetch : (Fetch → Fetch × Change) → String → List Fetch → List Fetch × Change
on_fetch g marker [] = ([], stays)
on_fetch g marker (f ∷ fs) =
    let rest = on_fetch g marker fs in
    if f.marker == marker then ((g f).0 ∷ fs, (g f).1) else (f ∷ rest.0, rest.1)

abbrev pub changed : ℕ → List Fetch × Change → Tier
changed n (fs, c) = record { abandoned = applied c n; fetches = fs }

module _ (max_abandoned_fetches : ℕ) where
  unfoldable pub step : Event → Tier → Tier
  unfolding on_fetch
  step (starts marker) t =
      if leb max_abandoned_fetches t.abandoned
      then t
      else record t { fetches = new_fetch marker ∷ t.fetches }
  step (caller_claims marker) t =
      changed t.abandoned (on_fetch (claim caller false) marker t.fetches)
  step (thread_claims marker) t =
      changed t.abandoned (on_fetch (claim runner true) marker t.fetches)
  step (counts marker) t = changed t.abandoned (on_fetch count_abandoned marker t.fetches)
  step (finishes marker) t = changed t.abandoned (on_fetch finish marker t.fetches)

  abbrev pub steps : List Event → Tier → Tier
  steps [] t = t
  steps (e ∷ es) t = steps es (step e t)

abbrev pub new_tier : Tier
new_tier = record { abandoned = 0; fetches = [] }
