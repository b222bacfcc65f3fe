-- ===== src/Egress/Safety.antt =====
-- packages/autolycos/src/autolycos/safety.py, and the callers of its domain test:
-- packages/kerdoos/src/kerdoos/registry/domain_policy.py and url_validation.py. ipaddress, urlsplit,
-- getaddrinfo and str.lower are parameters.
pub mod Pins
pub mod Domains
pub mod Targets
use Prim.Native.Char.{Char, code}
use Prim.Native.String
use kerdoos.Prelude.{
  ℕ, zero, suc, String, Bool, true, false, not, ◌&&◌, ◌||◌, Option, none, some, List, [], ◌∷◌, ◌==◌,
  nat_eq, leb, if◌then◌else◌, some_in,
}
use kerdoos.Scrape.Domain.{Exc, fetch_error, parse_error, other, Outcome, returned, raised}
use kerdoos.ConfigStore.Tables.{ConfigDb, site_domains}
use kerdoos.Egress.Texts.{all_chars, ends_with, rstrip, is_ascii_digit}

-- The flags of one of ipaddress's addresses.
pub record Flags : Type 0 where
  pub is_private : Bool
  pub is_loopback : Bool
  pub is_link_local : Bool
  pub is_reserved : Bool
  pub is_multicast : Bool
  pub is_unspecified : Bool
  pub is_global : Bool

-- `ipaddress.ip_address(text)`; an IPv6 address may carry an `ipv4_mapped`.
pub data Address : Type 0 where
  v4 : Flags → Address
  v6 : Flags → Option Flags → Address

-- What `socket.getaddrinfo` does: addresses, a gaierror, or another exception.
pub data Lookup : Type 0 where
  found : List String → Lookup
  gaierror : String → Lookup
  broken : Exc → Lookup

-- The parts of `urlsplit(url)` that are read.
pub record Parts : Type 0 where
  pub scheme : String
  pub hostname : Option String
  pub port : Outcome (Option ℕ)

pub record Net : Type 0 where
  pub lower : String → String
  pub ip_address : String → Option Address
  pub getaddrinfo : String → ℕ → Lookup
  pub urlsplit : String → Outcome Parts

-- The addresses that are not globally routable.
abbrev pub flags_safe : Flags → Bool
flags_safe f =
    if f.is_private || f.is_loopback || f.is_link_local || f.is_reserved || f.is_multicast
      || f.is_unspecified
    then false
    else f.is_global

abbrev pub address_safe : Option Address → Bool
address_safe none = false
address_safe (some (v4 f)) = flags_safe f
address_safe (some (v6 f none)) = flags_safe f
address_safe (some (v6 f (some mapped))) = flags_safe mapped

abbrev pub is_rfc3986 : Char → Bool
is_rfc3986 c =
    let n = code c in
    (leb b'a' n && leb n b'z')
    || (leb b'A' n && leb n b'Z')
    || is_ascii_digit c
    || nat_eq n 33
    || nat_eq n 35
    || nat_eq n 36
    || nat_eq n 37
    || (leb 38 n && leb n 47)
    || nat_eq n 58
    || nat_eq n 59
    || nat_eq n 61
    || nat_eq n 63
    || nat_eq n 64
    || nat_eq n 91
    || nat_eq n 93
    || nat_eq n 95
    || nat_eq n 126

abbrev pub allowed_schemes : List String
allowed_schemes = "http" ∷ "https" ∷ []

abbrev pub default_port : String → ℕ
default_port scheme = if scheme == "http" then 80 else 443

-- `host == d or host.endswith("." + d)`
abbrev pub is_within : String → String → Bool
is_within host d = (host == d) || ends_with (String.◌∷◌ "." d) host

pub record ValidatedTarget : Type 0 where
  pub url : String
  pub scheme : String
  pub host : String
  pub port : ℕ
  pub ip : String

pub record PinnedAddress : Type 0 where
  pub host : String
  pub port : ℕ
  pub ip : String

abbrev pub Done : Type 0
Done = Unit {0}

module _ (net : Net) where
  unfoldable pub ip_is_safe : String → Bool
  ip_is_safe addr = address_safe (net.ip_address addr)

  -- `DomainPolicy(allowed).domain_allowed(host)`
  unfoldable pub domain_allowed : List String → String → Bool
  unfolding some_in ends_with rstrip
  domain_allowed allowed host = some_in (is_within (rstrip (net.lower host))) allowed

  -- `CatalogueDomainPolicy(store).domain_allowed(host)`
  unfoldable pub catalogue_allowed : ConfigDb → String → Bool
  unfolding site_domains domain_allowed
  catalogue_allowed db host = domain_allowed (site_domains db) host

  abbrev pub checked_host : (String → Bool) → String → Option String → Outcome (String × String)
  checked_host allowed scheme none = raised (fetch_error "missing host")
  checked_host allowed scheme (some host) =
      if host == ""
      then raised (fetch_error "missing host")
      else if not (allowed host)
      then raised (fetch_error "domain not in allowlist")
      else returned (scheme, host)

  abbrev pub checked_parts : (String → Bool) → Outcome Parts → Outcome (String × String)
  checked_parts allowed (raised e) = raised e
  checked_parts allowed (returned parts) =
      if not (some_in (λ s. s == net.lower parts.scheme) allowed_schemes)
      then raised (fetch_error "scheme not allowed")
      else checked_host allowed (net.lower parts.scheme) parts.hostname

  unfoldable pub check_scheme_and_domain : String → (String → Bool) → Outcome (String × String)
  unfolding all_chars some_in
  check_scheme_and_domain url allowed =
      if not (all_chars is_rfc3986 url)
      then raised (fetch_error "url contains a character outside RFC 3986")
      else checked_parts allowed (net.urlsplit url)

  abbrev pub all_safe : List String → Bool
  all_safe addrs = not (some_in (λ a. not (ip_is_safe a)) addrs)

  abbrev pub pick : List String → Outcome String
  pick [] = raised (fetch_error "no addresses resolved")
  pick (a ∷ rest) =
      if all_safe (a ∷ rest) then returned a else raised (fetch_error "resolved address blocked")

  abbrev pub checked_lookup : Lookup → Outcome String
  checked_lookup (found addrs) = pick addrs
  checked_lookup (gaierror m) = raised (fetch_error m)
  checked_lookup (broken e) = raised e

  unfoldable pub resolve_and_check : String → ℕ → Outcome String
  unfolding ip_is_safe some_in
  resolve_and_check host port = checked_lookup (net.getaddrinfo host port)

  -- `parts.port or _DEFAULT_PORT[scheme]`
  abbrev pub port_or : String → Option ℕ → ℕ
  port_or scheme none = default_port scheme
  port_or scheme (some p) = if nat_eq p 0 then default_port scheme else p

  abbrev pub target_at : String → String × String → ℕ → Outcome String → Outcome ValidatedTarget
  target_at url (scheme, host) port (raised e) = raised e
  target_at url (scheme, host) port (returned ip) =
      returned (record { url = url; scheme = scheme; host = host; port = port; ip = ip })

  abbrev pub with_port : String → String × String → Outcome (Option ℕ) → Outcome ValidatedTarget
  with_port url checked (raised e) = raised e
  with_port url checked (returned p) =
      target_at url checked (port_or checked.0 p)
        (resolve_and_check checked.1 (port_or checked.0 p))

  abbrev pub port_of : Outcome Parts → Outcome (Option ℕ)
  port_of (raised e) = raised e
  port_of (returned parts) = parts.port

  abbrev pub of_checked : String → Outcome (String × String) → Outcome ValidatedTarget
  of_checked url (raised e) = raised e
  of_checked url (returned checked) = with_port url checked (port_of (net.urlsplit url))

  unfoldable pub validate_target : String → (String → Bool) → Outcome ValidatedTarget
  unfolding check_scheme_and_domain resolve_and_check
  validate_target url allowed = of_checked url (check_scheme_and_domain url allowed)

  abbrev pub pinned : String → ℕ → Outcome String → Outcome PinnedAddress
  pinned host port (raised e) = raised e
  pinned host port (returned ip) = returned (record { host = host; port = port; ip = ip })

  unfoldable pub resolve_and_pin : String → ℕ → Outcome PinnedAddress
  unfolding resolve_and_check
  resolve_and_pin host port = pinned host port (resolve_and_check host port)

  -- `except SSRFError`: check_scheme_and_domain raises no other FetchError.
  abbrev pub as_validation : Outcome (String × String) → Outcome Done
  as_validation (returned checked) = returned tt
  as_validation (raised (fetch_error m)) = raised (other "UrlValidationError" m)
  as_validation (raised (parse_error m)) = raised (parse_error m)
  as_validation (raised (other k m)) = raised (other k m)

  unfoldable pub validate_source_url : String → (String → Bool) → Outcome Done
  unfolding check_scheme_and_domain
  validate_source_url url allowed = as_validation (check_scheme_and_domain url allowed)
