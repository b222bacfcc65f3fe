-- ===== src/Egress/Safety/Pins.antt =====
-- The address that safety.py of packages/autolycos/src/autolycos gives a caller to dial.
use Prim.{absurd}
use kerdoos.Prelude.{
  ℕ, ◌≡◌, refl, sym, ap, ◌∙◌, String, Bool, true, false, not, Option, none, some, List, [], ◌∷◌,
  ◌==◌, some_in, if◌then◌else◌,
}
use kerdoos.Scrape.Domain.{fetch_error, Outcome, returned, raised}
use kerdoos.Egress.Texts.{all_chars}
use kerdoos.Egress.Safety.{
  is_rfc3986, Net, Lookup, found, gaierror, broken, Parts, PinnedAddress, ip_is_safe,
  checked_lookup, resolve_and_check, resolve_and_pin, pinned, check_scheme_and_domain,
  checked_parts, checked_host, allowed_schemes,
}

pub returned_inj : {A : Type 0} (a b : A) → returned a ≡ returned b → a ≡ b
returned_inj a b h = cc

module _ (net : Net) where
  -- `ip` is the first answer of one lookup of `host`, and every answer is a safe address.
  abbrev pub IsPinned : String → ℕ → String → Type 0
  IsPinned host port ip =
      (rest : List String) × (net.getaddrinfo host port ≡ found (ip ∷ rest))
      × (some_in (λ a. not (ip_is_safe net a)) (ip ∷ rest) ≡ false)

  first_of :
      (host : String) (port : ℕ) (l : Lookup) (ip : String)
      → net.getaddrinfo host port ≡ l
      → checked_lookup net l ≡ returned ip
      → IsPinned host port ip
  first_of host port (gaierror m) ip e h = absurd cc
  first_of host port (broken x) ip e h = absurd cc
  first_of host port (found []) ip e h = absurd cc
  first_of host port (found (a ∷ rest)) ip e h =
      safe_by (some_in (λ x. not (ip_is_safe net x)) (a ∷ rest)) refl h
    where
      safe_by :
          (b : Bool)
          → some_in (λ x. not (ip_is_safe net x)) (a ∷ rest) ≡ b
          → (if not b then returned a else raised (fetch_error "resolved address blocked"))
            ≡ returned ip
          → IsPinned host port ip
      safe_by true f g = absurd cc
      safe_by false f g = (
        rest,
        e ∙ ap (λ x. found (x ∷ rest)) (returned_inj a ip g),
        ap (λ x. some_in (λ y. not (ip_is_safe net y)) (x ∷ rest)) (sym (returned_inj a ip g)) ∙ f,
      )

  pub resolve_and_check-IsPinned :
      (host : String) (port : ℕ) (ip : String)
      → resolve_and_check net host port ≡ returned ip
      → IsPinned host port ip
  unfolding resolve_and_check
  resolve_and_check-IsPinned host port ip h =
      first_of host port (net.getaddrinfo host port) ip refl h

  pin_of :
      (host : String) (port : ℕ) (o : Outcome String) (pin : PinnedAddress)
      → pinned net host port o ≡ returned pin
      → o ≡ returned pin.ip
  pin_of host port (raised e) pin h = absurd cc
  pin_of host port (returned ip) pin h =
      ap (λ p. returned p.ip) (returned_inj (record { host = host; port = port; ip = ip }) pin h)

  pub resolve_and_pin-IsPinned :
      (host : String) (port : ℕ) (pin : PinnedAddress)
      → resolve_and_pin net host port ≡ returned pin
      → IsPinned host port pin.ip
  unfolding resolve_and_pin
  resolve_and_pin-IsPinned host port pin h =
      resolve_and_check-IsPinned host port pin.ip
        (pin_of host port (resolve_and_check net host port) pin h)

  -- The steps of a target that was accepted.
  checked_scheme :
      (allowed : String → Bool) (parts : Outcome Parts) (c : String × String)
      → checked_parts net allowed parts ≡ returned c
      → (some_in (λ s. s == c.0) allowed_schemes ≡ true) × (allowed c.1 ≡ true)
  checked_scheme allowed (raised e) c h = absurd cc
  checked_scheme allowed (returned parts) c h =
      scheme_by (some_in (λ s. s == net.lower parts.scheme) allowed_schemes) refl h
    where
      host_by :
          (name : Option String)
          → some_in (λ s. s == net.lower parts.scheme) allowed_schemes ≡ true
          → checked_host net allowed (net.lower parts.scheme) name ≡ returned c
          → (some_in (λ s. s == c.0) allowed_schemes ≡ true) × (allowed c.1 ≡ true)
      host_by none e g = absurd cc
      host_by (some host) e g = allowed_by (host == "") (allowed host) refl g
        where
          allowed_by :
              (a b : Bool)
              → allowed host ≡ b
              → (if a
                  then raised (fetch_error "missing host")
                  else if not b
                  then raised (fetch_error "domain not in allowlist")
                  else returned (net.lower parts.scheme, host))
                ≡ returned c
              → (some_in (λ s. s == c.0) allowed_schemes ≡ true) × (allowed c.1 ≡ true)
          allowed_by true b f k = absurd cc
          allowed_by false false f k = absurd cc
          allowed_by false true f k =
              let p = returned_inj (net.lower parts.scheme, host) c k in
              (
                ap (λ x. some_in (λ s. s == x.0) allowed_schemes) (sym p) ∙ e,
                ap (λ x. allowed x.1) (sym p) ∙ f,
              )

      scheme_by :
          (b : Bool)
          → some_in (λ s. s == net.lower parts.scheme) allowed_schemes ≡ b
          → (if not b
              then raised (fetch_error "scheme not allowed")
              else checked_host net allowed (net.lower parts.scheme) parts.hostname)
            ≡ returned c
          → (some_in (λ s. s == c.0) allowed_schemes ≡ true) × (allowed c.1 ≡ true)
      scheme_by true e g = host_by parts.hostname e g
      scheme_by false e g = absurd cc

  pub check-allowed :
      (url : String) (allowed : String → Bool) (c : String × String)
      → check_scheme_and_domain net url allowed ≡ returned c
      → (some_in (λ s. s == c.0) allowed_schemes ≡ true) × (allowed c.1 ≡ true)
  unfolding check_scheme_and_domain
  check-allowed url allowed c h = chars_by (all_chars (is_rfc3986) url) h
    where
      chars_by :
          (b : Bool)
          → (if not b
              then raised (fetch_error "url contains a character outside RFC 3986")
              else checked_parts net allowed (net.urlsplit url))
            ≡ returned c
          → (some_in (λ s. s == c.0) allowed_schemes ≡ true) × (allowed c.1 ≡ true)
      chars_by true g = checked_scheme allowed (net.urlsplit url) c g
      chars_by false g = absurd cc
