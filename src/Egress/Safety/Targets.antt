-- ===== src/Egress/Safety/Targets.antt =====
-- The fetch-time gate of safety.py (packages/autolycos/src/autolycos) next to the write-time gate of
-- packages/kerdoos/src/kerdoos/registry/url_validation.py.
use Prim.{tt, absurd}
use kerdoos.Prelude.{ℕ, ◌≡◌, refl, sym, ap, ◌∙◌, String, Bool, true, Option, ◌==◌, some_in}
use kerdoos.Scrape.Domain.{Outcome, returned, raised}
use kerdoos.Egress.Safety.{
  Net, ValidatedTarget, check_scheme_and_domain, allowed_schemes, validate_target, of_checked,
  with_port, target_at, port_of, port_or, resolve_and_check, as_validation, validate_source_url,
}
use kerdoos.Egress.Safety.Pins.{returned_inj, IsPinned, resolve_and_check-IsPinned, check-allowed}

module _ (net : Net) (url : String) (allowed : String → Bool) where
  -- An accepted target, and how it came to be.
  abbrev pub IsChecked : ValidatedTarget → Type 0
  IsChecked t =
      (check_scheme_and_domain net url allowed ≡ returned (t.scheme, t.host))
      × (resolve_and_check net t.host t.port ≡ returned t.ip)

  address_by :
      (c : String × String) (port : ℕ) (o : Outcome String) (t : ValidatedTarget)
      → check_scheme_and_domain net url allowed ≡ returned c
      → resolve_and_check net c.1 port ≡ o
      → target_at net url c port o ≡ returned t
      → IsChecked t
  address_by c port (raised e) t f g h = absurd cc
  address_by c port (returned ip) t f g h =
      let p =
        returned_inj (record { url = url; scheme = c.0; host = c.1; port = port; ip = ip }) t h in
      (
        f ∙ ap (λ x. returned (x.scheme, x.host)) p,
        ap (λ x. resolve_and_check net x.host x.port) (sym p) ∙ g ∙ ap (λ x. returned x.ip) p,
      )

  port_by :
      (c : String × String) (o : Outcome (Option ℕ)) (t : ValidatedTarget)
      → check_scheme_and_domain net url allowed ≡ returned c
      → with_port net url c o ≡ returned t
      → IsChecked t
  port_by c (raised e) t f h = absurd cc
  port_by c (returned p) t f h =
      address_by c (port_or net c.0 p) (resolve_and_check net c.1 (port_or net c.0 p)) t f refl h

  parts_by :
      (o : Outcome (String × String)) (t : ValidatedTarget)
      → check_scheme_and_domain net url allowed ≡ o
      → of_checked net url o ≡ returned t
      → IsChecked t
  parts_by (raised e) t f h = absurd cc
  parts_by (returned c) t f h = port_by c (port_of net (net.urlsplit url)) t f h

  -- A target that the fetch-time gate accepts has an http or https scheme and a host that the policy
  -- allows; its address is the first answer of a lookup of that host with no unsafe answer; and the
  -- write-time gate accepts its url under the same policy.
  pub validate_target-IsPinned :
      (t : ValidatedTarget)
      → validate_target net url allowed ≡ returned t
      → (some_in (λ s. s == t.scheme) allowed_schemes ≡ true)
        × (allowed t.host ≡ true)
        × IsPinned net t.host t.port t.ip
        × (validate_source_url net url allowed ≡ returned tt)
  unfolding validate_target validate_source_url
  validate_target-IsPinned t h =
      let (c, r) = parts_by (check_scheme_and_domain net url allowed) t refl h in
      let (s, a) = check-allowed net url allowed (t.scheme, t.host) c in
      (s, a, resolve_and_check-IsPinned net t.host t.port t.ip r, ap (as_validation net) c)
